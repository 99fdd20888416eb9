-- ===== src/Listing.antt =====
-- op_systems/ls2.cpp: which entries of a directory are looked at.
pub mod Looked
pub mod Directory
mod Tests
use osy_materials.Prelude.{
  ℕ, zero, suc, Bool, true, false, ◌||◌, ◌&&◌, List, [], ◌∷◌, ltb, ◌==◌, if◌then◌else◌, length,
}
use osy_materials.Libc.Strings.{Bytes, codes, str_eq, contains}
use osy_materials.Sys.{
  Answer, fail, gives, stat, opendir, readdir, closedir, Sys, ◌>>=◌, ◌>>◌, pure, act, ask, failed,
  arg, give_up_if, exit_success,
}
use osy_materials.Sys.Loop.{Round, again, leave, loop}

-- `struct OutputFormat`, without the buffer that is not used.
pub record OutputFormat : Type 0 where
  pub print_all : Bool
  pub print_size : Bool
  pub print_mode : Bool
  pub print_time : Bool

-- `name[0] == '-'`
starts_option : Bytes → Bool
starts_option [] = false
starts_option (c ∷ cs) = c == b'-'

unfoldable pub check_dir : Bytes → Bytes
unfolding starts_option
check_dir name = if starts_option name || contains name (codes ".") then codes "." else name

unfoldable pub is_valid : Bytes → List Bytes → Bool
is_valid str [] = false
is_valid str (s ∷ input) = (contains s (codes ".") && str_eq s str) || is_valid str input

-- The tests of one argument.
abbrev set_format : Bytes → OutputFormat → OutputFormat
set_format s f = record {
  print_size = str_eq s (codes "-s") || f.print_size;
  print_mode = str_eq s (codes "-m") || f.print_mode;
  print_all = str_eq s (codes "-a") || f.print_all;
  print_time = str_eq s (codes "-t") || f.print_time;
}

unfoldable pub init_format : List Bytes → OutputFormat → OutputFormat
init_format [] f = f
init_format (s ∷ input) f = init_format input (set_format s f)

abbrev pub no_format : OutputFormat
no_format = record { print_all = false; print_size = false; print_mode = false; print_time = false }

-- The body of the loop for an entry.
look_at : List Bytes → OutputFormat → Bytes → Sys (Unit {0})
look_at argv format name =
    if is_valid name argv || format.print_all then act (stat name) else pure tt

-- `while ((entry = readdir(selected_directory)))`, by what `readdir` returned.
by_entry : List Bytes → OutputFormat → Answer → Sys (Round (Unit {0}))
unfolding look_at
by_entry argv format fail = pure (leave tt)
by_entry argv format (gives n name) = do look_at argv format name; pure (again tt)

unfoldable pub entry_round : List Bytes → OutputFormat → Unit {0} → Sys (Round (Unit {0}))
unfolding by_entry
entry_round argv format u = do entry ← ask readdir; by_entry argv format entry

unfoldable pub main : ℕ → List Bytes → Sys ℕ
main fuel argv = do
  give_up_if (ltb (length argv) 2) "Invalid ls format\n"
  name ← arg argv 1
  d ← ask (opendir (check_dir name))
  give_up_if (failed d) "Invalid directory\n"
  loop fuel (entry_round argv (init_format argv no_format)) tt
  act closedir
  pure exit_success
