-- ===== src/Cat.antt =====
-- op_systems/cv1/cat2.cpp: printing files.
pub mod Printed
mod Tests
use osy_materials.Prelude.{
  ℕ, suc, ◌-◌, ℤ, pos, is_neg, Bool, List, [], ◌∷◌, ◌==◌, if◌then◌else◌, length, drop,
}
use osy_materials.Libc.Strings.{Bytes, c_str}
use osy_materials.Sys.{
  Answer, close, open_file, access, print_str, warn, exits, Sys, ◌>>=◌, ◌>>◌, pure, stop, act, ask,
  ask_int, failed, ask_read, store, give_up_if, bufsiz, exit_failure,
}
use osy_materials.Sys.Loop.{Round, again, leave, loop}

-- The buffer and the result of the last `read`.
pub record State : Type 0 where
  pub buffer : Bytes
  pub bytes_read : ℤ

next_read : ℤ → Bytes → Sys State
next_read fd buf = do
  f ← ask_read fd (bufsiz - 1) buf
  pure (record { buffer = f.buffer; bytes_read = f.bytes_read })

print_piece : ℤ → Bytes → ℕ → Sys (Round State)
unfolding next_read
print_piece fd buffer n = do
  buf ← store buffer n 0
  act (print_str "%s" (c_str buf))
  s ← next_read fd buf
  pure (again s)

unfoldable pub print_round : ℤ → State → Sys (Round State)
unfolding print_piece
print_round fd s = elim s.bytes_read [
  | pos (suc n) ↦ print_piece fd s.buffer (suc n)
  | _ ↦ pure (leave s)
]

-- A round of the loop over the files; the result is the buffer. `perror` is a message on the standard
-- error here, without the text that it adds.
unfoldable pub print_file : ℕ → Bytes → Bytes → Sys Bytes
unfolding next_read
print_file fuel file buf = do
  there ← ask (access file)
  give_up_if (failed there) "File doesnt exist\n"
  fd ← ask_int (open_file file)
  give_up_if (is_neg fd) "File could be opened\n"
  s₀ ← next_read fd buf
  s ← loop fuel (print_round fd) s₀
  act (close fd)
  pure s.buffer

unfoldable pub run_command : ℕ → List Bytes → Bytes → Sys Bytes
run_command fuel [] buf = pure buf
run_command fuel (file ∷ files) buf = do
  buf' ← print_file fuel file buf
  run_command fuel files buf'

-- `stack` is what the stack holds where the buffer of `run_command` lies.
unfoldable pub main : ℕ → Bytes → List Bytes → Sys (Unit {0})
main fuel stack argv = do
  give_up_if (length argv == 1) "Please specifify files\n"
  run_command fuel (drop 1 argv) stack
  stop (exits exit_failure)
