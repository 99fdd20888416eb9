-- ===== src/Web/Command.antt =====
-- The child of a request in op_systems/webServer.cpp: the command that it runs.
use osy_materials.Prelude.{ℕ, Option, none, some, List, [], ◌∷◌, ◌==◌, if◌then◌else◌}
use osy_materials.Libc.Strings.{Bytes}
use osy_materials.Libc.Tokens.{strtok}
use osy_materials.Argv.{parse_args}
use osy_materials.Sys.{
  close, dup2, print, print_str, warn, exits, Sys, ◌>>=◌, ◌>>◌, pure, stop, act, not_null, first,
  exec_argv, Ends, stdout_fd, exit_failure,
}

abbrev pub command_len : ℕ
command_len = 256

-- The string behind the first such byte: `strstr(s, "/") + 1`.
unfoldable pub behind : ℕ → Bytes → Option Bytes
behind d [] = none
behind d (c ∷ cs) = if c == d then some cs else behind d cs

-- printf("%s\n", command[index - 1]) for each word.
unfoldable pub show_words : List Bytes → Sys (Unit {0})
show_words [] = pure tt
show_words (t ∷ ts) = do act (print_str "%s\n" t); show_words ts

-- The child behind its loop over the words.
unfoldable pub run_words : Ends → List Bytes → Sys (Unit {0})
unfolding show_words
run_words ends argv = do
  show_words argv
  program ← first argv
  act (print_str "%s" program)
  act (dup2 ends.write_end stdout_fd)
  exec_argv argv
  act (warn "Executing failed\n")
  stop (exits exit_failure)

unfoldable pub warn_if_empty : Option (Bytes × Bytes) → Sys (Unit {0})
warn_if_empty none = act (print "Wroong\n\n")
warn_if_empty (some t) = pure tt

-- The child behind the directory. The words are printed while they are stored; where they overflow the
-- array, what was printed before is left out.
unfoldable pub run_command : Ends → Bytes → Sys (Unit {0})
unfolding run_words warn_if_empty
run_command ends command_type = do
  act (print_str "Command to execute: %s\n" command_type)
  warn_if_empty (strtok b'*' command_type)
  argv ← parse_args command_len b'*' command_type
  run_words ends argv

unfoldable pub run_child : Ends → Bytes → Sys (Unit {0})
unfolding behind run_command
run_child ends header = do
  act (close ends.read_end)
  method ← not_null (strtok b' ' header)
  act (print_str "Request: %s\n" method.0)
  path ← not_null (strtok b' ' method.1)
  act (print_str "Directory: %s\n" path.0)
  command_type ← not_null (behind b'/' path.0)
  run_command ends command_type
