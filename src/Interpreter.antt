-- ===== src/Interpreter.antt =====
-- op_systems/shellInterpreter/interpreter.cpp: a shell with pipelines and output redirection.
pub mod Redirect
pub mod Child
pub mod Pipeline
mod Tests
use osy_materials.Prelude.{
  ℕ, zero, suc, ◌+◌, ◌-◌, ◌*◌, ℤ, pos, negsuc, Bool, true, false, Option, none, some, List, [], ◌∷◌,
  ◌++◌, ltb, ◌==◌, ◌≤◌, arith, if◌then◌else◌, length, replicate,
}
use osy_materials.Libc.Strings.{Bytes, codes, c_str, str_eq, contains, zero_fill}
use osy_materials.Libc.Tokens.{strtok}
use osy_materials.Argv.{parse_args}
use osy_materials.Sys.{
  Answer, fail, gives, read, write, close, dup2, open_file, pipe, fork, wait, print, print_str,
  print_errno, crashes, runs_on, exits, World, Sys, ◌>>=◌, ◌>>◌, pure, stop, act, ask, ask_int,
  failed, ask_read, store, ends_of, Ends, stdin_fd, stdout_fd, exec_argv, bufsiz, exit_success,
  exit_failure,
}
use osy_materials.Sys.Loop.{Round, again, leave, loop}

abbrev pub max_command_len : ℕ
max_command_len = 100

unfoldable pub piping_size : ℕ
piping_size = 1024 * 1024

pub piping_room : 256 ≤ piping_size
unfolding piping_size
piping_room = omega arith

-- `FILENAME`
abbrev pub filename_size : ℕ
filename_size = 500

abbrev pub space : ℕ
space = b' '

abbrev pub bar : ℕ
bar = b'|'

abbrev pub exit_error {ℓ} : {A : Type ℓ} → Sys A
exit_error = act print_errno >> stop (exits exit_failure)

abbrev exit_error_if : Bool → Sys (Unit {0})
exit_error_if bad = if bad then exit_error else pure tt

-- What the loop over a command with a '>' has stored in its two arrays; `none` is a write behind the
-- end of one of them.
pub record Redirection : Type 0 where
  pub shellcom : List Bytes
  pub filename : Option Bytes

-- `shellcom[counter] = NULL`
abbrev pub end_args : List Bytes → Option Bytes → Option Redirection
end_args args name =
    if ltb (length args) max_command_len
    then some (record { shellcom = args; filename = name })
    else none

-- `strcpy(filename, tkn)`, and the `break`.
abbrev pub name_file : List Bytes → Bytes → Option Redirection
name_file args t = if ltb (length t) filename_size then end_args args (some t) else none

-- The flag is `end`: the last token was ">".
scan_redirect : ℕ → Bytes → List Bytes → Bool → Option Redirection
scan_redirect zero s args end = none
scan_redirect (suc fuel) s args end = elim (strtok space s) [
  | none ↦ end_args args none
  | some (t, rest) ↦
      let marked = scan_redirect fuel rest args true in
      let stored = scan_redirect fuel rest (args ++ t ∷ []) false in
      if end
      then name_file args t
      else if str_eq t (codes ">")
      then marked
      else if ltb (length args) max_command_len
      then stored
      else none
]

unfoldable pub split_redirect : Bytes → Option Redirection
unfolding scan_redirect
split_redirect command = scan_redirect (suc (length command)) command [] false

-- Where no token follows ">", `filename` holds what the stack held.
abbrev pub file_of : Bytes → Option Bytes → Bytes
file_of stale none = c_str stale
file_of stale (some name) = name

abbrev pub or_crash : Option Redirection → Sys Redirection
or_crash none = stop crashes
or_crash (some r) = pure r

-- The child of `handle_command` for a command with a '>' anywhere.
run_redirected : Bytes → Ends → Bytes → Sys Bytes
run_redirected stale ends command = do
  act (close ends.write_end)
  r ← or_crash (split_redirect command)
  r_fd ← ask_int (open_file (file_of stale r.filename))
  act (dup2 r_fd stdout_fd)
  act (close r_fd)
  exec_argv r.shellcom
  stop (exits exit_failure)

run_plain : Ends → Bytes → Sys Bytes
run_plain ends command = do
  argv ← parse_args max_command_len space command
  act (dup2 ends.write_end stdout_fd)
  act (close ends.write_end)
  exec_argv argv
  stop (exits exit_failure)

child : Bytes → Ends → Bytes → Sys Bytes
unfolding run_redirected run_plain
child stale ends command = do
  act (close ends.read_end)
  if contains command (codes ">") then run_redirected stale ends command else run_plain ends command

-- `read(...) < 0`: the buffer is cleared.
take_output : ℤ → Bytes → Sys Bytes
take_output (pos n) buf = pure buf
take_output (negsuc n) buf = do
  act (print "Didnt read from pipe\n")
  pure (zero_fill (piping_size - 1) buf)

parent : Ends → Bytes → Sys Bytes
unfolding take_output
parent ends buffer = do
  act (close ends.write_end)
  f ← ask_read ends.read_end (piping_size - 1) buffer
  out ← take_output f.bytes_read f.buffer
  act wait
  act (close ends.read_end)
  act (print "Child exit\n")
  pure out

-- By the result of `fork`: -1, 0 in the child, its number in the parent.
abbrev pub by_fork {ℓ} : {A : Type ℓ} → Answer → Sys A → Sys A → Sys A
by_fork fail inside outside = exit_error
by_fork (gives zero xs) inside outside = inside
by_fork (gives (suc p) xs) inside outside = outside

-- The result is the buffer. `stale` is what the stack holds where `filename` lies.
unfoldable pub handle_command : Bytes → Bytes → Bytes → Sys Bytes
unfolding child parent
handle_command stale command buffer = do
  p ← ask pipe
  exit_error_if (failed p)
  pid ← ask fork
  by_fork pid (child stale (ends_of p) command) (parent (ends_of p) buffer)

read_child : Ends → Ends → Bytes → Sys Bytes
read_child p_to_c c_to_p command = do
  act (close p_to_c.write_end)
  act (close c_to_p.read_end)
  argv ← parse_args max_command_len space command
  act (dup2 p_to_c.read_end 0)
  act (dup2 c_to_p.write_end stdout_fd)
  act (close p_to_c.read_end)
  act (close c_to_p.write_end)
  exec_argv argv
  act (print "Could not execute\n")
  stop (exits exit_failure)

-- `read(...) < 0` ends the interpreter here.
need_output : ℤ → Bytes → Sys Bytes
need_output (pos n) buf = pure buf
need_output (negsuc n) buf = do act (print "Could not read\n"); exit_error

read_parent : Ends → Ends → Bytes → Sys Bytes
unfolding need_output
read_parent p_to_c c_to_p data' = do
  act (close p_to_c.read_end)
  act (close c_to_p.write_end)
  sent ← ask (write p_to_c.write_end (c_str data'))
  exit_error_if (failed sent)
  act (close p_to_c.write_end)
  f ← ask_read c_to_p.read_end (piping_size - 1) (zero_fill (piping_size - 1) data')
  out ← need_output f.bytes_read f.buffer
  act wait
  act (close c_to_p.read_end)
  act (print "Child from piping exited\n")
  pure out

unfoldable pub handle_command_read : Bytes → Bytes → Sys Bytes
unfolding read_child read_parent
handle_command_read command data' = do
  p ← ask pipe
  exit_error_if (failed p)
  q ← ask pipe
  exit_error_if (failed q)
  pid ← ask fork
  by_fork pid (read_child (ends_of p) (ends_of q) command)
      (read_parent (ends_of p) (ends_of q) data')

-- `stale` is what the stack holds where a child's `filename` lies.
run_stage : Bytes → ℕ → Bytes → Bytes → Sys Bytes
run_stage stale executed_count command output =
    if executed_count == 0
    then handle_command stale command output
    else handle_command_read command output

-- for (tkn = strtok(input, "|"); tkn; tkn = strtok(NULL, "|")): each round takes a byte of the input.
unfoldable pub run_stages : ℕ → Bytes → ℕ → Bytes → Bytes → Sys Bytes
unfolding run_stage
run_stages zero stale executed_count s output = stop runs_on
run_stages (suc fuel) stale executed_count s output = elim (strtok bar s) [
  | none ↦ pure output
  | some (tkn, rest) ↦ do
    output' ← run_stage stale executed_count tkn output
    run_stages fuel stale (executed_count + 1) rest output'
]

unfoldable pub interpret : Bytes → Bytes → Sys (Unit {0})
interpret stale input = do
  output ← run_stages (suc (length input)) stale 0 input (replicate piping_size 0)
  act (print_str "%s" (c_str output))

-- `buffer[read_no_bytes - 1] = '\0'`, with the result of `read` in a `size_t`: the index is far behind
-- the buffer for 0 and -1.
cut_line : ℤ → Bytes → Sys Bytes
cut_line (pos (suc n)) buf = store buf n 0
cut_line _ buf = stop crashes

-- `strtok` also writes NULs over the delimiters in the buffer; the next line is read over them.
interpret_line : Bytes → Bytes → Sys (Round Bytes)
interpret_line stale buf = do interpret stale (c_str buf); pure (again buf)

unfoldable pub line_round : Bytes → Bytes → Sys (Round Bytes)
unfolding cut_line interpret_line
line_round stale buffer = do
  act (write (pos stdout_fd) (codes "$ "))
  f ← ask_read stdin_fd (bufsiz - 1) buffer
  buf ← cut_line f.bytes_read f.buffer
  if str_eq (c_str buf) (codes "exit") then pure (leave buf) else interpret_line stale buf

-- `stack` is what the stack holds where `buffer` lies; so many lines are read.
unfoldable pub main : ℕ → Bytes → Bytes → Sys ℕ
main fuel stale stack = do buffer ← loop fuel (line_round stale) stack; pure exit_success
