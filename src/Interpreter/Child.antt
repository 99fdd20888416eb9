-- ===== src/Interpreter/Child.antt =====
-- Which program a child runs.
use osy_materials.Prelude.{ℕ, ◌≡◌, false, List, [], ◌∷◌, ltb, if◌then◌else◌, length, arith}
use osy_materials.Libc.Strings.{Bytes, codes, contains}
use osy_materials.Libc.Tokens.{words}
use osy_materials.Argv.{split_args-words, parse_args}
use osy_materials.Sys.{Answer, fail, gives, Call, execs, exits, crashes, stops, exit_failure, Stop}
use osy_materials.Interpreter.{handle_command, space, max_command_len}

-- How a child ends that has these words to run: they do not fit, there are none, or `execvp` runs them
-- or comes back.
abbrev pub child_end : List Bytes → Answer → Stop
child_end [] a = crashes
child_end (w ∷ ws) fail = exits exit_failure
child_end (w ∷ ws) (gives n xs) = execs (w ∷ ws)

-- A command without a '>' becomes the program of its words, separated by spaces; 100 words or more
-- overflow the array.
pub handle_command-plain :
    (stale command buffer xs ys : Bytes) (p : ℕ) (a : Answer) (answers : List Answer)
    (log : List Call)
    → contains command (codes ">") ≡ false
    → (handle_command stale command buffer
        (record { answers = gives p xs ∷ gives 0 ys ∷ a ∷ answers; log = log })).0
      ≡ stops (
          if ltb (length (words space command)) max_command_len
          then child_end (words space command) a
          else crashes)
unfolding handle_command parse_args
handle_command-plain stale command buffer xs ys p a answers log plain =
    rw plain (rw (split_args-words max_command_len space command) (ground arith))
