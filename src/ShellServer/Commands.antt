-- ===== src/ShellServer/Commands.antt =====
-- What the two processes behind `fork` do with a command.
use osy_materials.Prelude.{ℕ, suc, ◌≡◌, refl, ℤ, List, ◌∷◌, ltb, if◌then◌else◌, length, arith}
use osy_materials.Libc.Strings.{Bytes}
use osy_materials.Libc.Tokens.{words}
use osy_materials.Argv.{split_args-words, parse_args}
use osy_materials.Sys.{Answer, gives, Call, wait, print, fork, crashes, returns, stops}
use osy_materials.Interpreter.Child.{child_end}
use osy_materials.ShellServer.{handle_command, command_len}

-- In the child a command becomes the program of its words, separated by spaces; 100 words or more
-- overflow the array. In the parent it costs one `wait`, and the parent goes on.
pub handle_command-words :
    (client_fd : ℤ) (command xs : Bytes) (pid : ℕ) (a : Answer) (answers : List Answer)
    (log : List Call)
    → ((handle_command client_fd command
          (record { answers = gives 0 xs ∷ a ∷ answers; log = log })).0
        ≡ stops (
            if ltb (length (words b' ' command)) command_len
            then child_end (words b' ' command) a
            else crashes))
      × (handle_command client_fd command
            (record { answers = gives (suc pid) xs ∷ answers; log = log })
          ≡ (
            returns tt,
            record { answers = answers; log = print "Child process ended\n" ∷ wait ∷ fork ∷ log },
          ))
unfolding handle_command parse_args
handle_command-words client_fd command xs pid a answers log =
    (rw (split_args-words command_len b' ' command) (ground arith), refl)
