-- ===== src/ShellServer/Tests.antt =====
-- Runs of op_systems/shellInterpreter/server.cpp, and its theorems at concrete inputs.
use osy_materials.Prelude.{
  ◌≡◌, pos, List, [], ◌∷◌, length-replicate, replicate, arith, ltb, if◌then◌else◌, length,
}
use osy_materials.Libc.Strings.{Bytes, codes}
use osy_materials.Libc.Tokens.{words}
use osy_materials.Sys.{gives, wait, print, fork, crashes, returns, stops, bufsiz, bufsiz_room}
use osy_materials.Interpreter.Child.{child_end}
use osy_materials.ShellServer.{handle_command, interpret, command_len}
use osy_materials.Sys.Log.{payload}
use osy_materials.ShellServer.Session.{commands_answers, Serves}
use osy_materials.ShellServer.Children.{forked_answers, end_of, interpret-commands}
use osy_materials.ShellServer.Commands.{handle_command-words}

handle_command-words_example :
    ((handle_command
        (pos 4)
        (codes "ls -l")
        (record { answers = gives 0 [] ∷ gives 0 [] ∷ []; log = [] })).0
      ≡ stops (
          if ltb (length (words b' ' (codes "ls -l"))) command_len
          then child_end (words b' ' (codes "ls -l")) (gives 0 [])
          else crashes))
    × (handle_command (pos 4) (codes "ls -l") (record { answers = gives 8 [] ∷ []; log = [] }) ≡ (
      returns tt,
      record { answers = []; log = print "Child process ended\n" ∷ wait ∷ fork ∷ [] },
    ))
handle_command-words_example = handle_command-words (pos 4) (codes "ls -l") [] 7 (gives 0 []) [] []

abbrev commands : List Bytes
commands = codes "ls" ∷ codes "date" ∷ []

abbrev typed : Bytes
typed = codes "ls -l"

interpret-commands_example :
    Serves [] []
      (interpret 4
        (replicate bufsiz 0)
        (pos 4)
        (record { answers = commands_answers 7 commands []; log = [] }))
      (payload commands)
      (length commands)
    × ((interpret 3
          (replicate bufsiz 0)
          (pos 4)
          (record { answers = forked_answers 7 commands typed (gives 0 []) []; log = [] })).0
        ≡ stops (end_of typed (gives 0 [])))
interpret-commands_example =
    interpret-commands (pos 4) 7 3 b'l' (codes "s -l") (replicate bufsiz 0) commands (gives 0 []) []
      [] (omega arith) (length-replicate bufsiz 0)
      ((omega arith, omega (arith, bufsiz_room)), ((omega arith, omega (arith, bufsiz_room)), tt))
      (omega arith, omega (arith, bufsiz_room))
