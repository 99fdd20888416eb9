-- ===== src/RemoteShell/Tests.antt =====
-- Runs of op_systems/remoteShell, and its theorems at concrete inputs.
use osy_materials.Prelude.{
  ℕ, refl, ◌+◌, ◌-◌, ◌≤◌, ◌≡◌, pos, false, List, [], ◌∷◌, ◌++◌, length, length-replicate, replicate,
  arith,
}
use osy_materials.Libc.Strings.{Bytes, codes, c_str, c_str-HasNoNul, read_into}
use osy_materials.Libc.Tokens.{words}
use osy_materials.Sys.{
  crashes, Answer, gives, ends_of, print, print_str, read, write, fgets, returns, stops, start,
  bufsiz, bufsiz_room,
}
use osy_materials.Sys.Loop.{again, Ensures}
use osy_materials.Sys.Places.{PlacesEnd, opening_answers, clients_answers}
use osy_materials.Interpreter.Child.{child_end}
use osy_materials.RemoteShell.Server.{
  State, shell_round, run_child, handle_shell_client, max_clients, main,
}
use osy_materials.RemoteShell.Server.Command.{run_child-words}
use osy_materials.RemoteShell.Server.Pipe.{open_forks, handle_shell_client-AtMostOne}
use osy_materials.RemoteShell.Server.Room.{main-PlacesEnd}
use osy_materials.RemoteShell.Typed.{sent, shell_round-sent}
use osy_materials.RemoteShell.Client.{line_round}
use osy_materials.RemoteShell.Client.Lines.{shown, line_round-again}

abbrev pipe_answer : Answer
pipe_answer = gives 0 (6 ∷ 7 ∷ [])

run_child-words_example :
    (run_child (ends_of pipe_answer) (codes "ls -l") (start (gives 0 [] ∷ []))).0
    ≡ stops (child_end (words b' ' (codes "ls -l")) (gives 0 []))
run_child-words_example =
    run_child-words (ends_of pipe_answer) (codes "ls -l") (gives 0 []) [] []
      (omega (arith, bufsiz_room))

-- Two commands of a client, and the replies of their children.
abbrev two_commands : List Answer
two_commands =
    gives 9 []
    ∷ gives 1 (codes "x")
    ∷ gives 4 (codes "date")
    ∷ gives 9 []
    ∷ gives 0 []
    ∷ gives 0 []
    ∷ []

handle_shell_client-AtMostOne_example :
    Ensures
      (λ _ _. ⊥)
      (λ _ w. open_forks (ends_of pipe_answer).write_end w.log ≤ 1)
      (handle_shell_client 9
        (replicate (bufsiz + 1) 0)
        (pos 5)
        (start (gives 2 (codes "ls") ∷ pipe_answer ∷ two_commands))).0
      (handle_shell_client 9
        (replicate (bufsiz + 1) 0)
        (pos 5)
        (start (gives 2 (codes "ls") ∷ pipe_answer ∷ two_commands))).1
handle_shell_client-AtMostOne_example =
    handle_shell_client-AtMostOne 9 (replicate (bufsiz + 1) 0) (pos 5) (gives 2 (codes "ls"))
      pipe_answer two_commands

abbrev one_client : List Answer
one_client = gives 1 [] ∷ gives 3 [] ∷ gives 0 [] ∷ gives 0 [] ∷ gives 4 [] ∷ gives 0 [] ∷ []

abbrev eleven : List ℕ
eleven = 4 ∷ 5 ∷ 6 ∷ 7 ∷ 8 ∷ 9 ∷ 10 ∷ 11 ∷ 12 ∷ 13 ∷ 14 ∷ []

main-PlacesEnd_example :
    let argv = codes "server" ∷ codes "127.0.0.1" ∷ codes "80" ∷ [] in
    Ensures
      (λ _ _. ⊥)
      (PlacesEnd max_clients)
      (main 9 argv (start one_client)).0
      (main 9 argv (start one_client)).1
    × ((main 12 argv (start (opening_answers 3 (clients_answers eleven [])))).0 ≡ stops crashes)
main-PlacesEnd_example =
    main-PlacesEnd 9 12 3 (codes "server") (codes "127.0.0.1") (codes "80") one_client [] eleven
      (omega arith) refl (omega arith)

line_round-again_example :
    (buf' : Bytes) × (line_round false
        (pos 3)
        (pos 4)
        (replicate bufsiz 0)
        (start (gives 5 (codes "exit" ++ b'\n' ∷ []) ∷ gives 2 (codes "ok") ∷ []))
      ≡ (
        returns (again buf'),
        record {
          answers = [];
          log =
              print "Done writing\n"
              ∷ shown false (pos 4) (c_str (codes "ok"))
              ∷ read (pos 3) (bufsiz - 1)
              ∷ write (pos 3) (codes "exit")
              ∷ print_str "read: %s\n" (codes "exit")
              ∷ fgets (bufsiz - 1)
              ∷ [];
        },
      ))
    × (length buf' ≡ bufsiz)
line_round-again_example =
    line_round-again false (pos 3) (pos 4) 5 2 (replicate bufsiz 0) (codes "exit") (codes "ok") []
      [] (omega arith, (omega arith, (omega arith, (omega arith, tt)))) (omega (arith, bufsiz_room))
      (omega (arith, bufsiz_room)) (length-replicate bufsiz 0)

shell_round-sent_example :
    let message = sent (pos 3) (pos 4) (replicate bufsiz 0) (codes "ls -l") (codes "ok") in
    let s : State = record {
      buffer = read_into (replicate (bufsiz + 1) 0) message;
      read_bytes = pos (length message);
    } in
    (shell_round (pos 5) (ends_of pipe_answer) s (start (gives 0 [] ∷ gives 0 [] ∷ []))).0
    ≡ stops (child_end (words b' ' (codes "ls -l")) (gives 0 []))
shell_round-sent_example =
    shell_round-sent (pos 3) (pos 4) (pos 5) (ends_of pipe_answer) (replicate bufsiz 0)
      (codes "ls -l") (codes "ok") (replicate (bufsiz + 1) 0) [] (gives 0 []) [] [] (omega arith)
      (c_str-HasNoNul (codes "ls -l")) (λ e. cc) (omega (arith, bufsiz_room))
      (omega (arith, bufsiz_room)) (length-replicate bufsiz 0) (length-replicate (bufsiz + 1) 0)
