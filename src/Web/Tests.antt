-- ===== src/Web/Tests.antt =====
-- Runs of op_systems/webServer.cpp, and its theorems at concrete inputs.
use osy_materials.Prelude.{
  ℕ, true, ◌<◌, length, All, ap, ◌≡◌, refl, Option, some, List, [], ◌∷◌, ◌++◌, replicate,
  length-replicate, ◌-◌, pos, arith,
}
use osy_materials.Libc.Strings.{Bytes, codes, c_str, c_str-terminated, c_str-HasNoNul}
use osy_materials.Libc.Tokens.{words}
use osy_materials.Sys.{
  Answer, gives, ends_of, stops, thread_exits, start, bufsiz, bufsiz_room, returns, close, wait,
  crashes, exits, exit_failure, af_inet, write, print, read, fork, print_str, pipe, gethostname,
}
use osy_materials.Sys.Loop.{Ensures}
use osy_materials.Interpreter.Child.{child_end}
use osy_materials.Web.Command.{run_child}
use osy_materials.Web.{Server, Clients, accept_round, handle_request, handle_client, main}
use osy_materials.Sys.Places.{opening_answers, clients_answers}
use osy_materials.Web.Request.{run_child-command}
use osy_materials.Web.Answered.{handle_request_lem}
use osy_materials.Web.Responses.{Responses}
use osy_materials.Web.Session.{Request, item, reply, IsAnswered, handle_client-replies}
use osy_materials.Sys.Log.{output}
use osy_materials.Sys.Pieces.{item_answers, outputs}
use osy_materials.Web.Room.{RoomEnd, main-RoomEnd}

abbrev pipe_answer : Answer
pipe_answer = gives 0 (6 ∷ 7 ∷ [])

-- GET /ls*-l HTTP/1.1
run_child-command_example :
    (run_child
      (ends_of pipe_answer)
      (codes "GET" ++ b' ' ∷ (([] ++ b'/' ∷ codes "ls*-l") ++ b' ' ∷ codes "HTTP/1.1"))
      (start (gives 0 [] ∷ []))).0
    ≡ stops (child_end (words b'*' (codes "ls*-l")) (gives 0 []))
run_child-command_example =
    run_child-command (ends_of pipe_answer) (codes "GET") [] (codes "ls*-l") (codes "HTTP/1.1")
      (gives 0 []) [] [] (λ e. cc, (refl, (refl, (refl, tt)))) (λ e. cc, ground arith) tt
      (omega arith)

-- What a careful `sprintf` leaves.
abbrev careful : Bytes → Bytes → Option Bytes
careful host output = some (codes "HTTP/1.1 200 OK " ++ host ++ c_str output)

-- A request whose command lists a file, and the end of the connection.
abbrev one_request : List Answer
one_request =
    gives 9 (codes "GET /ls" ++ b'\n' ∷ [])
    ∷ gives 0 (codes "host")
    ∷ pipe_answer
    ∷ gives 44 []
    ∷ gives 5 (codes "a.txt")
    ∷ gives 0 []
    ∷ []

abbrev one_client : List Answer
one_client = gives 1 [] ∷ gives 3 [] ∷ gives 0 [] ∷ gives 0 [] ∷ gives 4 [] ∷ gives 0 [] ∷ []

abbrev eleven : List ℕ
eleven = 4 ∷ 5 ∷ 6 ∷ 7 ∷ 8 ∷ 9 ∷ 10 ∷ 11 ∷ 12 ∷ 13 ∷ 14 ∷ []

abbrev web_server : Server
web_server = record {
  sock_fd = pos 3;
  address = record { sin_family = af_inet; sin_port = 80; sin_addr = codes "127.0.0.1" };
  port = 80;
  running = true;
  no_clients = 0;
}

abbrev crowd : Clients
crowd = record { no_clients = 11; clients = [] }

main-RoomEnd_example :
    let argv = codes "web" ∷ codes "127.0.0.1" ∷ codes "80" ∷ [] in
    Ensures (λ _ _. ⊥) RoomEnd (main 9 argv (start one_client)).0 (main 9 argv (start one_client)).1
    × ((main 12 argv (start (opening_answers 3 (clients_answers eleven [])))).0 ≡ stops crashes)
    × (accept_round web_server crowd (start []) ≡ (
      stops (exits exit_failure),
      record { answers = []; log = print "Could not acept more clients\n\n" ∷ [] },
    ))
main-RoomEnd_example =
    main-RoomEnd 9 12 3 (codes "web") (codes "127.0.0.1") (codes "80") one_client [] eleven
      web_server crowd (start []) refl (omega arith) refl (omega arith)

handle_request_lem_example :
    handle_request careful
      (replicate bufsiz 0)
      (pos 5)
      (codes "GET /ls" ++ b'\n' ∷ [])
      (start (gives 0 (codes "host") ∷ pipe_answer ∷ gives 44 [] ∷ gives 5 (codes "a.txt") ∷ []))
    ≡ (
      returns tt,
      record {
        answers = [];
        log =
            close (pos 6)
            ∷ wait
            ∷ write (pos 5) (codes "HTTP/1.1 200 OK hosta.txt")
            ∷ print "Response sent\n\n"
            ∷ read (pos 6) (bufsiz - 1)
            ∷ close (pos 7)
            ∷ fork
            ∷ print_str "%s\n" (codes "GET /ls")
            ∷ pipe
            ∷ gethostname
            ∷ [];
      },
    )
handle_request_lem_example =
    handle_request_lem careful (replicate bufsiz 0) (pos 5) (codes "GET /ls") [] (codes "host")
      (codes "a.txt") (codes "HTTP/1.1 200 OK hosta.txt") (6 ∷ 7 ∷ []) [] 0 0 43 5 [] []
      (λ e. cc, ground arith) (omega (arith, bufsiz_room)) (length-replicate bufsiz 0)
      (ap (λ t. some (codes "HTTP/1.1 200 OK host" ++ t))
        (c_str-terminated (replicate bufsiz 0) (codes "a.txt")
          (omega (arith, bufsiz_room, length-replicate {A = ℕ} bufsiz 0))))

-- Two requests on one connection.
abbrev two_requests : List Request
two_requests =
    record {
      line = codes "GET /ls";
      rest = codes "Host: a";
      host = codes "host";
      out = codes "a.txt";
      response = codes "HTTP/1.1 200 OK hosta.txt";
      ends = 6 ∷ 7 ∷ [];
      child = 43;
    }
    ∷ record {
      line = codes "GET /who";
      rest = [];
      host = codes "host";
      out = [];
      response = codes "HTTP/1.1 200 OK host";
      ends = 6 ∷ 7 ∷ [];
      child = 44;
    }
    ∷ []

zeros-room : (xs : Bytes) → length xs < 256 → length xs < length {A = ℕ} (replicate bufsiz 0)
zeros-room xs h = omega (arith, bufsiz_room, length-replicate {A = ℕ} bufsiz 0, h)

two_requests-IsAnswered :
    All (IsAnswered careful (replicate bufsiz 0) (length-replicate bufsiz 0)) two_requests
two_requests-IsAnswered = (
  (
    (λ e. cc, ground arith),
    c_str-HasNoNul (codes "GET /ls" ++ b'\n' ∷ codes "Host: a"),
    omega (arith, bufsiz_room),
    omega (arith, bufsiz_room),
    ap (λ t. some (codes "HTTP/1.1 200 OK host" ++ t))
        (c_str-terminated (replicate bufsiz 0) (codes "a.txt")
          (zeros-room (codes "a.txt") (omega arith))),
  ),
  (
    (
      (λ e. cc, ground arith),
      c_str-HasNoNul (codes "GET /who" ++ b'\n' ∷ []),
      omega (arith, bufsiz_room),
      omega (arith, bufsiz_room),
      ap (λ t. some (codes "HTTP/1.1 200 OK host" ++ t))
          (c_str-terminated (replicate bufsiz 0) [] (zeros-room [] (omega arith))),
    ),
    tt,
  ),
)

handle_client-replies_example :
    let r =
      handle_client careful
        (replicate bufsiz 0)
        3
        (pos 5)
        (record { answers = item_answers item two_requests []; log = [] }) in
    (r.0 ≡ stops thread_exits) × (output (pos 5) r ≡ outputs reply two_requests)
handle_client-replies_example =
    handle_client-replies careful (replicate bufsiz 0) (length-replicate bufsiz 0) (pos 5) 3
      two_requests two_requests-IsAnswered (omega arith)
