-- ===== src/Chat/Tests.antt =====
-- Runs of op_systems/telnet_com/server.cpp, and its theorems at concrete inputs.
use osy_materials.Prelude.{
  ℕ, zero, suc, ◌≡◌, ◌≤◌, pos, List, [], ◌∷◌, ◌++◌, length, refl, replicate, length-replicate,
  arith,
}
use osy_materials.Libc.Strings.{Bytes, codes}
use osy_materials.Sys.{
  Answer, gives, returns, stops, crashes, print, thread_exits, start, bufsiz, bufsiz_room,
}
use osy_materials.Sys.Places.{opening_answers, clients_answers}
use osy_materials.Sys.Log.{output, pieces_answers}
use osy_materials.Sys.Loop.{again, Ensures}
use osy_materials.Chat.{SockDesc, accept_round, handle_client, main}
use osy_materials.Chat.Session.{relayed, handle_client-relayed}
use osy_materials.Chat.Room.{RoomEnd, main-Room}

abbrev two_clients : SockDesc
two_clients = record { current_num = 2; fds = pos 4 ∷ pos 5 ∷ pos 0 ∷ []; current_active = pos 5 }

-- The second client comes while the first one speaks.
abbrev room : ℕ → SockDesc
room zero = record { current_num = 1; fds = two_clients.fds; current_active = pos 4 }
room (suc n) = two_clients

room-fits : (n : ℕ) → (room n).current_num ≤ length (room n).fds
room-fits zero = omega arith
room-fits (suc n) = omega arith

abbrev two_messages : List Bytes
two_messages = codes "hi" ∷ codes "you" ∷ []

handle_client-relayed_example :
    let r =
      handle_client 3
        (room 0)
        room
        (replicate bufsiz 0)
        (record { answers = pieces_answers two_messages []; log = [] }) in
    (r.0 ≡ stops thread_exits)
    × (output (pos 5) r ≡ [] ++ relayed (pos 5) (pos 4) room 0 two_messages)
handle_client-relayed_example =
    handle_client-relayed (pos 5) 3 (room 0) room (replicate bufsiz 0) two_messages [] room-fits
      ((omega arith, omega (arith, bufsiz_room)), ((omega arith, omega (arith, bufsiz_room)), tt))
      (omega arith) (length-replicate bufsiz 0)

-- The second message reaches the second client.
relayed_test : relayed (pos 5) (pos 4) room 0 two_messages ≡ codes "you"
relayed_test = refl

-- The start of the server, and four clients.
abbrev four_clients : List Answer
four_clients =
    gives 1 []
    ∷ gives 3 []
    ∷ gives 0 []
    ∷ gives 0 []
    ∷ gives 4 []
    ∷ gives 0 []
    ∷ gives 5 []
    ∷ gives 0 []
    ∷ gives 6 []
    ∷ gives 0 []
    ∷ gives 7 []
    ∷ []

main-Room_example :
    let argv = codes "server" ∷ codes "127.0.0.1" ∷ codes "80" ∷ [] in
    let crowded : SockDesc = record {
      current_num = 4;
      fds = two_clients.fds;
      current_active = pos 7;
    } in
    Ensures
      (λ _ _. ⊥)
      RoomEnd
      (main 9 two_clients.fds (pos 0) argv (start four_clients)).0
      (main 9 two_clients.fds (pos 0) argv (start four_clients)).1
    × ((main 5 two_clients.fds
          (pos 0)
          argv
          (start (opening_answers 3 (clients_answers (4 ∷ 5 ∷ 6 ∷ 7 ∷ []) [])))).0
        ≡ stops crashes)
    × (accept_round (pos 3) crowded (start []) ≡ (
      returns (again crowded),
      record { answers = []; log = print "Cannot accept more clients\n" ∷ [] },
    ))
main-Room_example =
    main-Room 9 5 3 two_clients.fds (pos 0) (codes "server") (codes "127.0.0.1") (codes "80")
      four_clients [] (4 ∷ 5 ∷ 6 ∷ 7 ∷ [])
      (record { current_num = 4; fds = two_clients.fds; current_active = pos 7 }) (start []) refl
      refl (omega arith) (omega arith)
