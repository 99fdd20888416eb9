-- ===== src/Web/Room.antt =====
-- The room for threads.
use osy_materials.Prelude.{
  ℕ, zero, suc, ◌+◌, ◌∙◌, ◌++◌, false, length, lt→ltb, ◌≤◌, ◌<◌, ◌≡◌, refl, ℤ, pos, true, List, [],
  ◌∷◌, ltb, ltb→lt, arith, Bool-cases, inl, inr,
}
use osy_materials.Libc.Strings.{Bytes}
use osy_materials.Libc.Numbers.{atoi}
use osy_materials.Sys.{
  Answer, fail, gives, Call, World, Stop, start, accept, print, print_int, bind, listen, socket,
  inet_pton, af_inet, htons, pthread_create, crashes, exits, exit_failure, returns, stops,
}
use osy_materials.Sys.Places.{threads, PlacesEnd, opening_answers, clients_answers}
use osy_materials.Sys.Loop.{again, loop, Ensures, RoundEnd, loop_inv, loop_again, loop_stops}
use osy_materials.Sys.Progress.{continue-Ensures}
use osy_materials.Web.{
  Server, Clients, create_server, open_socket, start_thread, accept_client, accept_round,
  start_server, max_cons, main,
}

abbrev pub RoomEnd : Stop → World → Type 0
RoomEnd = PlacesEnd max_cons

abbrev Inv : Clients → World → Type 0
Inv s w = (s.no_clients ≡ threads w.log) × (s.no_clients ≤ max_cons)

start_thread-Inv :
    (fd : ℤ) (n : ℕ) (fds : List ℤ) (answers : List Answer) (log : List Call)
    → n ≡ threads log
    → n < max_cons
    → let w : World = record { answers = answers; log = log } in
      let s : Clients = record { no_clients = n; clients = fds } in
      Ensures (RoundEnd Inv (λ _ _. ⊥)) RoomEnd (start_thread fd s w).0 (start_thread fd s w).1
unfolding start_thread
start_thread-Inv fd n fds [] log e l = omega arith
start_thread-Inv fd n fds (fail ∷ answers) log e l = omega arith
start_thread-Inv fd n fds (gives m xs ∷ answers) log e l = (omega arith, omega arith)

accept_client-Inv :
    (sock_fd : ℤ) (n : ℕ) (fds : List ℤ) (answers : List Answer) (log : List Call)
    → n ≡ threads log
    → n ≤ max_cons
    → let w : World = record { answers = answers; log = log } in
      let s : Clients = record { no_clients = n; clients = fds } in
      Ensures
        (RoundEnd Inv (λ _ _. ⊥))
        RoomEnd
        (accept_client sock_fd s w).0
        (accept_client sock_fd s w).1
unfolding accept_client
accept_client-Inv sock_fd n fds [] log e l = omega arith
accept_client-Inv sock_fd n fds (fail ∷ answers) log e l = omega arith
accept_client-Inv sock_fd n fds (gives m xs ∷ answers) log e l =
    elim (Bool-cases (ltb n max_cons)) [
      | inl room ↦
          rw room (start_thread-Inv (pos m) n fds answers _ (omega arith) (ltb→lt _ _ room))
      | inr full ↦ rw full (ground arith)
    ]

accept_round-Inv :
    (server : Server) (s : Clients) (answers : List Answer) (log : List Call)
    → server.running ≡ true
    → let w : World = record { answers = answers; log = log } in
      Inv s w
      → Ensures
          (RoundEnd Inv (λ _ _. ⊥))
          RoomEnd
          (accept_round server s w).0
          (accept_round server s w).1
unfolding accept_round
accept_round-Inv server s answers log r (e, l) = elim (Bool-cases (ltb max_cons s.no_clients)) [
  | inl full ↦ absurd (omega (arith, ltb→lt _ _ full))
  | inr room ↦
      rw r (rw room (accept_client-Inv server.sock_fd s.no_clients s.clients answers log e l))
]

-- What the server is made with.
abbrev Fresh : Server → World → Type 0
Fresh server w = (server.running ≡ true) × (server.no_clients ≡ 0) × (threads w.log ≡ 0)

create_server-Fresh :
    (address : Bytes) (port : ℕ) (answers : List Answer)
    → Ensures Fresh RoomEnd
        (create_server address port (start answers)).0
        (create_server address port (start answers)).1
unfolding create_server
create_server-Fresh address port [] = omega arith
create_server-Fresh address port (fail ∷ answers) = omega arith
create_server-Fresh address port (gives n xs ∷ []) = omega arith
create_server-Fresh address port (gives n xs ∷ fail ∷ answers) = omega arith
create_server-Fresh address port (gives n xs ∷ gives m ys ∷ answers) = (refl, refl, refl)

open_socket-threads :
    (server : Server) (answers : List Answer) (log : List Call)
    → threads log ≡ 0
    → let w : World = record { answers = answers; log = log } in
      Ensures (λ _ w. threads w.log ≡ 0) RoomEnd (open_socket server w).0 (open_socket server w).1
unfolding open_socket
open_socket-threads server [] log h = omega arith
open_socket-threads server (fail ∷ answers) log h = omega arith
open_socket-threads server (gives n xs ∷ []) log h = omega arith
open_socket-threads server (gives n xs ∷ fail ∷ answers) log h = omega arith
open_socket-threads server (gives n xs ∷ gives m ys ∷ answers) log h = omega arith

start_server-PlacesEnd :
    (fuel : ℕ) (server : Server) (w : World)
    → Fresh server w
    → Ensures (λ _ _. ⊥) RoomEnd (start_server fuel server w).0 (start_server fuel server w).1
unfolding start_server
start_server-PlacesEnd fuel server w (running, none_yet, fresh) =
    continue-Ensures (λ _ w. threads w.log ≡ 0) (λ _ _. ⊥) RoomEnd _ (open_socket server w).0
      (open_socket server w).1 (open_socket-threads server w.answers w.log fresh)
      (λ _ v h.
        let s : Clients = record { no_clients = server.no_clients; clients = [] } in
        let r = loop fuel (accept_round server) s v in
        continue-Ensures (λ _ _. ⊥) (λ _ _. ⊥) RoomEnd _ r.0 r.1
          (loop_inv Inv (λ _ _. ⊥) RoomEnd (accept_round server)
            (λ s w i. accept_round-Inv server s w.answers w.log running i) (λ s w i. omega arith)
            fuel s v (omega arith, omega arith))
          (λ s w e. absurd e))

main_bounded :
    (fuel : ℕ) (name address port : Bytes) (answers : List Answer)
    → let r = main fuel (name ∷ address ∷ port ∷ []) (start answers) in
      Ensures (λ _ _. ⊥) RoomEnd r.0 r.1
unfolding main
main_bounded fuel name address port answers =
    let r = create_server address (atoi port) (start answers) in
    continue-Ensures Fresh (λ _ _. ⊥) RoomEnd _ r.0 r.1
      (create_server-Fresh address (atoi port) answers)
      (λ server w h.
        let s = start_server fuel server w in
        continue-Ensures (λ _ _. ⊥) (λ _ _. ⊥) RoomEnd _ s.0 s.1
          (start_server-PlacesEnd fuel server w h) (λ _ v e. absurd e))

accepted_log : ℤ → ℕ → ℕ → List Call → List Call
accepted_log sock_fd n fd log =
    pthread_create n (pos fd) ∷ print "Client was accepted\n\n" ∷ accept sock_fd ∷ log

accept_round-room :
    (server : Server) (n fd : ℕ) (fds : List ℤ) (answers : List Answer) (log : List Call)
    → server.running ≡ true
    → n < max_cons
    → accept_round server
        (record { no_clients = n; clients = fds })
        (record { answers = gives fd [] ∷ gives 0 [] ∷ answers; log = log })
      ≡ (
        returns (again (record { no_clients = n + 1; clients = fds ++ pos fd ∷ [] })),
        record { answers = answers; log = accepted_log server.sock_fd n fd log },
      )
unfolding accept_round accept_client start_thread accepted_log
accept_round-room server n fd fds answers log r h =
    let few : ltb max_cons n ≡ false = ground arith in rw r (rw few (rw (lt→ltb n max_cons h) refl))

accept_round-full :
    (server : Server) (fd : ℕ) (fds : List ℤ) (answers : List Answer) (log : List Call)
    → server.running ≡ true
    → accept_round server
        (record { no_clients = max_cons; clients = fds })
        (record { answers = gives fd [] ∷ answers; log = log })
      ≡ (
        stops crashes,
        record {
          answers = answers;
          log = print "Client was accepted\n\n" ∷ accept server.sock_fd ∷ log;
        },
      )
unfolding accept_round accept_client
accept_round-full server fd fds answers log r = rw r refl

-- From `n` threads on, with one client more than there are places.
loop_full :
    (fuel : ℕ) (server : Server) (n fd : ℕ) (held : List ℤ) (fds : List ℕ) (rest : List Answer)
    (log : List Call)
    → server.running ≡ true
    → n + length fds ≡ max_cons
    → length fds < fuel
    → (w : World) × (loop fuel
          (accept_round server)
          (record { no_clients = n; clients = held })
          (record { answers = clients_answers (fd ∷ fds) rest; log = log })
        ≡ (stops crashes, w))
loop_full zero server n fd held fds rest log r e h = absurd (omega arith)
loop_full (suc fuel) server n fd held [] rest log r e h =
    let ten : n ≡ max_cons = omega arith in
    (
      record {
        answers = gives 0 [] ∷ rest;
        log = print "Client was accepted\n\n" ∷ accept server.sock_fd ∷ log;
      },
      rw ten (
          loop_stops fuel (accept_round server)
            (accept_round-full server fd held (gives 0 [] ∷ rest) log r)),
    )
loop_full (suc fuel) server n fd held (g ∷ fds) rest log r e h =
    let (w, run) =
      loop_full fuel server (n + 1) g (held ++ pos fd ∷ []) fds rest
        (accepted_log server.sock_fd n fd log) r (omega arith) (omega arith) in
    (
      w,
      loop_again fuel (accept_round server) (
            accept_round-room server n fd held (clients_answers (g ∷ fds) rest) log r (omega arith))
          ∙ run,
    )

start_server_full :
    (rounds : ℕ) (server : Server) (fd : ℕ) (fds : List ℕ) (rest : List Answer) (log : List Call)
    → server.running ≡ true
    → server.no_clients + length fds ≡ max_cons
    → length fds < rounds
    → (w : World) × (start_server rounds server (record {
      answers = gives 0 [] ∷ gives 0 [] ∷ clients_answers (fd ∷ fds) rest;
      log = log;
    })
        ≡ (stops crashes, w))
unfolding start_server open_socket
start_server_full rounds server fd fds rest log r e h =
    let (w, run) =
      loop_full rounds server server.no_clients fd [] fds rest
        (print_int "Web server is listening on port: %d\n" server.port
          ∷ listen server.sock_fd max_cons
          ∷ bind server.sock_fd server.address
          ∷ log)
        r e h in
    (w, rw run refl)

main_full :
    (rounds sock : ℕ) (name address port : Bytes) (clients : List ℕ) (rest : List Answer)
    → length clients ≡ suc max_cons
    → max_cons < rounds
    → (main rounds
        (name ∷ address ∷ port ∷ [])
        (start (opening_answers sock (clients_answers clients rest)))).0
      ≡ stops crashes
unfolding main create_server
main_full rounds sock name address port [] rest k l = absurd (omega arith)
main_full rounds sock name address port (fd ∷ fds) rest k l =
    let server : Server = record {
      sock_fd = pos sock;
      address = record { sin_family = af_inet; sin_port = htons (atoi port); sin_addr = address };
      port = atoi port;
      running = true;
      no_clients = 0;
    } in
    let (w, run) =
      start_server_full rounds server fd fds rest (socket ∷ inet_pton address ∷ []) refl
        (omega arith) (omega arith) in
    rw run refl

-- However the kernel answers, the server makes at most ten threads, and it stores behind its array
-- only when it has made ten. Its test lets an eleventh client in: if eleven come and everything
-- succeeds, the server does store behind the array. With more than ten clients it would print and exit
-- with `EXIT_FAILURE` before the `accept`.
pub main-RoomEnd :
    (fuel rounds sock : ℕ) (name address port : Bytes) (answers rest : List Answer)
    (clients : List ℕ) (server : Server) (s : Clients) (w : World)
    → length clients ≡ suc max_cons
    → max_cons < rounds
    → server.running ≡ true
    → max_cons < s.no_clients
    → let argv = name ∷ address ∷ port ∷ [] in
      Ensures
        (λ _ _. ⊥)
        RoomEnd
        (main fuel argv (start answers)).0
        (main fuel argv (start answers)).1
      × ((main rounds argv (start (opening_answers sock (clients_answers clients rest)))).0
          ≡ stops crashes)
      × (accept_round server s w ≡ (
        stops (exits exit_failure),
        record { answers = w.answers; log = print "Could not acept more clients\n\n" ∷ w.log },
      ))
unfolding accept_round
main-RoomEnd fuel rounds sock name address port answers rest clients server s w k l r m = (
  main_bounded fuel name address port answers,
  main_full rounds sock name address port clients rest k l,
  rw r (rw (lt→ltb max_cons s.no_clients m) refl),
)
