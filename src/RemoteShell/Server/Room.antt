-- ===== src/RemoteShell/Server/Room.antt =====
-- The room for threads.
use osy_materials.Prelude.{
  ℕ, zero, suc, ap, refl, ◌∙◌, ◌+◌, ◌≤◌, ◌<◌, ◌≡◌, sym, ℤ, pos, negsuc, List, [], ◌∷◌, length, ltb,
  lt→ltb, ltb→lt, arith, Bool-cases, inl, inr,
}
use osy_materials.Libc.Strings.{Bytes}
use osy_materials.Libc.Numbers.{atoi}
use osy_materials.Sys.{
  Answer, fail, gives, Call, World, start, Sys, ◌>>=◌, ask, pthread_create, accept, print, crashes,
  returns, stops,
}
use osy_materials.Sys.Places.{threads, PlacesEnd, opening_answers, clients_answers}
use osy_materials.Sys.Loop.{Round, again, loop, Ensures, RoundEnd, loop_inv, loop_again, loop_stops}
use osy_materials.Sys.Progress.{continue-Ensures}
use osy_materials.RemoteShell.Server.{
  max_clients, new_server, by_accept, by_create, accept_client, main,
}

abbrev Inv : ℕ → World → Type 0
Inv n w = (n ≡ threads w.log) × (n ≤ max_clients)

-- The thread of a client that has its place.
by_create-Inv :
    (n : ℕ) (fd : ℤ) (answers : List Answer) (log : List Call)
    → n ≡ threads log
    → n < max_clients
    → let m : Sys (Round ℕ) = ask (pthread_create n fd) >>= by_create fd (n + 1) in
      let w : World = record { answers = answers; log = log } in
      Ensures (RoundEnd Inv (λ _ _. ⊥)) (PlacesEnd max_clients) (m w).0 (m w).1
unfolding by_create
by_create-Inv n fd [] log e l = omega arith
by_create-Inv n fd (fail ∷ answers) log e l = (omega arith, omega arith)
by_create-Inv n fd (gives m xs ∷ answers) log e l = (omega arith, omega arith)

by_accept-Inv :
    (n : ℕ) (fd : ℤ) (answers : List Answer) (log : List Call)
    → n ≡ threads log
    → n ≤ max_clients
    → let w : World = record { answers = answers; log = log } in
      Ensures
        (RoundEnd Inv (λ _ _. ⊥))
        (PlacesEnd max_clients)
        (by_accept n fd w).0
        (by_accept n fd w).1
unfolding by_accept
by_accept-Inv n (negsuc k) answers log e l = (omega arith, l)
by_accept-Inv n (pos fd) answers log e l = elim (Bool-cases (ltb n max_clients)) [
  | inl room ↦ rw room (by_create-Inv n (pos fd) answers _ (omega arith) (ltb→lt _ _ room))
  | inr full ↦ rw full (ground arith)
]

accept_client-Inv :
    (server : ℤ) (n : ℕ) (answers : List Answer) (log : List Call)
    → let w : World = record { answers = answers; log = log } in
      Inv n w
      → Ensures
          (RoundEnd Inv (λ _ _. ⊥))
          (PlacesEnd max_clients)
          (accept_client server n w).0
          (accept_client server n w).1
unfolding accept_client
accept_client-Inv server n [] log (e, l) = omega arith
accept_client-Inv server n (fail ∷ answers) log (e, l) =
    by_accept-Inv n (negsuc 0) answers _ (omega arith) l
accept_client-Inv server n (gives m xs ∷ answers) log (e, l) =
    by_accept-Inv n (pos m) answers _ (omega arith) l

new_server-threads :
    (ip : Bytes) (port : ℕ) (answers : List Answer)
    → length ip < 16
    → Ensures
        (λ _ w. threads w.log ≡ 0)
        (PlacesEnd max_clients)
        (new_server ip port (start answers)).0
        (new_server ip port (start answers)).1
unfolding new_server
new_server-threads ip port [] h = rw (lt→ltb (length ip) 16 h) (omega arith)
new_server-threads ip port (fail ∷ answers) h = rw (lt→ltb (length ip) 16 h) (omega arith)
new_server-threads ip port (gives n xs ∷ answers) h = rw (lt→ltb (length ip) 16 h) (ground arith)

main_bounded :
    (fuel : ℕ) (name ip port : Bytes) (answers : List Answer)
    → length ip < 16
    → Ensures
        (λ _ _. ⊥)
        (PlacesEnd max_clients)
        (main fuel (name ∷ ip ∷ port ∷ []) (start answers)).0
        (main fuel (name ∷ ip ∷ port ∷ []) (start answers)).1
unfolding main
main_bounded fuel name ip port answers h =
    let r = new_server ip (atoi port) (start answers) in
    continue-Ensures (λ _ w. threads w.log ≡ 0) (λ _ _. ⊥) (PlacesEnd max_clients)
      (λ server. loop fuel (accept_client server) 0) r.0 r.1
      (new_server-threads ip (atoi port) answers h)
      (λ server w k.
        loop_inv Inv (λ _ _. ⊥) (PlacesEnd max_clients) (accept_client server)
          (λ n w i. accept_client-Inv server n w.answers w.log i) (λ n w i. omega arith) fuel 0 w
          (sym k, omega arith))

accepted_log : ℤ → ℕ → ℕ → List Call → List Call
accepted_log server n fd log =
    pthread_create n (pos fd)
    ∷ print "Client was accepted\n"
    ∷ accept server
    ∷ print "Server is waiting for client\n"
    ∷ log

accept_client-room :
    (server : ℤ) (n fd : ℕ) (answers : List Answer) (log : List Call)
    → n < max_clients
    → accept_client server n (record { answers = gives fd [] ∷ gives 0 [] ∷ answers; log = log })
      ≡ (returns (again (n + 1)), record { answers = answers; log = accepted_log server n fd log })
unfolding accept_client by_accept by_create accepted_log
accept_client-room server n fd answers log h = rw (lt→ltb n max_clients h) refl

-- From `n` threads on, with one client more than there are places.
loop_full :
    (fuel : ℕ) (server : ℤ) (n fd : ℕ) (fds : List ℕ) (rest : List Answer) (log : List Call)
    → n + length fds ≡ max_clients
    → length fds < fuel
    → (loop fuel
        (accept_client server)
        n
        (record { answers = clients_answers (fd ∷ fds) rest; log = log })).0
      ≡ stops crashes
unfolding accept_client by_accept
loop_full zero server n fd fds rest log e h = absurd (omega arith)
loop_full (suc fuel) server n fd [] rest log e h =
    let ten : n ≡ max_clients = omega arith in
    rw ten (ap (λ r. r.0) (loop_stops fuel (accept_client server) refl))
loop_full (suc fuel) server n fd (g ∷ fds) rest log e h =
    ap (λ r. r.0)
      (loop_again fuel (accept_client server)
        (accept_client-room server n fd (clients_answers (g ∷ fds) rest) log (omega arith)))
    ∙ loop_full fuel server (n + 1) g fds rest (accepted_log server n fd log) (omega arith)
        (omega arith)

main_full :
    (rounds server : ℕ) (name ip port : Bytes) (clients : List ℕ) (rest : List Answer)
    → length ip < 16
    → length clients ≡ suc max_clients
    → max_clients < rounds
    → (main rounds
        (name ∷ ip ∷ port ∷ [])
        (start (opening_answers server (clients_answers clients rest)))).0
      ≡ stops crashes
unfolding main new_server
main_full rounds server name ip port [] rest h k l = absurd (omega arith)
main_full rounds server name ip port (fd ∷ fds) rest h k l =
    rw (lt→ltb (length ip) 16 h)
      (loop_full rounds (pos server) 0 fd fds rest _ (omega arith) (omega arith))

-- However the kernel answers, the server makes at most ten threads, failed attempts included, and
-- stores behind its array only when it has made ten. Nothing keeps an eleventh client out: if eleven
-- come and everything succeeds, the server does store behind the array. The address has to fit its
-- array of 16 bytes.
pub main-PlacesEnd :
    (fuel rounds server : ℕ) (name ip port : Bytes) (answers rest : List Answer) (clients : List ℕ)
    → length ip < 16
    → length clients ≡ suc max_clients
    → max_clients < rounds
    → let argv = name ∷ ip ∷ port ∷ [] in
      Ensures
        (λ _ _. ⊥)
        (PlacesEnd max_clients)
        (main fuel argv (start answers)).0
        (main fuel argv (start answers)).1
      × ((main rounds argv (start (opening_answers server (clients_answers clients rest)))).0
          ≡ stops crashes)
main-PlacesEnd fuel rounds server name ip port answers rest clients h k l = (
  main_bounded fuel name ip port answers h,
  main_full rounds server name ip port clients rest h k l,
)
