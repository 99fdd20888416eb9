-- ===== src/Chat/Room.antt =====
-- The room for clients.
use osy_materials.Prelude.{
  ℕ, suc, ◌+◌, ◌≤◌, ◌<◌, ◌≡◌, refl, sym, lt→ltb, ℤ, pos, false, List, [], ◌∷◌, length, length-set,
  set, arith, ltb, Bool-cases, inl, inr, ◌∙◌,
}
use osy_materials.Libc.Strings.{Bytes}
use osy_materials.Sys.{
  Answer, fail, gives, Call, accept, print, World, Stop, exits, thread_exits, execs, crashes, waits,
  runs_on, start, Sys, ◌>>=◌, ◌>>◌, pure, ask, failed, pthread_create, returns, stops,
}
use osy_materials.Sys.Places.{opening_answers, clients_answers}
use osy_materials.Sys.Log.{accepts}
use osy_materials.Sys.Loop.{Round, again, loop, Ensures, RoundEnd, loop_inv}
use osy_materials.Sys.Progress.{continue-Ensures}
use osy_materials.Chat.{SockDesc, report_thread, accept_round, open_server, main}

-- At most four clients are accepted, and the fourth is one too many.
abbrev pub RoomEnd : Stop → World → Type 0
RoomEnd crashes w = accepts w.log ≡ 4
RoomEnd (exits n) w = accepts w.log ≤ 4
RoomEnd thread_exits w = ⊥
RoomEnd (execs argv) w = ⊥
RoomEnd waits w = accepts w.log ≤ 4
RoomEnd runs_on w = accepts w.log ≤ 3

abbrev Inv : SockDesc → World → Type 0
Inv s w = (s.current_num ≡ accepts w.log) × (s.current_num ≤ 3) × (length s.fds ≡ 3)

-- The end of a round, behind the stores.
abbrev start_thread : ℕ → ℤ → SockDesc → Sys (Round SockDesc)
start_thread i fd s = do r ← ask (pthread_create i fd); report_thread (failed r); pure (again s)

start_thread-Inv :
    (i : ℕ) (fd : ℤ) (s : SockDesc) (answers : List Answer) (log : List Call)
    → Inv s (record { answers = answers; log = log })
    → let w : World = record { answers = answers; log = log } in
      Ensures (RoundEnd Inv (λ _ _. ⊥)) RoomEnd (start_thread i fd s w).0 (start_thread i fd s w).1
unfolding report_thread
start_thread-Inv i fd s [] log (e, l, k) = omega arith
start_thread-Inv i fd s (fail ∷ answers) log (e, l, k) = (omega arith, omega arith, omega arith)
start_thread-Inv i fd s (gives n xs ∷ answers) log (e, l, k) =
    (omega arith, omega arith, omega arith)

accept_round-Inv :
    (server_fd : ℤ) (n : ℕ) (fds : List ℤ) (active : ℤ) (answers : List Answer) (log : List Call)
    → let s : SockDesc = record { current_num = n; fds = fds; current_active = active } in
      let w : World = record { answers = answers; log = log } in
      Inv s w
      → Ensures
          (RoundEnd Inv (λ _ _. ⊥))
          RoomEnd
          (accept_round server_fd s w).0
          (accept_round server_fd s w).1
unfolding accept_round
accept_round-Inv server_fd n fds active [] log (e, l, k) =
    let b : ltb 3 n ≡ false = ground arith in rw b (omega arith)
accept_round-Inv server_fd n fds active (fail ∷ answers) log (e, l, k) =
    let b : ltb 3 n ≡ false = ground arith in rw b (omega arith)
accept_round-Inv server_fd n fds active (gives fd xs ∷ answers) log (e, l, k) =
    let b : ltb 3 n ≡ false = ground arith in
    rw b (elim (Bool-cases (ltb n (length fds))) [
      | inl room ↦ rw room (
          start_thread-Inv n (pos fd)
            (record { current_num = n + 1; fds = set fds n (pos fd); current_active = pos fd })
            answers (print "Client is accepted\n" ∷ accept server_fd ∷ log)
            (omega arith, ground arith, length-set fds n (pos fd) ∙ k))
      | inr full ↦ rw full (ground arith)
    ])

-- The start calls no `accept`.
open_server-accepts :
    (name address port : Bytes) (answers : List Answer)
    → Ensures
        (λ _ w. accepts w.log ≡ 0)
        RoomEnd
        (open_server (name ∷ address ∷ port ∷ []) (start answers)).0
        (open_server (name ∷ address ∷ port ∷ []) (start answers)).1
unfolding open_server
open_server-accepts name address port [] = omega arith
open_server-accepts name address port (fail ∷ answers) = ground arith
open_server-accepts name address port (gives n xs ∷ answers) = ground arith

main-RoomEnd :
    (fuel : ℕ) (fds : List ℤ) (active : ℤ) (name address port : Bytes) (answers : List Answer)
    → length fds ≡ 3
    → Ensures
        (λ _ _. ⊥)
        RoomEnd
        (main fuel fds active (name ∷ address ∷ port ∷ []) (start answers)).0
        (main fuel fds active (name ∷ address ∷ port ∷ []) (start answers)).1
unfolding main
main-RoomEnd fuel fds active name address port answers h =
    let s : SockDesc = record { current_num = 0; fds = fds; current_active = active } in
    let r = open_server (name ∷ address ∷ port ∷ []) (start answers) in
    continue-Ensures (λ _ w. accepts w.log ≡ 0) (λ _ _. ⊥) RoomEnd
      (λ server_fd. loop fuel (accept_round server_fd) s) r.0 r.1
      (open_server-accepts name address port answers)
      (λ server_fd w k.
        loop_inv Inv (λ _ _. ⊥) RoomEnd (accept_round server_fd)
          (λ s w i.
            accept_round-Inv server_fd s.current_num s.fds s.current_active w.answers w.log i)
          (λ s w i. omega arith) fuel s w (sym k, omega arith, h))

-- Four clients for whom everything succeeds.
main_full :
    (rounds server : ℕ) (fds : List ℤ) (active : ℤ) (name address port : Bytes) (clients : List ℕ)
    (rest : List Answer)
    → length fds ≡ 3
    → length clients ≡ 4
    → 4 ≤ rounds
    → (main rounds fds active
        (name ∷ address ∷ port ∷ [])
        (start (opening_answers server (clients_answers clients rest)))).0
      ≡ stops crashes
unfolding main loop accept_round open_server
main_full (suc (suc (suc (suc rounds)))) server (x ∷ y ∷ z ∷ []) active name address port
      (a ∷ b ∷ c ∷ d ∷ []) rest h k l =
    refl
main_full _ server _ active name address port _ rest h k l = absurd (omega arith)

-- Whatever the kernel answers, the server calls `accept` at most four times, and it stores behind the
-- arrays of three only for the fourth client. Its test does not keep that client out: if four come and
-- everything succeeds, the server does store behind the arrays. With more than three clients in the
-- structure, a round refuses and goes on without a call of `accept`.
pub main-Room :
    (fuel rounds server : ℕ) (fds : List ℤ) (active : ℤ) (name address port : Bytes)
    (answers rest : List Answer) (clients : List ℕ) (s : SockDesc) (w : World)
    → length fds ≡ 3
    → length clients ≡ 4
    → 4 ≤ rounds
    → 3 < s.current_num
    → let argv = name ∷ address ∷ port ∷ [] in
      Ensures
        (λ _ _. ⊥)
        RoomEnd
        (main fuel fds active argv (start answers)).0
        (main fuel fds active argv (start answers)).1
      × ((main rounds fds active argv
            (start (opening_answers server (clients_answers clients rest)))).0
          ≡ stops crashes)
      × (accept_round (pos server) s w ≡ (
        returns (again s),
        record { answers = w.answers; log = print "Cannot accept more clients\n" ∷ w.log },
      ))
unfolding accept_round
main-Room fuel rounds server fds active name address port answers rest clients s w h k l m = (
  main-RoomEnd fuel fds active name address port answers h,
  main_full rounds server fds active name address port clients rest h k l,
  rw (lt→ltb 3 s.current_num m) refl,
)
