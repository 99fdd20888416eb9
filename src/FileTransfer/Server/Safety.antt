-- ===== src/FileTransfer/Server/Safety.antt =====
-- The server stays inside its buffer, and each of its loops waits for the kernel in every round.
use osy_materials.Prelude.{
  ℕ, zero, suc, ◌-◌, ◌≤◌, ◌<◌, ◌≡◌, refl, ◌∙◌, ℤ, pos, negsuc, minus_one, List, [], ◌∷◌, length,
  length-take, length-set, set, take, arith, ◌⊎◌, inl, inr, lt→ltb, suc_eq_zero,
}
use osy_materials.Libc.Strings.{Bytes, codes, length-read_into}
use osy_materials.Sys.{
  Answer, fail, gives, World, Call, Stop, exits, waits, bufsiz, bufsiz_pos, read, open_file, print,
  accept, int_of, start, exit_failure, Outcome, fetched,
}
use osy_materials.Sys.Loop.{Round, loop, Ensures, RoundEnd}
use osy_materials.Sys.Progress.{
  left, Keeps, Progress, GoesOn, loop-Keeps, loop-GoesOn, continue-Ensures, Ensures-mono,
}
use osy_materials.FileTransfer.Server.{
  State, session_round, serve_client, disconnect, open_server, main,
}
use osy_materials.FileTransfer.Server.Saved.{check_len-accepts}

-- The result of the last `read` leaves room for the NUL.
abbrev pub Fits : ℤ → Type 0
Fits (pos n) = n < bufsiz
Fits (negsuc n) = Unit

abbrev pub IsWaiting : Stop → Type 0
IsWaiting e = e ≡ waits

abbrev pub IsValid : State → Type 0
IsValid s = (length s.input_buffer ≡ bufsiz) × Fits s.bytes_read

fetched-IsValid :
    (init : ℕ) (buf : Bytes) (a : Answer)
    → length buf ≡ bufsiz
    → IsValid (record {
      input_buffer = (fetched (bufsiz - 1) buf a).buffer;
      init = init;
      bytes_read = (fetched (bufsiz - 1) buf a).bytes_read;
    })
fetched-IsValid init buf fail b = (b, tt)
fetched-IsValid init buf (gives n xs) b = (
  length-read_into buf (take (bufsiz - 1) xs) ∙ b,
  omega (arith, length-take (bufsiz - 1) xs, bufsiz_pos),
)

module _ (client save : ℤ) where
  abbrev round_at : Bytes → ℕ → ℤ → World → Outcome (Round State) × World
  round_at buf init z =
      session_round client save (record { input_buffer = buf; init = init; bytes_read = z })

  round_at-Progress :
      (init : ℕ) (z : ℤ) (answers : List Answer) (buf : Bytes) (log : List Call)
      → length buf ≡ bufsiz
      → Fits z
      → let w : World = record { answers = answers; log = log } in
        Progress IsValid IsWaiting w (round_at buf init z w).0 (round_at buf init z w).1
  unfolding session_round
  round_at-Progress init (pos zero) answers buf log b l = ((b, l), omega arith)
  round_at-Progress init (negsuc n) answers buf log b l = ((b, l), omega arith)
  round_at-Progress zero (pos (suc n)) [] buf log b l =
      rw (lt→ltb (suc n) (length buf) (omega arith)) (rw check_len-accepts refl)
  round_at-Progress zero (pos (suc n)) (a ∷ answers) buf log b l =
      rw (lt→ltb (suc n) (length buf) (omega arith)) (
        rw check_len-accepts
          (fetched-IsValid 1 (set buf (suc n) 0) a (length-set buf (suc n) 0 ∙ b), omega arith))
  round_at-Progress (suc k) (pos (suc n)) [] buf log b l =
      rw (lt→ltb (suc n) (length buf) (omega arith)) (rw suc_eq_zero refl)
  round_at-Progress (suc k) (pos (suc n)) (a ∷ answers) buf log b l =
      rw (lt→ltb (suc n) (length buf) (omega arith)) (
        rw suc_eq_zero (
          fetched-IsValid (suc k) (set buf (suc n) 0) a (length-set buf (suc n) 0 ∙ b),
          omega arith,
        ))

  session_round-Progress :
      (s : State) (w : World)
      → IsValid s
      → Progress IsValid IsWaiting w
          (session_round client save s w).0
          (session_round client save s w).1
  session_round-Progress s w v =
      round_at-Progress s.init s.bytes_read w.answers s.input_buffer w.log v.0 v.1

  session-Keeps :
      (fuel : ℕ) (s : State) (w : World)
      → left w < fuel
      → IsValid s
      → Keeps IsValid IsWaiting w
          (loop fuel (session_round client save) s w).0
          (loop fuel (session_round client save) s w).1
  session-Keeps fuel =
      loop-Keeps IsValid IsWaiting (session_round client save) fuel
        (λ s w _. session_round-Progress s w)

-- A client takes at least the answer of `accept`.
serve_client_at :
    (fuel : ℕ) (server z : ℤ) (init : ℕ) (buf : Bytes) (answers : List Answer) (log : List Call)
    → length answers < fuel
    → length buf ≡ bufsiz
    → let w : World = record { answers = answers; log = log } in
      let s : State = record { input_buffer = buf; init = init; bytes_read = z } in
      GoesOn IsValid IsWaiting w (serve_client fuel server s w).0 (serve_client fuel server s w).1
unfolding serve_client
serve_client_at fuel server z init buf [] log h b = refl
serve_client_at fuel server z init buf (a ∷ []) log h b = refl
serve_client_at fuel server z init buf (a ∷ f ∷ []) log h b = refl
serve_client_at fuel server z init buf (a ∷ f ∷ m ∷ answers) log h b =
    let s' : State = record {
      input_buffer = (fetched (bufsiz - 1) buf m).buffer;
      init = init;
      bytes_read = (fetched (bufsiz - 1) buf m).bytes_read;
    } in
    let w' : World = record {
      answers = answers;
      log =
          read (int_of a) (bufsiz - 1)
          ∷ open_file (codes "output.txt")
          ∷ print "New client accepted\n"
          ∷ accept server
          ∷ print "Server is waiting for client\n"
          ∷ log;
    } in
    let r = loop fuel (session_round (int_of a) (int_of f)) s' w' in
    continue-Ensures (λ s w''. IsValid s × (left w'' ≤ length answers))
      (RoundEnd (λ s w''. IsValid s × (left w'' < suc (suc (suc (length answers))))) (λ _ _. ⊥))
      (λ e _. IsWaiting e) (disconnect (int_of a) (int_of f)) r.0 r.1
      (session-Keeps (int_of a) (int_of f) fuel s' w' (omega arith) (fetched-IsValid init buf m b))
      (λ s w'' k. (k.0, omega (arith, k.1)))

abbrev pub StopsWell : Stop → Type 0
StopsWell e = (e ≡ waits) ⊎ (e ≡ exits exit_failure)

serve_client-GoesOn :
    (fuel : ℕ) (server : ℤ) (s : State) (w : World)
    → left w < fuel
    → IsValid s
    → GoesOn IsValid IsWaiting w (serve_client fuel server s w).0 (serve_client fuel server s w).1
serve_client-GoesOn fuel server s w h v =
    serve_client_at fuel server s.bytes_read s.init s.input_buffer w.answers w.log h v.0

serving-IsWaiting :
    (fuel : ℕ) (server : ℤ) (stack : Bytes) (w : World)
    → left w < fuel
    → length stack ≡ bufsiz
    → let s : State = record { input_buffer = stack; init = 0; bytes_read = minus_one } in
      Ensures
        (λ _ _. ⊥)
        (λ e _. IsWaiting e)
        (loop fuel (serve_client fuel server) s w).0
        (loop fuel (serve_client fuel server) s w).1
serving-IsWaiting fuel server stack w h b =
    loop-GoesOn IsValid IsWaiting (serve_client fuel server) fuel (serve_client-GoesOn fuel server)
      _ w h (b, tt)

open_server-StopsWell :
    (name address port : Bytes) (answers : List Answer) (log : List Call)
    → let w : World = record { answers = answers; log = log } in
      Ensures
        (λ _ w'. left w' ≤ left w)
        (λ e _. StopsWell e)
        (open_server (name ∷ address ∷ port ∷ []) w).0
        (open_server (name ∷ address ∷ port ∷ []) w).1
unfolding open_server
open_server-StopsWell name address port [] log = inl refl
open_server-StopsWell name address port (fail ∷ answers) log = inr refl
open_server-StopsWell name address port (gives n xs ∷ answers) log = ground arith

-- Whatever the kernel answers, the server never stores behind its buffer, and neither of its loops
-- goes round without the kernel: with more rounds than there are answers, `main` does not return but
-- is left waiting for a call, or has given up with `EXIT_FAILURE`. The buffer has its `BUFSIZ` bytes.
pub main-StopsWell :
    (fuel : ℕ) (stack name address port : Bytes) (answers : List Answer)
    → length answers < fuel
    → length stack ≡ bufsiz
    → Ensures
        (λ _ _. ⊥)
        (λ e _. StopsWell e)
        (main fuel stack (name ∷ address ∷ port ∷ []) (start answers)).0
        (main fuel stack (name ∷ address ∷ port ∷ []) (start answers)).1
unfolding main
main-StopsWell fuel stack name address port answers h b =
    let r = open_server (name ∷ address ∷ port ∷ []) (start answers) in
    continue-Ensures (λ _ w. left w ≤ length answers) (λ _ _. ⊥) (λ e _. StopsWell e)
      (λ server.
        loop fuel (serve_client fuel server)
          (record { input_buffer = stack; init = 0; bytes_read = minus_one }))
      r.0 r.1 (open_server-StopsWell name address port answers [])
      (λ server w k.
        let r' =
          loop fuel (serve_client fuel server)
            (record { input_buffer = stack; init = 0; bytes_read = minus_one }) w in
        Ensures-mono (λ _ _. ⊥) (λ _ _. ⊥) (λ e _. IsWaiting e) (λ e _. StopsWell e) r'.0 r'.1
          (λ s v. v) (λ e v. inl v) (serving-IsWaiting fuel server stack w (omega (arith, k)) b))
