-- ===== src/Messages/Server/Service.antt =====
-- The server of op_systems/server.c never stops by itself.
use osy_materials.Prelude.{
  ℕ, ◌-◌, ◌<◌, ◌≤◌, ◌≡◌, refl, ◌∙◌, ℤ, ◌||◌, List, [], ◌∷◌, length, length-set, length-take,
  length-replicate, replicate, set, take, arith, lt→ltb, Bool-cases, inl, inr, ◌==◌,
}
use osy_materials.Libc.Strings.{Bytes, codes, c_str, str_eq, length-read_into, read_into}
use osy_materials.Sys.{Answer, fail, gives, Call, read, World, Stop, waits, start, Sys, ◌>>=◌}
use osy_materials.Sys.Loop.{Round, again, leave, loop, Ensures, RoundEnd}
use osy_materials.Sys.Progress.{left, GoesOn, loop-GoesOn, continue-Ensures, Ensures-mono}
use osy_materials.Messages.Server.{
  State, buffer_len, next_client, print_message, message_round, open_server, first_client, main,
}

abbrev pub IsValid : State → Type 0
IsValid s = length s.input_buffer ≡ buffer_len

abbrev pub IsWaiting : Stop → Type 0
IsWaiting e = e ≡ waits

-- A client that leaves makes room for the next, for whom the server waits.
next_client-IsValid :
    (server : ℤ) (s : State) (answers : List Answer) (log : List Call)
    → IsValid s
    → let w : World = record { answers = answers; log = log } in
      Ensures
        (RoundEnd (λ s w'. IsValid s × (left w' ≤ left w)) (λ _ _. ⊥))
        (λ e _. IsWaiting e)
        (next_client server s w).0
        (next_client server s w).1
unfolding next_client
next_client-IsValid server s [] log h = refl
next_client-IsValid server s (fail ∷ answers) log h = (h, omega arith)
next_client-IsValid server s (gives n xs ∷ answers) log h = (h, omega arith)

print_message-IsValid :
    (server client : ℤ) (buf : Bytes) (n : ℕ) (w : World)
    → n < length buf
    → length buf ≡ buffer_len
    → Ensures
        (RoundEnd (λ s w'. IsValid s × (left w' ≤ left w)) (λ _ _. ⊥))
        (λ e _. IsWaiting e)
        (print_message server client buf n w).0
        (print_message server client buf n w).1
unfolding print_message
print_message-IsValid server client buf n w h b =
    let s : State = record { input_buffer = set buf n 0; client_sock_fd = client } in
    let v : IsValid s = length-set buf n 0 ∙ b in
    rw (lt→ltb _ _ h) (elim (Bool-cases (str_eq (c_str (set buf n 0)) (codes "exit") || n == 0)) [
      | inl e ↦ rw e (next_client-IsValid server s w.answers (_ ∷ w.log) v)
      | inr e ↦ rw e (v, omega arith)
    ])

later_round :
    (w₀ w : World)
    → left w < left w₀
    → (r : Round State) (w' : World)
    → RoundEnd (λ s w'. IsValid s × (left w' ≤ left w)) (λ _ _. ⊥) r w'
    → RoundEnd (λ s w'. IsValid s × (left w' < left w₀)) (λ _ _. ⊥) r w'
later_round w₀ w h (again s) w' (v, l) = (v, omega arith)
later_round w₀ w h (leave s) w' k = k

-- A round takes the answer of `read`.
message_round-GoesOn :
    (server : ℤ) (s : State) (answers : List Answer) (log : List Call)
    → IsValid s
    → let w : World = record { answers = answers; log = log } in
      GoesOn IsValid IsWaiting w (message_round server s w).0 (message_round server s w).1
unfolding message_round
message_round-GoesOn server s [] log h = refl
message_round-GoesOn server s (fail ∷ answers) log h = (h, omega arith)
message_round-GoesOn server s (gives n xs ∷ answers) log h =
    let xs' = take (buffer_len - 1) xs in
    let b : length (read_into s.input_buffer xs') ≡ buffer_len =
      length-read_into s.input_buffer xs' ∙ h in
    let w : World = record { answers = gives n xs ∷ answers; log = log } in
    let w' : World = record {
      answers = answers;
      log = read s.client_sock_fd (buffer_len - 1) ∷ log;
    } in
    let r = print_message server s.client_sock_fd (read_into s.input_buffer xs') (length xs') w' in
    Ensures-mono (RoundEnd (λ s w₂. IsValid s × (left w₂ ≤ left w')) (λ _ _. ⊥))
      (RoundEnd (λ s w₂. IsValid s × (left w₂ < left w)) (λ _ _. ⊥)) (λ e _. IsWaiting e)
      (λ e _. IsWaiting e) r.0 r.1 (λ a k. later_round w w' (omega arith) a r.1 k) (λ e k. k)
      (print_message-IsValid server s.client_sock_fd (read_into s.input_buffer xs') (length xs') w'
        (omega (arith, length-take (buffer_len - 1) xs)) b)

open_server-left :
    (name port : Bytes) (answers : List Answer)
    → Ensures
        (λ _ w. left w ≤ length answers)
        (λ e _. IsWaiting e)
        (open_server (name ∷ port ∷ []) (start answers)).0
        (open_server (name ∷ port ∷ []) (start answers)).1
unfolding open_server
open_server-left name port [] = refl
open_server-left name port (fail ∷ []) = refl
open_server-left name port (fail ∷ fail ∷ answers) = omega arith
open_server-left name port (fail ∷ gives n xs ∷ answers) = omega arith
open_server-left name port (gives m ys ∷ []) = refl
open_server-left name port (gives m ys ∷ fail ∷ answers) = omega arith
open_server-left name port (gives m ys ∷ gives n xs ∷ answers) = omega arith

first_client-left :
    (server : ℤ) (answers : List Answer) (log : List Call)
    → let w : World = record { answers = answers; log = log } in
      Ensures
        (λ _ w'. left w' ≤ left w)
        (λ e _. IsWaiting e)
        (first_client server w).0
        (first_client server w).1
unfolding first_client
first_client-left server [] log = refl
first_client-left server (fail ∷ answers) log = omega arith
first_client-left server (gives n xs ∷ answers) log = omega arith

abbrev first_state : ℤ → State
first_state client = record { input_buffer = replicate buffer_len 0; client_sock_fd = client }

-- What `main` does with its socket.
abbrev serve_with : ℕ → ℤ → Sys State
serve_with fuel server =
    first_client server >>= λ client. loop fuel (message_round server) (first_state client)

serve_with-IsWaiting :
    (fuel : ℕ) (server : ℤ) (w : World)
    → left w < fuel
    → Ensures
        (λ _ _. ⊥)
        (λ e _. IsWaiting e)
        (serve_with fuel server w).0
        (serve_with fuel server w).1
serve_with-IsWaiting fuel server w h =
    let r = first_client server w in
    continue-Ensures (λ _ w'. left w' ≤ left w) (λ _ _. ⊥) (λ e _. IsWaiting e)
      (λ client. loop fuel (message_round server) (first_state client)) r.0 r.1
      (first_client-left server w.answers w.log)
      (λ client w' k.
        loop-GoesOn IsValid IsWaiting (message_round server) fuel
          (λ s w₂ _ v. message_round-GoesOn server s w₂.answers w₂.log v) (first_state client) w'
          (omega (arith, k)) (length-replicate {A = ℕ} buffer_len 0))

-- Whatever the kernel answers, the server never stores behind its buffer and never goes round without
-- the kernel: with more rounds than there are answers, `main` does not return, exit or run out of
-- rounds, but is left waiting for a call.
pub main-IsWaiting :
    (fuel : ℕ) (name port : Bytes) (answers : List Answer)
    → length answers < fuel
    → Ensures
        (λ _ _. ⊥)
        (λ e _. IsWaiting e)
        (main fuel (name ∷ port ∷ []) (start answers)).0
        (main fuel (name ∷ port ∷ []) (start answers)).1
unfolding main
main-IsWaiting fuel name port answers h =
    let r = open_server (name ∷ port ∷ []) (start answers) in
    continue-Ensures (λ _ w. left w ≤ length answers) (λ _ _. ⊥) (λ e _. IsWaiting e)
      (serve_with fuel) r.0 r.1 (open_server-left name port answers)
      (λ server w k. serve_with-IsWaiting fuel server w (omega (arith, k)))
