-- ===== src/Calculator/Semaphore.antt =====
-- How a client's thread uses the semaphore.
use osy_materials.Prelude.{
  ℕ, zero, suc, ◌+◌, ◌-◌, ◌*◌, ◌<◌, ◌≤◌, ◌≡◌, refl, ◌∙◌, ◌⊎◌, inl, inr, ℤ, pos, negsuc, List, [],
  ◌∷◌, arith, ltb, leb, Bool-cases, suc_eq_zero, is_minus_one, length, set,
}
use osy_materials.Libc.Strings.{Bytes, c_str, zero_fill}
use osy_materials.Sys.{
  Answer, Call, read, World, thread_exits, start, Sys, ◌>>=◌, pure, print_str, print_str, print,
  warn, act, stop, give_up_if, fetched, bufsiz, ◌>>◌,
}
use osy_materials.Sys.Loop.{Round, again, loop, Ensures, RoundEnd, loop_inv}
use osy_materials.Sys.Progress.{continue-Ensures, Ensures-mono}
use osy_materials.Calculator.Calls.{
  wait_calls, post_calls, read_calls, AfterMessages, Bounded, HandlerEnd, Same, calculate-Same,
}
use osy_materials.Calculator.{State, calculate, use_mutex, next_read, client_round, handle_client}

-- Between two rounds: before the first message, or with the counter and the calls in step.
abbrev Used : ℕ → List Call → Type 0
Used c log =
    (0 < c) × (c ≤ 10) × (wait_calls log ≡ 1) × (10 * post_calls log + c + 1 ≡ read_calls log)

abbrev Fresh : ℕ → List Call → Type 0
Fresh c log = (c ≡ 0) × (wait_calls log ≡ 0) × (post_calls log ≡ 0) × (read_calls log ≡ 1)

abbrev Inv : State → World → Type 0
Inv s w = Fresh s.counter w.log ⊎ Used s.counter w.log

-- Behind the two tests of the counter.
abbrev Locked : ℕ → World → Type 0
Locked c w = (c ≤ 9) × (wait_calls w.log ≡ 1) × (10 * post_calls w.log + c + 1 ≡ read_calls w.log)

use_mutex-first :
    (answers : List Answer) (log : List Call)
    → Fresh 0 log
    → let w : World = record { answers = answers; log = log } in
      Ensures Locked HandlerEnd (use_mutex 0 w).0 (use_mutex 0 w).1
unfolding use_mutex
use_mutex-first [] log (_, x, p, r) = (omega arith, omega arith)
use_mutex-first (a ∷ answers) log (_, x, p, r) = (omega arith, omega arith, omega arith)

use_mutex-later :
    (c : ℕ) (w : World)
    → Used c w.log
    → Ensures Locked HandlerEnd (use_mutex c w).0 (use_mutex c w).1
unfolding use_mutex
use_mutex-later (suc c) w (i, j, x, r) = elim (Bool-cases (leb 10 (suc c))) [
  | inl e ↦ rw (suc_eq_zero c) (rw e (omega arith, omega arith, ground arith))
  | inr e ↦ rw (suc_eq_zero c) (rw e (ground arith, omega arith, omega arith))
]
use_mutex-later zero w (i, j, x, r) = absurd (omega arith)

use_mutex-Locked :
    (c : ℕ) (w : World)
    → Fresh c w.log ⊎ Used c w.log
    → Ensures Locked HandlerEnd (use_mutex c w).0 (use_mutex c w).1
use_mutex-Locked zero w (inl h) = use_mutex-first w.answers w.log h
use_mutex-Locked (suc c) w (inl h) = absurd (omega (arith, h.0))
use_mutex-Locked c w (inr h) = use_mutex-later c w h

calculate-Locked :
    (client : ℤ) (buf : Bytes) (c : ℕ) (w : World)
    → Locked c w
    → Ensures (λ _ w'. Locked c w') HandlerEnd (calculate client buf w).0 (calculate client buf w).1
calculate-Locked client buf c w h =
    Ensures-mono (λ _ w'. Same w.log w'.log) (λ _ w'. Locked c w') HandlerEnd HandlerEnd
      (calculate client buf w).0 (calculate client buf w).1
      (λ _ (x, p, r). (h.0, omega arith, omega arith)) (λ _ e. e)
      (calculate-Same client buf w (omega arith, omega arith))

-- `counter++`, and the next message.
abbrev read_again : ℤ → State → Sys (Round State)
read_again client s = next_read client s >>= λ s'. pure (again s')

read_again-Inv :
    (client b : ℤ) (out : Bytes) (c : ℕ) (answers : List Answer) (log : List Call)
    → Locked c (record { answers = answers; log = log })
    → let s : State = record { buffer = out; read_bytes = b; counter = c + 1 } in
      let w : World = record { answers = answers; log = log } in
      Ensures (RoundEnd Inv Inv) HandlerEnd (read_again client s w).0 (read_again client s w).1
unfolding next_read
read_again-Inv client b out c [] log h = (omega arith, omega arith)
read_again-Inv client b out c (a ∷ answers) log h =
    inr (omega arith, omega arith, omega arith, omega arith)

-- The reply, and the next message.
abbrev answer_message : ℤ → ℕ → ℕ → Bytes → Sys (Round State)
answer_message client n c buf = calculate client buf >>= λ out.
    read_again client (record { buffer = out; read_bytes = pos n; counter = c + 1 })

answer_message-Inv :
    (client : ℤ) (n c : ℕ) (buf : Bytes) (w : World)
    → Locked c w
    → Ensures
        (RoundEnd Inv Inv)
        HandlerEnd
        (answer_message client n c buf w).0
        (answer_message client n c buf w).1
answer_message-Inv client n c buf w h =
    continue-Ensures (λ _ w'. Locked c w') (RoundEnd Inv Inv) HandlerEnd
      (λ out. read_again client (record { buffer = out; read_bytes = pos n; counter = c + 1 }))
      (calculate client buf w).0 (calculate client buf w).1 (calculate-Locked client buf c w h)
      (λ out w' l. read_again-Inv client (pos n) out c w'.answers w'.log l)

-- A round of the loop.
client_round-Inv :
    (client : ℤ) (buf : Bytes) (b : ℤ) (c : ℕ) (w : World)
    → Fresh c w.log ⊎ Used c w.log
    → let s : State = record { buffer = buf; read_bytes = b; counter = c } in
      Ensures (RoundEnd Inv Inv) HandlerEnd (client_round client s w).0 (client_round client s w).1
unfolding client_round
client_round-Inv client buf (pos zero) c w h = h
client_round-Inv client buf (negsuc n) c w h = h
client_round-Inv client buf (pos (suc n)) c w h =
    continue-Ensures Locked (RoundEnd Inv Inv) HandlerEnd _ (use_mutex c w).0 (use_mutex c w).1
      (use_mutex-Locked c w h)
      (λ c' w' k. elim (Bool-cases (ltb (suc n) (length buf))) [
        | inl room ↦ rw room (
            answer_message-Inv client (suc n) c' (set buf (suc n) 0)
              (record w' {
                log = print_str "Read from client %s\n" (c_str (set buf (suc n) 0)) ∷ w'.log;
              })
              (k.0, omega arith, omega arith))
        | inr over ↦ rw over (omega arith, omega arith)
      ])

after_messages :
    (n c : ℕ) (log : List Call)
    → 0 < c
    → c ≤ 10
    → wait_calls log ≡ 1
    → n ≡ 10 * post_calls log + c
    → AfterMessages n log
after_messages zero c log i j x e = absurd (omega arith)
after_messages (suc n) c log i j x e = (x, ground arith)

Inv-AfterMessages : (s : State) (w : World) → Inv s w → AfterMessages (read_calls w.log - 1) w.log
Inv-AfterMessages s w (inl (c, x, p, r)) = rw r (x, p)
Inv-AfterMessages s w (inr (i, j, x, r)) =
    after_messages (read_calls w.log - 1) s.counter w.log i j x (omega arith)

Inv-Bounded : (s : State) (w : World) → Inv s w → Bounded w.log
Inv-Bounded s w (inl (c, x, p, r)) = (omega arith, omega arith)
Inv-Bounded s w (inr (i, j, x, r)) = (omega arith, omega arith)

-- Behind the loop.
abbrev finish : State → Sys State
finish s = do
  give_up_if (is_minus_one s.read_bytes) "Error while reading\n"
  act (print "Client disconnected\n")
  stop thread_exits

-- A message is no call of the semaphore.
Inv-said :
    (s : State) (w w' : World)
    → Same w.log w'.log
    → Inv s w
    → AfterMessages (read_calls w'.log - 1) w'.log
Inv-said s w w' (x, p, r) (inl (c, x', p', r')) =
    Inv-AfterMessages s w' (inl (c, x ∙ x', p ∙ p', r ∙ r'))
Inv-said s w w' (x, p, r) (inr (i, j, x', r')) =
    Inv-AfterMessages s w' (inr (i, j, x ∙ x', omega arith))

finish-HandlerEnd :
    (s : State) (w : World) → Inv s w → Ensures (λ _ _. ⊥) HandlerEnd (finish s w).0 (finish s w).1
finish-HandlerEnd s w h = elim (Bool-cases (is_minus_one s.read_bytes)) [
  | inl e ↦ rw e (
      Inv-said s w (record w { log = warn "Error while reading\n" ∷ w.log })
        (omega arith, omega arith, omega arith) h)
  | inr e ↦ rw e (
      Inv-said s w (record w { log = print "Client disconnected\n" ∷ w.log })
        (omega arith, omega arith, omega arith) h)
]

abbrev first_state : Bytes → Answer → State
first_state stack a = record {
  buffer = (fetched bufsiz (zero_fill bufsiz stack) a).buffer;
  read_bytes = (fetched bufsiz (zero_fill bufsiz stack) a).bytes_read;
  counter = 0;
}

abbrev first_world : ℤ → List Answer → World
first_world client answers = record { answers = answers; log = read client bufsiz ∷ [] }

-- However the kernel answers: where the client has left, or a `read` has failed, the thread has waited
-- for the semaphore once if there was a message, and has posted it once for every ten messages before
-- the last; never does it wait twice.
pub handle_client-semaphore :
    (fuel : ℕ) (stack : Bytes) (client : ℤ) (answers : List Answer)
    → Ensures
        (λ _ _. ⊥)
        HandlerEnd
        (handle_client fuel stack client (start answers)).0
        (handle_client fuel stack client (start answers)).1
unfolding handle_client
handle_client-semaphore fuel stack client [] = (omega arith, omega arith)
handle_client-semaphore fuel stack client (a ∷ answers) =
    let r = loop fuel (client_round client) (first_state stack a) (first_world client answers) in
    continue-Ensures Inv (λ _ _. ⊥) HandlerEnd finish r.0 r.1
      (loop_inv Inv Inv HandlerEnd (client_round client)
        (λ s w h. client_round-Inv client s.buffer s.read_bytes s.counter w h)
        (λ s w h. Inv-Bounded s w h) fuel (first_state stack a) (first_world client answers)
        (inl (refl, refl, refl, refl)))
      finish-HandlerEnd
