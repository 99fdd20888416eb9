-- ===== src/Sys/Loop.antt =====
-- Loops over system calls, statements about how a run ends, and the two rules for loops: one for
-- invariants, one for the rounds that are enough.
use osy_materials.Prelude.{ℕ, zero, suc, ◌<◌, ◌≡◌, arith}
use osy_materials.Sys.{World, Stop, runs_on, Outcome, returns, stops, Sys}

-- A round goes on with a new state or leaves the loop.
pub data Round {ℓ} (S : Type ℓ) : Type ℓ where
  again : S → Round S
  leave : S → Round S

-- What follows a round: the rest of the loop, or its end.
abbrev pub after_round {ℓ} : {S : Type ℓ} → (S → Sys S) → Outcome (Round S) → Sys S
after_round rest (returns (again s)) w = rest s w
after_round rest (returns (leave s)) w = (returns s, w)
after_round rest (stops e) w = (stops e, w)

-- A `while` loop for so many rounds; `runs_on` when it has not left by then.
unfoldable pub loop {ℓ} : {S : Type ℓ} → ℕ → (S → Sys (Round S)) → S → Sys S
loop zero body s w = (stops runs_on, w)
loop (suc fuel) body s w = let r = body s w in after_round (loop fuel body) r.0 r.1

-- A run ends well: with `P` of the value and the world where it returns, and `E` of the way it
-- stops and the world elsewhere.
abbrev pub Ensures {ℓ κ} :
    {A : Type ℓ} → (A → World → Type κ) → (Stop → World → Type κ) → Outcome A → World → Type κ
Ensures P E (returns a) w = P a w
Ensures P E (stops e) w = E e w

-- The two ends of a round.
abbrev pub RoundEnd {ℓ κ} :
    {S : Type ℓ} → (S → World → Type κ) → (S → World → Type κ) → Round S → World → Type κ
RoundEnd I P (again s) w = I s w
RoundEnd I P (leave s) w = P s w

module _ {ℓ κ} {S : Type ℓ} where
  after_round_inv :
      (I P : S → World → Type κ) (E : Stop → World → Type κ) (rest : S → Sys S)
      → ((s : S) (w : World) → I s w → Ensures P E (rest s w).0 (rest s w).1)
      → (r : Outcome (Round S)) (w : World) → Ensures (RoundEnd I P) E r w
      → Ensures P E (after_round rest r w).0 (after_round rest r w).1
  after_round_inv I P E rest h (returns (again s)) w k = h s w k
  after_round_inv I P E rest h (returns (leave s)) w k = k
  after_round_inv I P E rest h (stops e) w k = k

  -- An invariant that every round keeps holds where the loop leaves, and where it stops.
  pub loop_inv :
      (I P : S → World → Type κ) (E : Stop → World → Type κ) (body : S → Sys (Round S))
      → ((s : S) (w : World) → I s w → Ensures (RoundEnd I P) E (body s w).0 (body s w).1)
      → ((s : S) (w : World) → I s w → E runs_on w)
      → (fuel : ℕ) (s : S) (w : World) → I s w
      → Ensures P E (loop fuel body s w).0 (loop fuel body s w).1
  unfolding loop
  loop_inv I P E body keep last zero s w h = last s w h
  loop_inv I P E body keep last (suc fuel) s w h =
      after_round_inv I P E (loop fuel body) (loop_inv I P E body keep last fuel) (body s w).0
        (body s w).1 (keep s w h)

  -- A loop whose rounds lower a measure leaves or stops by itself within that many rounds.
  pub loop_total :
      (I P : S → World → Type κ) (E : Stop → World → Type κ) (measure : S → World → ℕ)
      (body : S → Sys (Round S))
      → ((s : S) (w : World)
          → I s w
          → Ensures
              (RoundEnd (λ s' w'. I s' w' × (measure s' w' < measure s w)) P)
              E
              (body s w).0
              (body s w).1)
      → (fuel : ℕ) (s : S) (w : World) → measure s w < fuel
      → I s w
      → Ensures P E (loop fuel body s w).0 (loop fuel body s w).1
  unfolding loop
  loop_total I P E measure body keep zero s w m h = absurd (omega arith)
  loop_total I P E measure body keep (suc fuel) s w m h =
      after_round_inv (λ s' w'. I s' w' × (measure s' w' < measure s w)) P E (loop fuel body)
        (λ s' w' k. loop_total I P E measure body keep fuel s' w' (omega (arith, k.1)) k.0)
        (body s w).0 (body s w).1 (keep s w h)

module _ {ℓ} {S : Type ℓ} where
  -- One round of a loop that goes on, of one that leaves, and of one that stops.
  pub loop_again :
      (fuel : ℕ) (body : S → Sys (Round S)) {s s' : S} {w w' : World}
      → body s w ≡ (returns (again s'), w')
      → loop (suc fuel) body s w ≡ loop fuel body s' w'
  unfolding loop
  loop_again fuel body e = rw (e, loop)

  pub loop_leave :
      (fuel : ℕ) (body : S → Sys (Round S)) {s s' : S} {w w' : World}
      → body s w ≡ (returns (leave s'), w')
      → loop (suc fuel) body s w ≡ (returns s', w')
  unfolding loop
  loop_leave fuel body e = rw (e, loop)

  pub loop_stops :
      (fuel : ℕ) (body : S → Sys (Round S)) {s : S} {e : Stop} {w w' : World}
      → body s w ≡ (stops e, w')
      → loop (suc fuel) body s w ≡ (stops e, w')
  unfolding loop
  loop_stops fuel body e = rw (e, loop)
