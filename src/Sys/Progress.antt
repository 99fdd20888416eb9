-- ===== src/Sys/Progress.antt =====
-- Loops that wait for the kernel in every round: they never need more rounds than there are answers.
use osy_materials.Prelude.{ℕ, ◌≤◌, ◌<◌, length, arith}
use osy_materials.Sys.{World, Stop, Outcome, returns, stops, Sys, continue}
use osy_materials.Sys.Loop.{Round, again, leave, loop, Ensures, RoundEnd, loop_total}

abbrev pub left : World → ℕ
left w = length w.answers

-- A run keeps `V`, takes no answer twice, and stops as `E` says.
abbrev pub Keeps {ℓ} :
    {A : Type ℓ} → (A → Type 0) → (Stop → Type 0) → World → Outcome A → World → Type 0
Keeps V E w = Ensures (λ a w'. V a × (left w' ≤ left w)) (λ e _. E e)

-- A round keeps `V`, and takes an answer if the loop goes on.
abbrev pub Progress {ℓ} :
    {S : Type ℓ} → (S → Type 0) → (Stop → Type 0) → World → Outcome (Round S) → World → Type 0
Progress V E w =
    Ensures (RoundEnd (λ s w'. V s × (left w' < left w)) (λ s w'. V s × (left w' ≤ left w)))
      (λ e _. E e)

module _ {ℓ} {S : Type ℓ} (V : S → Type 0) (E : Stop → Type 0) where
  Progress-trans :
      (w₀ w : World) (r : Outcome (Round S)) (w' : World)
      → left w ≤ left w₀
      → Progress V E w r w'
      → Ensures
          (RoundEnd
            (λ s w''. (V s × (left w'' ≤ left w₀)) × (left w'' < left w))
            (λ s w''. V s × (left w'' ≤ left w₀)))
          (λ e _. E e)
          r
          w'
  Progress-trans w₀ w (returns (again s)) w' h (v, l) = ((v, omega arith), l)
  Progress-trans w₀ w (returns (leave s)) w' h (v, l) = (v, omega arith)
  Progress-trans w₀ w (stops e) w' h k = k

  pub loop-Keeps :
      (body : S → Sys (Round S)) (fuel : ℕ)
      → ((s : S) (w : World) → left w < fuel → V s → Progress V E w (body s w).0 (body s w).1)
      → (s : S) (w : World) → left w < fuel
      → V s
      → Keeps V E w (loop fuel body s w).0 (loop fuel body s w).1
  loop-Keeps body fuel step s w h v =
      loop_total (λ s' w'. V s' × (left w' ≤ left w)) (λ s' w'. V s' × (left w' ≤ left w))
        (λ e _. E e) (λ _ w'. left w') body
        (λ s' w' k.
          Progress-trans w w' (body s' w').0 (body s' w').1 k.1
            (step s' w' (omega (arith, k.1)) k.0))
        fuel s w h (v, omega arith)

-- A round keeps `V`, takes an answer, and never leaves the loop.
abbrev pub GoesOn {ℓ} :
    {S : Type ℓ} → (S → Type 0) → (Stop → Type 0) → World → Outcome (Round S) → World → Type 0
GoesOn V E w = Ensures (RoundEnd (λ s w'. V s × (left w' < left w)) (λ _ _. ⊥)) (λ e _. E e)

module _ {ℓ} {S : Type ℓ} (V : S → Type 0) (E : Stop → Type 0) where
  GoesOn-trans :
      (w₀ w : World) (r : Outcome (Round S)) (w' : World)
      → left w ≤ left w₀
      → GoesOn V E w r w'
      → Ensures
          (RoundEnd (λ s w''. (V s × (left w'' ≤ left w₀)) × (left w'' < left w)) (λ _ _. ⊥))
          (λ e _. E e)
          r
          w'
  GoesOn-trans w₀ w (returns (again s)) w' h (v, l) = ((v, omega arith), l)
  GoesOn-trans w₀ w (returns (leave s)) w' h k = k
  GoesOn-trans w₀ w (stops e) w' h k = k

  -- Such a loop does not end by itself.
  pub loop-GoesOn :
      (body : S → Sys (Round S)) (fuel : ℕ)
      → ((s : S) (w : World) → left w < fuel → V s → GoesOn V E w (body s w).0 (body s w).1)
      → (s : S) (w : World) → left w < fuel
      → V s
      → Ensures (λ _ _. ⊥) (λ e _. E e) (loop fuel body s w).0 (loop fuel body s w).1
  loop-GoesOn body fuel step s w h v =
      loop_total (λ s' w'. V s' × (left w' ≤ left w)) (λ _ _. ⊥) (λ e _. E e) (λ _ w'. left w') body
        (λ s' w' k.
          GoesOn-trans w w' (body s' w').0 (body s' w').1 k.1 (step s' w' (omega (arith, k.1)) k.0))
        fuel s w h (v, omega arith)

-- The rule for a sequence of two parts.
pub continue-Ensures {ℓ κ} :
    {A : Type ℓ} {B : Type κ} (P : A → World → Type 0) (Q : B → World → Type 0)
    (E : Stop → World → Type 0) (f : A → Sys B) (r : Outcome A) (w : World)
    → Ensures P E r w
    → ((a : A) (w' : World) → P a w' → Ensures Q E (f a w').0 (f a w').1)
    → Ensures Q E (continue r f w).0 (continue r f w).1
continue-Ensures P Q E f (returns a) w h k = k a w h
continue-Ensures P Q E f (stops e) w h k = h

pub Ensures-mono {ℓ} :
    {A : Type ℓ} (P Q : A → World → Type 0) (E F : Stop → World → Type 0) (r : Outcome A)
    (w : World)
    → ((a : A) → P a w → Q a w)
    → ((e : Stop) → E e w → F e w)
    → Ensures P E r w
    → Ensures Q F r w
Ensures-mono P Q E F (returns a) w p e h = p a h
Ensures-mono P Q E F (stops x) w p e h = e x h
