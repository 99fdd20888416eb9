-- ===== src/Calculator/Exclusion.antt =====
-- What becomes of the semaphore when clients come and go.
use osy_materials.Prelude.{
  ℕ, zero, suc, ◌+◌, ◌<◌, ◌≤◌, ◌≡◌, refl, sym, ap, ◌∙◌, subst, none, some, List, [], ◌∷◌, ◌++◌,
  arith, All, All-append, replicate,
}
use osy_materials.Calculator.{max_clients}
use osy_materials.Calculator.Clients.{
  Hub, initial, gate, Step, connects, handles, departs, Steps, stays, goes,
}

-- The semaphore is taken, and no thread that runs has taken it.
abbrev pub IsStarved : Hub → Type 0
IsStarved h = (h.sem ≡ 0) × All (λ c. c ≡ 0) h.counters

All-middle :
    (P : ℕ → Type 0) (before later : List ℕ) (c : ℕ)
    → All P (before ++ c ∷ later)
    → P c × All P (before ++ later)
All-middle P [] later c h = h
All-middle P (b ∷ before) later c h = let k = All-middle P before later c h.1 in (k.0, (h.0, k.1))

starved_gate : (c c' sem sem' : ℕ) → c ≡ 0 → sem ≡ 0 → gate c sem ≡ some (c', sem') → ⊥
unfolding gate
starved_gate zero c' zero sem' e k g = cc
starved_gate zero c' (suc sem) sem' e k g = absurd (omega arith)
starved_gate (suc c) c' sem sem' e k g = absurd (omega arith)

IsStarved-Step : {h h' : Hub} → Step h h' → IsStarved h → IsStarved h'
IsStarved-Step {h = h} (connects room e) s =
    rw e (s.0, All-append (λ c. c ≡ 0) h.counters (0 ∷ []) s.1 (refl, tt))
IsStarved-Step (handles before later c c' sem' e g k) s =
    absurd (starved_gate c c' _ sem' (All-middle (λ c. c ≡ 0) before later c (rw e at s.1)).0 s.0 g)
IsStarved-Step (departs before later c e k) s =
    rw k (s.0, (All-middle (λ c. c ≡ 0) before later c (rw e at s.1)).1)

IsStarved-Steps : {h h' : Hub} → Steps h h' → IsStarved h → IsStarved h'
IsStarved-Steps stays s = s
IsStarved-Steps (goes p q) s = IsStarved-Step q (IsStarved-Steps p s)

pub Steps-trans : {h h' h'' : Hub} → Steps h h' → Steps h' h'' → Steps h h''
Steps-trans p stays = p
Steps-trans p (goes q r) = goes (Steps-trans p q) r

abbrev hub : ℕ → ℕ → List ℕ → Hub
hub v n cs = record { sem = v; no_clients = n; counters = cs }

gate_first : gate 0 1 ≡ some (1, 0)
unfolding gate
gate_first = refl

gate_next : (c v : ℕ) → 0 < c → c < 10 → gate c v ≡ some (c + 1, v)
unfolding gate
gate_next c v h k = ground arith

gate_eleventh : (v : ℕ) → gate 10 v ≡ some (1, v + 1)
unfolding gate
gate_eleventh v = refl

-- One client connects behind the others, takes the semaphore and sends up to ten messages.
client_messages :
    (n m : ℕ) (cs : List ℕ)
    → m < max_clients
    → n < 10
    → Steps (hub 1 m cs) (hub 0 (m + 1) (cs ++ (n + 1) ∷ []))
client_messages zero m cs room h =
    goes (goes stays (connects room refl)) (handles cs [] 0 1 0 refl gate_first refl)
client_messages (suc n) m cs room h = goes (client_messages n m cs room (omega arith)) (
    handles cs [] (n + 1) (n + 1 + 1) 0 refl (gate_next (n + 1) 0 (omega arith) (omega arith))
      (ap (λ c. hub 0 (m + 1) (cs ++ c ∷ [])) (omega arith)))

-- With its eleventh message it gives the semaphore back, and goes on.
client_again :
    (m : ℕ) (cs : List ℕ) → m < max_clients → Steps (hub 1 m cs) (hub 1 (m + 1) (cs ++ 1 ∷ []))
client_again m cs room =
    goes (client_messages 9 m cs room (omega arith))
      (handles cs [] 10 1 1 refl (gate_eleventh 0) refl)

-- A client whose 1 to 10 messages were handled.
abbrev pub served : ℕ → Hub
served n = record { sem = 0; no_clients = 1; counters = n ∷ [] }

abbrev pub gone : Hub
gone = record { sem = 0; no_clients = 1; counters = [] }

-- A first client may send 1 to 10 messages and leave; whatever happens from there on, the semaphore
-- stays 0 and no message of another client is handled.
pub short_visit-IsStarved :
    (n : ℕ) (h : Hub)
    → 0 < n
    → n ≤ 10
    → Steps gone h
    → Steps initial (served n) × Steps (served n) gone × IsStarved h
short_visit-IsStarved (suc n) h i j steps = (
  subst (λ c. Steps initial (hub 0 1 (c ∷ []))) (omega arith)
      (client_messages n 0 [] (omega arith) (omega arith)),
  goes stays (departs [] [] (suc n) refl refl),
  IsStarved-Steps steps (refl, tt),
)
short_visit-IsStarved zero h i j steps = absurd (omega arith)

-- The counters of so many clients with eleven messages handled.
abbrev pub ones : ℕ → List ℕ
ones k = replicate k 1

ones-append : (k : ℕ) → ones k ++ 1 ∷ [] ≡ 1 ∷ ones k
ones-append zero = refl
ones-append (suc k) = ap (◌∷◌ 1) (ones-append k)

-- So many clients, each with eleven messages handled.
many_clients : (k : ℕ) → k ≤ max_clients → Steps initial (hub 1 k (ones k))
many_clients zero h = stays
many_clients (suc k) h = Steps-trans (many_clients k (omega arith)) (
    subst (Steps (hub 1 k (ones k)))
      (ap (hub 1 (k + 1)) (ones-append k) ∙ ap (λ m. hub 1 m (1 ∷ ones k)) (omega arith))
      (client_again k (ones k) (omega arith)))

-- Any number of clients that leaves room in the array can be in the middle of their work at the same
-- time, with the semaphore free. The next client takes the semaphore with its first message and keeps it up to
-- its tenth, while no other's first message is handled; with its eleventh it gives the semaphore back
-- and goes on, as the others did.
pub many_clients-Steps :
    (k n : ℕ)
    → k < max_clients
    → n < 10
    → Steps initial (record { sem = 1; no_clients = k; counters = ones k })
      × Steps
          (record { sem = 1; no_clients = k; counters = ones k })
          (record { sem = 0; no_clients = k + 1; counters = ones k ++ (n + 1) ∷ [] })
      × (gate 0 0 ≡ none)
      × Step
          (record { sem = 0; no_clients = k + 1; counters = ones k ++ 10 ∷ [] })
          (record { sem = 1; no_clients = k + 1; counters = ones (k + 1) })
unfolding gate
many_clients-Steps k n h i = (
  many_clients k (omega arith),
  client_messages n k (ones k) h i,
  refl,
  handles (ones k) [] 10 1 1 refl (gate_eleventh 0) (
      ap (hub 1 (k + 1))
        (ap ones (let e : k + 1 ≡ suc k = omega arith in e) ∙ sym (ones-append k))),
)
