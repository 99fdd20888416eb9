-- ===== src/Sys/Pieces.antt =====
-- The loop of a program that reads one message after the other: a round works on the message that is
-- in the buffer, and ends with the `read` of the next one.
use osy_materials.Prelude.{
  ℕ, zero, suc, ◌<◌, ◌≡◌, refl, sym, ap, ◌∙◌, ℤ, pos, List, [], ◌∷◌, ◌++◌, length, arith,
  append_assoc, append-nil, All,
}
use osy_materials.Libc.Strings.{Bytes, c_str, read_into}
use osy_materials.Sys.{Answer, gives, Call, World, Outcome, returns, Sys, bufsiz, bufsiz_pos}
use osy_materials.Sys.Log.{pieces_answers, payload}
use osy_materials.Sys.Loop.{Round, again, leave, loop, loop_again, loop_leave}

-- A message, and the other answers that its round takes.
pub record Item : Type 0 where
  pub text : Bytes
  pub taken : List Answer

abbrev pub first_text : {I : Type 0} → (I → Item) → List I → Bytes
first_text item [] = []
first_text item (i ∷ is) = (item i).text

-- What is left of the answers when the first message has been read.
abbrev pub behind_first : {I : Type 0} → (I → Item) → List I → List Answer → List Answer
behind_first item [] rest = rest
behind_first item (i ∷ is) rest =
    (item i).taken
    ++ (gives (length (first_text item is)) (first_text item is) ∷ behind_first item is rest)

-- The messages of these items, and then the end of the input.
abbrev pub item_answers : {I : Type 0} → (I → Item) → List I → List Answer → List Answer
item_answers item is rest =
    gives (length (first_text item is)) (first_text item is) ∷ behind_first item is rest

-- A round that takes nothing but its message.
abbrev pub piece : Bytes → Item
piece p = record { text = p; taken = [] }

pub pieces_answers-item_answers :
    (ps : List Bytes) (rest : List Answer) → pieces_answers ps rest ≡ item_answers piece ps rest
pieces_answers-item_answers [] rest = refl
pieces_answers-item_answers (p ∷ ps) rest =
    ap (◌∷◌ (gives (length p) p)) (pieces_answers-item_answers ps rest)

-- One output behind the other.
abbrev pub outputs {ℓ} : {A : Type ℓ} → (A → Bytes) → List A → Bytes
outputs out [] = []
outputs out (i ∷ is) = out i ++ outputs out is

pub payload-outputs : (ps : List Bytes) → outputs c_str ps ≡ payload ps
payload-outputs [] = refl
payload-outputs (p ∷ ps) = ap (λ t. c_str p ++ t) (payload-outputs ps)

-- A run returns with these answers left, with this output behind what the log shows, and with `Q` of
-- the value.
abbrev pub Shows :
    {A : Type 0}
    → (A → Type 0)
    → (List Call → Bytes)
    → List Answer
    → List Call
    → Outcome A × World
    → Bytes
    → Type 0
Shows {A} Q shown rest log r out =
    (a : A) × (log' : List Call) × (r ≡ (returns a, record { answers = rest; log = log' }))
    × (shown log' ≡ shown log ++ out)
    × Q a

-- A state made of a buffer and of what `read` returned, which has just read this message.
abbrev pub Holds : {S : Type 0} → (Bytes → ℤ → S) → Bytes → S → Type 0
Holds {S} state text s =
    (buf : Bytes) × (length buf ≡ bufsiz) × (s ≡ state (read_into buf text) (pos (length text)))

-- A round goes on with this output and with the next message in the buffer.
abbrev pub GoesOn :
    {S : Type 0}
    → (S → Sys (Round S))
    → (List Call → Bytes)
    → (Bytes → S → Type 0)
    → Item
    → Bytes
    → Type 0
GoesOn {S} body shown Held i out =
    (s : S) (n : ℕ) (next : Bytes) (answers : List Answer) (log : List Call)
    → Held i.text s
    → length next < bufsiz
    → (s' : S) × (log' : List Call) × (body s
          (record { answers = i.taken ++ (gives n next ∷ answers); log = log })
        ≡ (returns (again s'), record { answers = answers; log = log' }))
      × (shown log' ≡ shown log ++ out)
      × Held next s'

module _ {I : Type 0} (V : I → Type 0) (item : I → Item) where
  pub first_text-short :
      ((i : I) → V i → length (item i).text < bufsiz)
      → (is : List I) → All V is
      → length (first_text item is) < bufsiz
  first_text-short short [] h = bufsiz_pos
  first_text-short short (i ∷ is) h = short i h.0

  module _ {S : Type 0} (body : S → Sys (Round S)) (shown : List Call → Bytes)
      (Held : Bytes → S → Type 0) (out : I → Bytes) (rest : List Answer) where
    -- A loop whose rounds go on with each message and leave at the end of the input shows the outputs
    -- of all messages in order.
    pub loop-Shows :
        ((s : S) (w : World) → Held [] s → body s w ≡ (returns (leave s), w))
        → ((i : I) → V i → length (item i).text < bufsiz)
        → ((i : I) → V i → GoesOn body shown Held (item i) (out i))
        → (is : List I) → All V is
        → (fuel : ℕ) (s : S) (log : List Call) → length is < fuel
        → Held (first_text item is) s
        → Shows
            (Held [])
            shown
            rest
            log
            (loop fuel body s (record { answers = behind_first item is rest; log = log }))
            (outputs out is)
    loop-Shows end short steps is v zero s log h k = absurd (omega arith)
    loop-Shows end short steps [] v (suc fuel) s log h k =
        (s, log, loop_leave fuel body (end s _ k), sym (append-nil _), k)
    loop-Shows end short steps (i ∷ is) v (suc fuel) s log h k =
        let next = first_text item is in
        let (s', log', step, e, k') =
          steps i v.0 s (length next) next (behind_first item is rest) log k
            (first_text-short short is v.1) in
        let (s'', log'', run, e', k'') =
          loop-Shows end short steps is v.1 fuel s' log' (omega arith) k' in
        (
          s'',
          log'',
          loop_again fuel body step ∙ run,
          e' ∙ ap (λ t. t ++ outputs out is) e ∙ append_assoc (shown log) (out i) (outputs out is),
          k'',
        )
