-- ===== src/Calculator/Session.antt =====
-- A client's whole session: the replies to its products.
use osy_materials.Prelude.{
  ℕ, ◌+◌, ◌*◌, ◌%◌, ◌^◌, ◌<◌, ◌≤◌, ◌≡◌, ℤ, pos, true, List, [], ◌∷◌, ◌++◌, length,
}
use osy_materials.Libc.Strings.{Bytes, c_str, terminated, read_into}
use osy_materials.Libc.Numbers.{decimal_int}
use osy_materials.Sys.{Answer, gives, Call, read, write, print_str, print_int, bufsiz}
use osy_materials.Sys.Pieces.{Item, item_answers}
use osy_materials.Calculator.{State, fits_int}

-- Two `int`s, by their 32-bit patterns, that a client asks the product of. The product is an `int`.
pub record Factors : Type 0 where
  pub left : ℕ
  pub right : ℕ

abbrev pub IsValid : Factors → Type 0
IsValid f = (f.left < 2 ^ 32) × (f.right < 2 ^ 32) × (fits_int f.left f.right ≡ true)

-- The client's message, and the reply to it.
abbrev pub question : Factors → Bytes
question f = decimal_int f.left ++ b'*' ∷ decimal_int f.right

abbrev pub product : Factors → Bytes
product f = decimal_int (f.left * f.right % 2 ^ 32)

abbrev pub item : Factors → Item
item f = record { text = question f; taken = [] }

-- The state behind a `read` of this text.
abbrev state : Bytes → Bytes → ℕ → State
state b text c = record { buffer = read_into b text; read_bytes = pos (length text); counter = c }

module _ (client : ℤ) where
  reply_log : Bytes → Factors → List Call → List Call
  reply_log b f log =
      read client bufsiz
      ∷ write client (product f)
      ∷ print_int "Interpred as: %d\n" (f.left * f.right % 2 ^ 32)
      ∷ print_str "Read from client %s\n" (c_str (terminated b (question f)))
      ∷ log

  -- A message has been read, and it is not the first.
  abbrev Held : Bytes → State → Type 0
  Held text s = (b : Bytes) × (c : ℕ) × (length b ≡ bufsiz + 1) × (1 ≤ c) × (s ≡ state b text c)

-- The answers while the semaphore is free and a client asks for these products and leaves.
abbrev pub session_answers : Factors → List Factors → List Answer
session_answers f fs =
    gives (length (question f)) (question f) ∷ gives 0 [] ∷ item_answers item fs []
