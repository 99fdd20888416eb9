-- ===== src/Sys/Log.antt =====
-- What a log shows: the bytes written to a descriptor, in the order of the calls.
use osy_materials.Prelude.{
  ℕ, ◌+◌, ◌<◌, length, ◌≡◌, refl, ap, ◌∙◌, ℤ, pos, negsuc, Bool, true, false, List, [], ◌∷◌, ◌++◌,
  ◌==◌, if◌then◌else◌, arith, take, take-eq_of_le, All, ◌-◌, Bool-cases, inl, inr,
}
use osy_materials.Libc.Strings.{Bytes, c_str, HasNoNul, c_str-eq_self, append_HasNoNul}
use osy_materials.Sys.{Answer, fail, gives, Call, accept, write, print_str, bufsiz, World, Outcome}

abbrev pub same_fd : ℤ → ℤ → Bool
same_fd (pos a) (pos b) = a == b
same_fd (negsuc a) (negsuc b) = a == b
same_fd _ _ = false

abbrev pub written : ℤ → List Call → Bytes
written fd [] = []
written fd (write d xs ∷ log) = written fd log ++ (if same_fd fd d then xs else [])
written fd (_ ∷ log) = written fd log

pub same_fd_self : (fd : ℤ) → same_fd fd fd ≡ true
same_fd_self (pos a) = ground arith
same_fd_self (negsuc a) = ground arith

pub same_fd_comm : (a b : ℤ) → same_fd a b ≡ same_fd b a
same_fd_comm a b = ground arith

-- The messages that the reads of `count` bytes deliver, up to the first that delivers nothing.
abbrev pub message_of : Bytes → List Bytes → List Bytes
message_of [] later = []
message_of (x ∷ xs) later = (x ∷ xs) ∷ later

abbrev pub messages : ℕ → List Answer → List Bytes
messages count [] = []
messages count (fail ∷ rest) = []
messages count (gives n xs ∷ rest) = message_of (take count xs) (messages count rest)

-- The bytes of the messages as C strings, one after the other.
abbrev pub payload : List Bytes → Bytes
payload [] = []
payload (m ∷ ms) = c_str m ++ payload ms

abbrev pub joined : List Bytes → Bytes
joined [] = []
joined (m ∷ ms) = m ++ joined ms

-- Without a NUL the strings are all of the bytes.
pub payload-joined : (ms : List Bytes) → HasNoNul (joined ms) → payload ms ≡ joined ms
payload-joined [] h = refl
payload-joined (m ∷ ms) h =
    let (z, zs) = append_HasNoNul m (joined ms) h in
    ap (λ t. t ++ payload ms) (c_str-eq_self m z) ∙ ap (λ t. m ++ t) (payload-joined ms zs)

-- What a run has written to a descriptor in the end.
abbrev pub output {ℓ} : {A : Type ℓ} → ℤ → Outcome A × World → Bytes
output fd r = written fd r.1.log

-- The bytes that go to `fd` when they are written to `save`.
abbrev pub for_fd : ℤ → ℤ → Bytes → Bytes
for_fd fd save xs = if same_fd fd save then xs else []

pub for_fd_nil : (fd save : ℤ) → [] ≡ for_fd fd save []
for_fd_nil fd save = elim (Bool-cases (same_fd fd save)) [ inl e ↦ rw e | inr e ↦ rw e ]

pub for_fd-append :
    (fd save : ℤ) (xs ys : Bytes)
    → for_fd fd save xs ++ for_fd fd save ys ≡ for_fd fd save (xs ++ ys)
for_fd-append fd save xs ys = elim (Bool-cases (same_fd fd save)) [ inl e ↦ rw e | inr e ↦ rw e ]

-- A sum over the calls.
abbrev pub count_calls : (Call → ℕ) → List Call → ℕ
count_calls f [] = 0
count_calls f (c ∷ log) = f c + count_calls f log

-- A piece is what one `read` of at most `BUFSIZ - 1` bytes delivers.
abbrev pub IsPiece : Bytes → Type 0
IsPiece p = (0 < length p) × (length p < bufsiz)

-- The answers while the input is read in these pieces.
abbrev pub pieces_answers : List Bytes → List Answer → List Answer
pieces_answers [] rest = gives 0 [] ∷ rest
pieces_answers (p ∷ ps) rest = gives (length p) p ∷ pieces_answers ps rest

-- What `printf` has printed of the strings it was given.
abbrev pub printed : List Call → Bytes
printed [] = []
printed (print_str text xs ∷ log) = printed log ++ xs
printed (_ ∷ log) = printed log

abbrev pub is_accept : Call → ℕ
is_accept (accept fd) = 1
is_accept _ = 0

-- The calls of `accept` that a log shows.
abbrev pub accepts : List Call → ℕ
accepts = count_calls is_accept

-- These reads deliver the pieces.
pub messages-pieces_answers :
    (ms : List Bytes) (rest : List Answer)
    → All IsPiece ms
    → messages (bufsiz - 1) (pieces_answers ms rest) ≡ ms
messages-pieces_answers [] rest h = rw (take-eq_of_le {A = ℕ} (bufsiz - 1) [] (omega arith)) refl
messages-pieces_answers ([] ∷ ms) rest h = absurd (omega (arith, h.0.0))
messages-pieces_answers ((x ∷ xs) ∷ ms) rest h =
    rw (take-eq_of_le (bufsiz - 1) (x ∷ xs) (omega (arith, h.0.1)))
      (ap (◌∷◌ (x ∷ xs)) (messages-pieces_answers ms rest h.1))
