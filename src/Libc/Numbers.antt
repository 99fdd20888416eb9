-- ===== src/Libc/Numbers.antt =====
-- `atoi`, `isdigit`, and `sprintf` with "%d" and "%lu". An `int` is its 32-bit pattern.
use osy_materials.Prelude.{
  ℕ, zero, suc, ◌+◌, ◌-◌, ◌*◌, ◌/◌, ◌%◌, ◌^◌, ◌≤◌, ◌<◌, ◌≡◌, refl, Bool, true, false, ◌&&◌, ◌||◌,
  [], ◌∷◌, arith, ltb, leb, ◌==◌, if◌then◌else◌, length, All, Bool-cases, inl, inr, ◌∙◌, ltb→lt,
}
use osy_materials.Libc.Strings.{Bytes, HasNoNul}

abbrev pub is_digit : ℕ → Bool
is_digit c = leb b'0' c && leb c b'9'

-- `isspace` in the C locale.
abbrev is_space : ℕ → Bool
is_space c = c == 32 || (leb 9 c && leb c 13)

-- The value of the leading digits, behind `n`.
pub digits_value : ℕ → Bytes → ℕ
digits_value n [] = n
digits_value n (c ∷ cs) = if is_digit c then digits_value (n * 10 + (c - b'0')) cs else n

skip_space : Bytes → Bytes
skip_space [] = []
skip_space (c ∷ cs) = if is_space c then skip_space cs else c ∷ cs

-- The pattern of the `int` that a `long` of this magnitude is cut to; `strtol` stops at the ends of
-- its range.
abbrev to_int : Bool → ℕ → ℕ
to_int true m = (2 ^ 64 - (if leb m (2 ^ 63) then m else 2 ^ 63)) % 2 ^ 32
to_int false m = (if ltb m (2 ^ 63) then m else 2 ^ 63 - 1) % 2 ^ 32

signed_value : Bytes → ℕ
signed_value [] = 0
signed_value (c ∷ cs) =
    if c == b'-'
    then to_int true (digits_value 0 cs)
    else if c == b'+'
    then to_int false (digits_value 0 cs)
    else to_int false (digits_value 0 (c ∷ cs))

unfoldable pub atoi : Bytes → ℕ
unfolding skip_space signed_value digits_value
atoi s = signed_value (skip_space s)

-- The digits of `n` in front of `out`, the last one first; none for 0.
digits_onto : ℕ → ℕ → Bytes → Bytes
digits_onto zero n out = out
digits_onto (suc fuel) n out =
    let rest = digits_onto fuel (n / 10) ((b'0' + n % 10) ∷ out) in if n == 0 then out else rest

-- "%lu" of a number: `n + 1` rounds are enough, since each divides by ten.
unfoldable pub decimal : ℕ → Bytes
unfolding digits_onto
decimal n = if n == 0 then b'0' ∷ [] else digits_onto (suc n) n []

-- "%d" of a 32-bit pattern.
unfoldable pub decimal_int : ℕ → Bytes
decimal_int p = if ltb p (2 ^ 31) then decimal p else b'-' ∷ decimal (2 ^ 32 - p)

digits_value-onto :
    (fuel n : ℕ) (out : Bytes)
    → n < fuel
    → digits_value 0 (digits_onto fuel n out) ≡ digits_value n out
unfolding digits_onto digits_value
digits_value-onto zero n out h = absurd (omega arith)
digits_value-onto (suc fuel) n out h =
    ground (arith, digits_value-onto fuel (n / 10) ((b'0' + n % 10) ∷ out))

-- Printing keeps the value.
pub digits_value-decimal : (n : ℕ) → digits_value 0 (decimal n) ≡ n
unfolding decimal digits_value
digits_value-decimal n = ground (arith, digits_value-onto (suc n) n [])

abbrev pub IsDigit : ℕ → Type 0
IsDigit c = (b'0' ≤ c) × (c ≤ b'9')

digits_onto-IsDigit :
    (fuel n : ℕ) (out : Bytes) → All IsDigit out → All IsDigit (digits_onto fuel n out)
unfolding digits_onto
digits_onto-IsDigit zero n out h = h
digits_onto-IsDigit (suc fuel) n out h = elim (Bool-cases (n == 0)) [
  | inl e ↦ rw e h
  | inr e ↦
      rw e
        (digits_onto-IsDigit fuel (n / 10) ((b'0' + n % 10) ∷ out) ((omega arith, omega arith), h))
]

digits_onto_zero : (fuel : ℕ) (out : Bytes) → digits_onto fuel 0 out ≡ out
unfolding digits_onto
digits_onto_zero zero out = refl
digits_onto_zero (suc fuel) out = refl

digits_onto_pos :
    (fuel n : ℕ) (out : Bytes)
    → 0 < n
    → digits_onto (suc fuel) n out ≡ digits_onto fuel (n / 10) ((b'0' + n % 10) ∷ out)
unfolding digits_onto
digits_onto_pos fuel n out h = ground arith

decimal-digits_onto : (n : ℕ) → 0 < n → decimal n ≡ digits_onto (suc n) n []
unfolding decimal
decimal-digits_onto n h = ground arith

-- "%lu" prints digits only.
pub decimal-IsDigit : (n : ℕ) → All IsDigit (decimal n)
decimal-IsDigit zero = unfold decimal in ((omega arith, omega arith), tt)
decimal-IsDigit (suc n) =
    rw (decimal-digits_onto (suc n) (omega arith)) (digits_onto-IsDigit (suc (suc n)) (suc n) [] tt)

length-digits_onto : (fuel n : ℕ) (out : Bytes) → length out ≤ length (digits_onto fuel n out)
length-digits_onto zero n out = unfold digits_onto in omega arith
length-digits_onto (suc fuel) zero out = rw digits_onto_zero (omega arith)
length-digits_onto (suc fuel) (suc n) out =
    rw (digits_onto_pos fuel (suc n) out (omega arith))
      (omega (arith, length-digits_onto fuel (suc n / 10) ((b'0' + suc n % 10) ∷ out)))

pub IsDigit-HasNoNul : (s : Bytes) → All IsDigit s → HasNoNul s
IsDigit-HasNoNul [] h = tt
IsDigit-HasNoNul (c ∷ s) h = (λ e. omega arith, IsDigit-HasNoNul s h.1)

-- At least one digit is printed.
pub decimal_pos : (n : ℕ) → 0 < length (decimal n)
decimal_pos zero = unfold decimal in omega arith
decimal_pos (suc n) = rw (decimal-digits_onto (suc n) (omega arith)) (
    rw (digits_onto_pos (suc n) (suc n) [] (omega arith))
      (length-digits_onto (suc n) (suc n / 10) ((b'0' + suc n % 10) ∷ [])))

decimal_tail :
    (m : ℕ)
    → 10 ≤ suc (suc m)
    → decimal (suc (suc m))
      ≡ digits_onto
          (suc m)
          (suc (suc m) / 10 / 10)
          ((b'0' + suc (suc m) / 10 % 10) ∷ (b'0' + suc (suc m) % 10) ∷ [])
decimal_tail m h =
    decimal-digits_onto (suc (suc m)) (omega arith)
    ∙ digits_onto_pos (suc (suc m)) (suc (suc m)) [] (omega arith)
    ∙ digits_onto_pos (suc m) (suc (suc m) / 10) _ (omega arith)

-- Three digits or more from 100 on.
pub decimal_long : (n : ℕ) → 100 ≤ n → 3 ≤ length (decimal n)
decimal_long (suc (suc m)) h =
    rw (decimal_tail m (omega arith))
      (rw (digits_onto_pos m (suc (suc m) / 10 / 10) _ (omega arith)) (length-digits_onto m _ _))
decimal_long _ h = absurd (omega arith)

pub decimal_two : (n : ℕ) → 10 ≤ n → n < 100 → length (decimal n) ≡ 2
decimal_two (suc (suc m)) h k =
    let e : suc (suc m) / 10 / 10 ≡ 0 = omega arith in
    rw (decimal_tail m (omega arith)) (rw e (rw digits_onto_zero))
decimal_two _ h k = absurd (omega arith)

pub decimal_one : (n : ℕ) → n < 10 → length (decimal n) ≡ 1
decimal_one zero h = unfold decimal in refl
decimal_one (suc n) h =
    let e : suc n / 10 ≡ 0 = omega arith in
    rw (decimal-digits_onto (suc n) (omega arith))
      (rw (digits_onto_pos (suc n) (suc n) [] (omega arith)) (rw e (rw digits_onto_zero)))

IsDigit-atoi : (s : Bytes) → 0 < length s → All IsDigit s → atoi s ≡ to_int false (digits_value 0 s)
unfolding atoi
IsDigit-atoi [] p h = absurd (omega arith)
IsDigit-atoi (c ∷ s) p h = ground arith

minus-atoi : (s : Bytes) → atoi (b'-' ∷ s) ≡ to_int true (digits_value 0 s)
unfolding atoi
minus-atoi s = refl

to_int_small : (p : ℕ) → p < 2 ^ 31 → to_int false p ≡ p
to_int_small p h = ground arith

to_int_minus : (p : ℕ) → 2 ^ 31 ≤ p → p < 2 ^ 32 → to_int true (2 ^ 32 - p) ≡ p
to_int_minus p h k = ground arith

-- What "%d" prints, `atoi` reads back.
pub atoi-decimal_int : (p : ℕ) → p < 2 ^ 32 → atoi (decimal_int p) ≡ p
unfolding decimal_int
atoi-decimal_int p h = elim (Bool-cases (ltb p (2 ^ 31))) [
  | inl e ↦ rw e (
      IsDigit-atoi (decimal p) (decimal_pos p) (decimal-IsDigit p)
      ∙ rw (digits_value-decimal p) (to_int_small p (ltb→lt _ _ e)))
  | inr e ↦ rw e (
      minus-atoi (decimal (2 ^ 32 - p))
      ∙ rw (digits_value-decimal (2 ^ 32 - p)) (to_int_minus p (ground arith) h))
]

digits_onto-le :
    (k fuel n : ℕ) (out : Bytes) → n < 10 ^ k → length (digits_onto fuel n out) ≤ k + length out
digits_onto-le k zero n out h = unfold digits_onto in omega arith
digits_onto-le k (suc fuel) zero out h = rw digits_onto_zero (omega arith)
digits_onto-le zero (suc fuel) (suc n) out h = absurd (omega arith)
digits_onto-le (suc k) (suc fuel) (suc n) out h =
    rw (digits_onto_pos fuel (suc n) out (omega arith))
      (omega (arith, digits_onto-le k fuel (suc n / 10) ((b'0' + suc n % 10) ∷ out) (ground arith)))

-- An `int` takes at most eleven characters.
length-decimal : (n : ℕ) → n < 10 ^ 10 → length (decimal n) ≤ 10
length-decimal zero h = rw (decimal_one zero (omega arith)) (omega arith)
length-decimal (suc n) h =
    rw (decimal-digits_onto (suc n) (omega arith))
      (omega (arith, digits_onto-le 10 (suc (suc n)) (suc n) [] h))

pub length-decimal_int : (p : ℕ) → p < 2 ^ 32 → length (decimal_int p) ≤ 11
unfolding decimal_int
length-decimal_int p h = elim (Bool-cases (ltb p (2 ^ 31))) [
  | inl e ↦ rw e (omega (arith, length-decimal p (omega arith)))
  | inr e ↦ rw e (omega (arith, length-decimal (2 ^ 32 - p) (omega arith)))
]

-- What "%d" prints holds no NUL, and no '*'.
IsDigit-All : (P : ℕ → Type 0) (s : Bytes) → ((c : ℕ) → IsDigit c → P c) → All IsDigit s → All P s
IsDigit-All P [] f h = tt
IsDigit-All P (c ∷ s) f h = (f c h.0, IsDigit-All P s f h.1)

pub decimal_int-All :
    (P : ℕ → Type 0) (p : ℕ) → ((c : ℕ) → IsDigit c → P c) → P b'-' → All P (decimal_int p)
unfolding decimal_int
decimal_int-All P p f m = elim (Bool-cases (ltb p (2 ^ 31))) [
  | inl e ↦ rw e (IsDigit-All P (decimal p) f (decimal-IsDigit p))
  | inr e ↦ rw e (m, IsDigit-All P (decimal (2 ^ 32 - p)) f (decimal-IsDigit (2 ^ 32 - p)))
]

pub decimal_int-nonempty : (p : ℕ) → 0 < length (decimal_int p)
unfolding decimal_int
decimal_int-nonempty p = elim (Bool-cases (ltb p (2 ^ 31))) [
  | inl e ↦ rw e (decimal_pos p)
  | inr e ↦ rw e (omega arith)
]
