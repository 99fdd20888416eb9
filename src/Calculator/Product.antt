-- ===== src/Calculator/Product.antt =====
-- The reply to a product.
use osy_materials.Prelude.{
  ℕ, ◌*◌, ◌%◌, ◌^◌, ◌<◌, ◌≤◌, ◌≡◌, ◌≢◌, refl, ap, ◌∙◌, ℤ, true, false, some, List, [], ◌∷◌, ◌++◌,
  ◌==◌, length, arith,
}
use osy_materials.Libc.Strings.{
  Bytes, c_str, c_str-sprintf_into, contains-append, HasNoNul, sprintf_into,
}
use osy_materials.Libc.Tokens.{IsToken, strtok, strtok-append, strtok_last}
use osy_materials.Libc.Numbers.{
  atoi, decimal_int, atoi-decimal_int, length-decimal_int, decimal_int-All, decimal_int-nonempty,
}
use osy_materials.Sys.{Answer, Call, write, print_int, World, returns}
use osy_materials.Calculator.{multiply, calculate, fits_int}

decimal_int-IsToken : (p : ℕ) → IsToken b'*' (decimal_int p)
decimal_int-IsToken p = (
  λ e. omega (arith, decimal_int-nonempty p, ap length e),
  decimal_int-All (λ c. (c == b'*') ≡ false) p (λ c d. ground arith) refl,
)

pub decimal_int-HasNoNul : (p : ℕ) → HasNoNul (decimal_int p)
decimal_int-HasNoNul p = decimal_int-All (λ c. c ≢ 0) p (λ c d e. omega arith) (λ e. omega arith)

multiply_lem :
    (client : ℤ) (buf a b r r' : Bytes) (w : World)
    → strtok b'*' (c_str buf) ≡ some (a, r)
    → strtok b'*' r ≡ some (b, r')
    → fits_int (atoi a) (atoi b) ≡ true
    → let p = atoi a * atoi b % 2 ^ 32 in
      multiply client buf w ≡ (
        returns (sprintf_into buf (decimal_int p)),
        record w {
          log =
              write client (c_str (sprintf_into buf (decimal_int p)))
              ∷ print_int "Interpred as: %d\n" p
              ∷ w.log;
        },
      )
unfolding multiply
multiply_lem client buf a b r r' w h k f = rw (h, multiply) (rw (k, multiply) (rw f refl))

pub calculate_lem :
    (m n : ℕ) (client : ℤ) (buf : Bytes) (w : World)
    → m < 2 ^ 32
    → n < 2 ^ 32
    → fits_int m n ≡ true
    → c_str buf ≡ decimal_int m ++ b'*' ∷ decimal_int n
    → 12 ≤ length buf
    → let p = m * n % 2 ^ 32 in
      calculate client buf w ≡ (
        returns (sprintf_into buf (decimal_int p)),
        record w { log = write client (decimal_int p) ∷ print_int "Interpred as: %d\n" p ∷ w.log },
      )
unfolding calculate
calculate_lem m n client buf w h k fits e l =
    let p = m * n % 2 ^ 32 in
    let text : c_str (sprintf_into buf (decimal_int p)) ≡ decimal_int p =
      c_str-sprintf_into buf (decimal_int p) (decimal_int-HasNoNul p)
        (omega (arith, length-decimal_int p (omega arith))) in
    rw e (
      rw (contains-append (decimal_int m) (decimal_int n) b'*') (
        multiply_lem client buf (decimal_int m) (decimal_int n) (decimal_int n) [] w
          (ap (strtok b'*') e
            ∙ strtok-append b'*' (decimal_int m) (decimal_int n) (decimal_int-IsToken m))
          (strtok_last b'*' (decimal_int n) (decimal_int-IsToken n))
          (rw (atoi-decimal_int m h) (rw (atoi-decimal_int n k) fits))
        ∙ rw (atoi-decimal_int m h) (rw (atoi-decimal_int n k) (rw text))))

-- To the decimal forms of two `int`s with a '*' between them the server replies with a text that
-- `atoi` reads as their product, where this is an `int`; nothing else is sent, and the buffer holds the text.
pub calculate-product :
    (m n : ℕ) (client : ℤ) (buf : Bytes) (answers : List Answer) (log : List Call)
    → m < 2 ^ 32
    → n < 2 ^ 32
    → fits_int m n ≡ true
    → c_str buf ≡ decimal_int m ++ b'*' ∷ decimal_int n
    → 12 ≤ length buf
    → (out : Bytes) × (buf' : Bytes) × (calculate client buf
          (record { answers = answers; log = log })
        ≡ (
          returns buf',
          record {
            answers = answers;
            log = write client out ∷ print_int "Interpred as: %d\n" (m * n % 2 ^ 32) ∷ log;
          },
        ))
      × (c_str buf' ≡ out)
      × (atoi out ≡ m * n % 2 ^ 32)
calculate-product m n client buf answers log h k f e l =
    let p = m * n % 2 ^ 32 in
    (
      decimal_int p,
      sprintf_into buf (decimal_int p),
      calculate_lem m n client buf _ h k f e l,
      c_str-sprintf_into buf (decimal_int p) (decimal_int-HasNoNul p)
          (omega (arith, length-decimal_int p (omega arith))),
      atoi-decimal_int p (omega arith),
    )
