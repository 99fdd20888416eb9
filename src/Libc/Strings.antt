-- ===== src/Libc/Strings.antt =====
-- string.h on buffers: `strlen`, `strcmp`, `strstr`, and what `read` does to a buffer.
use Prim.Native.Char.{code}
use osy_materials.Prelude.{
  ℕ, zero, suc, ◌≤◌, ◌<◌, String, ◌≡◌, ◌≢◌, ◌↔◌, refl, ap, Bool, true, false, ◌&&◌, ◌||◌, List, [],
  ◌∷◌, ◌++◌, arith, ◌==◌, length, replicate, set, length-set, ◌∙◌, All,
}

abbrev pub Bytes : Type 0
Bytes = List ℕ

-- The bytes of a literal; every literal of the programs that is used this way is ASCII.
abbrev pub codes : String → Bytes
codes String.[] = []
codes (String.◌∷◌ c s) = code c ∷ codes s

-- The C string that starts at a buffer's first byte: all bytes before the first NUL.
abbrev pub c_str : Bytes → Bytes
c_str [] = []
c_str (zero ∷ cs) = []
c_str (suc c ∷ cs) = suc c ∷ c_str cs

abbrev pub strlen : Bytes → ℕ
strlen s = length (c_str s)

-- `strcmp(a, b) == 0` on strings.
unfoldable pub str_eq : Bytes → Bytes → Bool
str_eq [] [] = true
str_eq (a ∷ as') (b ∷ bs) = a == b && str_eq as' bs
str_eq _ _ = false

starts_with : Bytes → Bytes → Bool
starts_with s [] = true
starts_with [] (p ∷ ps) = false
starts_with (c ∷ cs) (p ∷ ps) = c == p && starts_with cs ps

-- `strstr(s, p) != NULL`
unfoldable pub contains : Bytes → Bytes → Bool
unfolding starts_with
contains [] p = starts_with [] p
contains (c ∷ cs) p = starts_with (c ∷ cs) p || contains cs p

-- `read` stores its bytes over the first bytes of the buffer and leaves the others as they were.
abbrev pub read_into : Bytes → Bytes → Bytes
read_into buf [] = buf
read_into [] (x ∷ xs) = []
read_into (b ∷ buf) (x ∷ xs) = x ∷ read_into buf xs

-- memset(buf, 0, n)
abbrev pub zero_fill : ℕ → Bytes → Bytes
zero_fill zero buf = buf
zero_fill (suc n) [] = []
zero_fill (suc n) (b ∷ buf) = 0 ∷ zero_fill n buf

-- `sprintf(buf, ...)` of a text, with its NUL, into a buffer that has room.
abbrev pub sprintf_into : Bytes → Bytes → Bytes
sprintf_into buf text = read_into buf (text ++ 0 ∷ [])

-- A string has no NUL byte inside.
abbrev pub HasNoNul : Bytes → Type 0
HasNoNul = All (λ c. c ≢ 0)

pub c_str-eq_self : (s : Bytes) → HasNoNul s → c_str s ≡ s
c_str-eq_self [] h = refl
c_str-eq_self (zero ∷ s) h = absurd (h.0 refl)
c_str-eq_self (suc c ∷ s) h = ap (◌∷◌ (suc c)) (c_str-eq_self s h.1)

pub c_str-HasNoNul : (s : Bytes) → HasNoNul (c_str s)
c_str-HasNoNul [] = tt
c_str-HasNoNul (zero ∷ s) = tt
c_str-HasNoNul (suc c ∷ s) = (λ e. omega arith, c_str-HasNoNul s)

pub length-read_into : (buf xs : Bytes) → length (read_into buf xs) ≡ length buf
length-read_into [] [] = refl
length-read_into (b ∷ buf) [] = refl
length-read_into [] (x ∷ xs) = refl
length-read_into (b ∷ buf) (x ∷ xs) = ap suc (length-read_into buf xs)

-- `buffer[bytes_read] = '\0'` after a `read` that left room: whatever the buffer held before, its
-- string is now what was read, up to the first NUL.
pub c_str-terminated :
    (buf xs : Bytes)
    → length xs < length buf
    → c_str (set (read_into buf xs) (length xs) 0) ≡ c_str xs
c_str-terminated [] xs h = absurd (omega arith)
c_str-terminated (b ∷ buf) [] h = refl
c_str-terminated (b ∷ buf) (zero ∷ xs) h = refl
c_str-terminated (b ∷ buf) (suc x ∷ xs) h = ap (◌∷◌ (suc x)) (c_str-terminated buf xs (omega arith))

-- That buffer.
abbrev pub terminated : Bytes → Bytes → Bytes
terminated buf xs = set (read_into buf xs) (length xs) 0

pub length-terminated : (buf xs : Bytes) → length (terminated buf xs) ≡ length buf
length-terminated buf xs = length-set (read_into buf xs) (length xs) 0 ∙ length-read_into buf xs

-- Without the terminator the old bytes show through behind what was read.
pub c_str-read_into :
    (buf xs : Bytes)
    → HasNoNul xs
    → length xs ≤ length buf
    → c_str (read_into buf xs) ≡ xs ++ c_str (osy_materials.Prelude.drop (length xs) buf)
c_str-read_into buf [] n h = refl
c_str-read_into [] (x ∷ xs) n h = absurd (omega arith)
c_str-read_into (b ∷ buf) (zero ∷ xs) n h = absurd (n.0 refl)
c_str-read_into (b ∷ buf) (suc x ∷ xs) n h =
    ap (◌∷◌ (suc x)) (c_str-read_into buf xs n.1 (omega arith))

pub str_eq_iff : (a b : Bytes) → (str_eq a b ≡ true) ↔ (a ≡ b)
unfolding str_eq
str_eq_iff (x ∷ a) (y ∷ b) = ground (arith, str_eq_iff a b)
str_eq_iff _ _ = ground arith

pub c_str-sprintf_into :
    (buf text : Bytes)
    → HasNoNul text
    → length text < length buf
    → c_str (sprintf_into buf text) ≡ text
c_str-sprintf_into [] text n h = absurd (omega arith)
c_str-sprintf_into (b ∷ buf) [] n h = refl
c_str-sprintf_into (b ∷ buf) (zero ∷ text) n h = absurd (n.0 refl)
c_str-sprintf_into (b ∷ buf) (suc x ∷ text) n h =
    ap (◌∷◌ (suc x)) (c_str-sprintf_into buf text n.1 (omega arith))

pub length-sprintf_into : (buf text : Bytes) → length (sprintf_into buf text) ≡ length buf
length-sprintf_into buf text = length-read_into buf (text ++ 0 ∷ [])

pub length-zero_fill : (n : ℕ) (buf : Bytes) → length (zero_fill n buf) ≡ length buf
length-zero_fill zero buf = refl
length-zero_fill (suc n) [] = refl
length-zero_fill (suc n) (b ∷ buf) = ap suc (length-zero_fill n buf)

-- After a `memset` the NUL behind what is read is there already.
pub c_str-zero_fill :
    (n : ℕ) (buf xs : Bytes)
    → HasNoNul xs
    → length xs < n
    → n ≤ length buf
    → c_str (read_into (zero_fill n buf) xs) ≡ xs
c_str-zero_fill zero buf xs z h k = absurd (omega arith)
c_str-zero_fill (suc n) [] xs z h k = absurd (omega arith)
c_str-zero_fill (suc n) (b ∷ buf) [] z h k = refl
c_str-zero_fill (suc n) (b ∷ buf) (zero ∷ xs) z h k = absurd (z.0 refl)
c_str-zero_fill (suc n) (b ∷ buf) (suc x ∷ xs) z h k =
    ap (◌∷◌ (suc x)) (c_str-zero_fill n buf xs z.1 (omega arith) (omega arith))

pub c_str-replicate :
    (n : ℕ) (xs : Bytes) → HasNoNul xs → length xs < n → c_str (read_into (replicate n 0) xs) ≡ xs
c_str-replicate zero xs z h = absurd (omega arith)
c_str-replicate (suc n) [] z h = refl
c_str-replicate (suc n) (zero ∷ xs) z h = absurd (z.0 refl)
c_str-replicate (suc n) (suc x ∷ xs) z h = ap (◌∷◌ (suc x)) (c_str-replicate n xs z.1 (omega arith))

pub c_str-zeros : (n : ℕ) → c_str (replicate n 0) ≡ []
c_str-zeros zero = refl
c_str-zeros (suc n) = refl

-- A string with a byte somewhere contains that byte.
pub contains-append : (w s : Bytes) (c : ℕ) → contains (w ++ c ∷ s) (c ∷ []) ≡ true
unfolding contains
contains-append [] s c = ground arith
contains-append (b ∷ w) s c = ground (arith, contains-append w s c)

-- A NUL over a byte of the string leaves the bytes in front of it.
pub c_str-cut :
    (b text rest : Bytes) (c : ℕ)
    → c_str b ≡ text ++ c ∷ rest
    → c_str (set b (length text) 0) ≡ text
c_str-cut [] [] rest c e = refl
c_str-cut (zero ∷ b) [] rest c e = refl
c_str-cut (suc x ∷ b) [] rest c e = refl
c_str-cut [] (t ∷ text) rest c e = cc
c_str-cut (zero ∷ b) (t ∷ text) rest c e = cc
c_str-cut (suc x ∷ b) (t ∷ text) rest c e =
    let h : c_str b ≡ text ++ c ∷ rest = cc in
    let k : suc x ≡ t = cc in
    ap (λ z. z ∷ c_str (set b (length text) 0)) k ∙ ap (◌∷◌ t) (c_str-cut b text rest c h)

-- A string is no longer than its buffer.
pub length-c_str : (b : Bytes) → length (c_str b) ≤ length b
length-c_str [] = omega arith
length-c_str (zero ∷ b) = omega arith
length-c_str (suc x ∷ b) = omega (arith, length-c_str b)

-- Both parts of a string without a NUL are without one.
pub append_HasNoNul : (a b : Bytes) → HasNoNul (a ++ b) → HasNoNul a × HasNoNul b
append_HasNoNul [] b h = (tt, h)
append_HasNoNul (c ∷ a) b h = let (z, zs) = append_HasNoNul a b h.1 in ((h.0, z), zs)
