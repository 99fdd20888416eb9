-- ===== src/Sys/Lines.antt =====
-- What `fgets` leaves of a line that fits.
use osy_materials.Prelude.{
  ℕ, ◌+◌, ◌-◌, ◌<◌, ◌≡◌, ap, ◌∙◌, [], ◌∷◌, ◌++◌, length, take-eq_of_le, arith,
}
use osy_materials.Libc.Strings.{
  Bytes, c_str, HasNoNul, read_into, sprintf_into, c_str-sprintf_into, length-sprintf_into,
}
use osy_materials.Sys.{gives, line_into, bufsiz}

-- A line for the `fgets` calls of the programs, all with the size `BUFSIZ - 1`.
abbrev pub IsLine : Bytes → Type 0
IsLine l = HasNoNul l × (length l + 1 < bufsiz)

pub line_into-sprintf_into :
    (buf l : Bytes) (n : ℕ)
    → length l + 1 < bufsiz
    → line_into (bufsiz - 1) buf (gives n l) ≡ sprintf_into buf l
line_into-sprintf_into buf l n h =
    ap (λ t. read_into buf (t ++ 0 ∷ [])) (take-eq_of_le (bufsiz - 1 - 1) l (omega arith))

pub length-line_into :
    (buf l : Bytes) (n : ℕ)
    → length l + 1 < bufsiz
    → length (line_into (bufsiz - 1) buf (gives n l)) ≡ length buf
length-line_into buf l n h =
    ap length (line_into-sprintf_into buf l n h) ∙ length-sprintf_into buf l

pub c_str-line_into :
    (buf l : Bytes) (n : ℕ)
    → IsLine l
    → length buf ≡ bufsiz
    → c_str (line_into (bufsiz - 1) buf (gives n l)) ≡ l
c_str-line_into buf l n (z, h) b =
    ap c_str (line_into-sprintf_into buf l n h) ∙ c_str-sprintf_into buf l z (omega arith)
