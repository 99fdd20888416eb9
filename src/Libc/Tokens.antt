-- ===== src/Libc/Tokens.antt =====
-- `strtok` with a delimiter of one byte, and the loop over all tokens. Every call in the programs
-- passes such a delimiter.
use osy_materials.Prelude.{
  ℕ, zero, suc, ◌+◌, ◌*◌, ◌≤◌, ◌<◌, ◌≡◌, ◌≢◌, refl, ap, ◌∙◌, Bool-cases, ◌⊎◌, inl, inr, sym, false,
  Option, none, some, List, [], ◌∷◌, ◌++◌, arith, ◌==◌, if◌then◌else◌, length, All,
}
use osy_materials.Libc.Strings.{Bytes}

-- Leading delimiters are skipped.
skip : ℕ → Bytes → Bytes
skip d [] = []
skip d (c ∷ cs) = if c == d then skip d cs else c ∷ cs

-- The bytes before the next delimiter.
word : ℕ → Bytes → Bytes
word d [] = []
word d (c ∷ cs) = if c == d then [] else c ∷ word d cs

-- The bytes behind the next delimiter, where the following call goes on.
after : ℕ → Bytes → Bytes
after d [] = []
after d (c ∷ cs) = if c == d then cs else after d cs

next_token : ℕ → Bytes → Option (Bytes × Bytes)
next_token d [] = none
next_token d (c ∷ cs) = some (c ∷ word d cs, after d cs)

-- `strtok(s, d)`: the token and the string at the saved position, or NULL. `strtok(NULL, d)` is the
-- same call on the saved string.
unfoldable pub strtok : ℕ → Bytes → Option (Bytes × Bytes)
unfolding skip word after next_token
strtok d s = next_token d (skip d s)

-- for (t = strtok(s, d); t; t = strtok(NULL, d)): each round takes at least one byte.
pub tokens_from : ℕ → ℕ → Bytes → List Bytes
tokens_from zero d s = []
tokens_from (suc fuel) d s = elim (strtok d s) [
  | none ↦ []
  | some (t, rest) ↦ t ∷ tokens_from fuel d rest
]

unfoldable pub tokens : ℕ → Bytes → List Bytes
unfolding tokens_from strtok
tokens d s = tokens_from (suc (length s)) d s

-- The specification: the fields between delimiters, first the one in front, then the others.
fields : ℕ → Bytes → Bytes × List Bytes
fields d [] = ([], [])
fields d (c ∷ cs) =
    let rest = fields d cs in if c == d then ([], rest.0 ∷ rest.1) else (c ∷ rest.0, rest.1)

nonempty : List Bytes → List Bytes
nonempty [] = []
nonempty ([] ∷ ws) = nonempty ws
nonempty ((c ∷ w) ∷ ws) = (c ∷ w) ∷ nonempty ws

-- The fields that are not empty.
unfoldable pub words : ℕ → Bytes → List Bytes
unfolding fields nonempty
words d s = nonempty ((fields d s).0 ∷ (fields d s).1)

words-skip : (d : ℕ) (s : Bytes) → words d (skip d s) ≡ words d s
unfolding words skip
words-skip d [] = refl
words-skip d (c ∷ cs) = ground (arith, words-skip d cs)

word-fields : (d : ℕ) (s : Bytes) → (fields d s).0 ≡ word d s
unfolding fields word
word-fields d [] = refl
word-fields d (c ∷ cs) = ground (arith, word-fields d cs)

words-after : (d : ℕ) (s : Bytes) → nonempty (fields d s).1 ≡ words d (after d s)
unfolding words after
words-after d [] = refl
words-after d (c ∷ cs) = ground (arith, words-after d cs)

length-after : (d : ℕ) (s : Bytes) → length (after d s) ≤ length s
unfolding after
length-after d [] = omega arith
length-after d (c ∷ cs) = ground (arith, length-after d cs)

length-skip : (d : ℕ) (s : Bytes) → length (skip d s) ≤ length s
unfolding skip
length-skip d [] = omega arith
length-skip d (c ∷ cs) = ground (arith, length-skip d cs)

skip_ne : (d : ℕ) (s cs : Bytes) (c : ℕ) → skip d s ≡ c ∷ cs → (c == d) ≡ false
unfolding skip
skip_ne d [] cs c e = cc
skip_ne d (b ∷ s) cs c e = elim (Bool-cases (b == d)) [
  | inl y ↦ skip_ne d s cs c (rw y at e)
  | inr n ↦ ground arith
]

words_cons :
    (d c : ℕ) (cs : Bytes)
    → (c == d) ≡ false
    → words d (c ∷ cs) ≡ (c ∷ word d cs) ∷ words d (after d cs)
words_cons d c cs h = rw (← words-after d cs) (rw (← word-fields d cs) (unfold words in rw h))

abbrev pub Lacks : ℕ → Bytes → Type 0
Lacks d = All (λ c. (c == d) ≡ false)

-- A token is a nonempty string without the delimiter.
abbrev pub IsToken : ℕ → Bytes → Type 0
IsToken d w = (w ≢ []) × Lacks d w

word-Lacks : (d : ℕ) (s : Bytes) → Lacks d (word d s)
unfolding word
word-Lacks d [] = tt
word-Lacks d (c ∷ cs) = elim (Bool-cases (c == d)) [
  | inl e ↦ rw e tt
  | inr e ↦ rw e (e, word-Lacks d cs)
]

-- What one call of `strtok` does, in terms of the words of the string.
pub record Cut (d : ℕ) (s t rest : Bytes) : Type 0 where
  pub result : strtok d s ≡ some (t, rest)
  pub token : IsToken d t
  pub others : words d s ≡ t ∷ words d rest
  pub shorter : length rest < length s

strtok_skipped :
    (d : ℕ) (s r : Bytes)
    → skip d s ≡ r
    → ((strtok d s ≡ none) × (words d s ≡ [])) ⊎ ((t : Bytes) × (rest : Bytes) × Cut d s t rest)
strtok_skipped d s [] e =
    inl (unfold strtok in rw e, sym (words-skip d s) ∙ rw e (unfold words in refl))
strtok_skipped d s (c ∷ cs) e = inr (
  c ∷ word d cs,
  after d cs,
  record {
    result = unfold strtok in rw e;
    token = (λ x. cc, (skip_ne d s cs c e, word-Lacks d cs));
    others = sym (words-skip d s) ∙ rw e (words_cons d c cs (skip_ne d s cs c e));
    shorter = omega (arith, length-after d cs, length-skip d s, ap length e);
  },
)

pub strtok_cases :
    (d : ℕ) (s : Bytes)
    → ((strtok d s ≡ none) × (words d s ≡ [])) ⊎ ((t : Bytes) × (rest : Bytes) × Cut d s t rest)
strtok_cases d s = strtok_skipped d s (skip d s) refl

tokens_from-words : (fuel d : ℕ) (s : Bytes) → length s < fuel → tokens_from fuel d s ≡ words d s
unfolding tokens_from
tokens_from-words zero d s h = absurd (omega arith)
tokens_from-words (suc fuel) d s h = elim (strtok_cases d s) [
  | inl (e, w) ↦ rw (e, tokens_from) (sym w)
  | inr (t, rest, cut) ↦
      rw (cut.result, tokens_from)
        (ap (◌∷◌ t) (tokens_from-words fuel d rest (omega (arith, cut.shorter))) ∙ sym cut.others)
]

-- The `strtok` loop yields exactly the nonempty fields between the delimiters.
pub tokens-words : (d : ℕ) (s : Bytes) → tokens d s ≡ words d s
unfolding tokens
tokens-words d s = tokens_from-words (suc (length s)) d s (omega arith)

-- The words with one delimiter behind each.
abbrev pub join : ℕ → List Bytes → Bytes
join d [] = []
join d (w ∷ ws) = w ++ (d ∷ join d ws)

tokens_from-IsToken : (fuel d : ℕ) (s : Bytes) → All (IsToken d) (tokens_from fuel d s)
unfolding tokens_from
tokens_from-IsToken zero d s = tt
tokens_from-IsToken (suc fuel) d s = elim (strtok_cases d s) [
  | inl (e, _) ↦ rw (e, tokens_from) tt
  | inr (t, rest, cut) ↦ rw (cut.result, tokens_from) (cut.token, tokens_from-IsToken fuel d rest)
]

pub tokens-IsToken : (d : ℕ) (s : Bytes) → All (IsToken d) (tokens d s)
unfolding tokens
tokens-IsToken d s = tokens_from-IsToken (suc (length s)) d s

word-append : (d : ℕ) (w s : Bytes) → Lacks d w → word d (w ++ d ∷ s) ≡ w
unfolding word
word-append d [] s h = ground arith
word-append d (c ∷ w) s h = ground (arith, word-append d w s h.1)

after-append : (d : ℕ) (w s : Bytes) → Lacks d w → after d (w ++ d ∷ s) ≡ s
unfolding after
after-append d [] s h = ground arith
after-append d (c ∷ w) s h = ground (arith, after-append d w s h.1)

words-join_cons : (d : ℕ) (w s : Bytes) → IsToken d w → words d (w ++ d ∷ s) ≡ w ∷ words d s
words-join_cons d [] s h = absurd (h.0 refl)
words-join_cons d (c ∷ w) s h =
    rw (words_cons d c (w ++ d ∷ s) h.1.0)
      (rw (word-append d w s h.1.1) (rw (after-append d w s h.1.1)))

words-join : (d : ℕ) (ws : List Bytes) → All (IsToken d) ws → words d (join d ws) ≡ ws
words-join d [] h = (unfold words in refl)
words-join d (w ∷ ws) h = words-join_cons d w (join d ws) h.0 ∙ ap (◌∷◌ w) (words-join d ws h.1)

-- Splitting what was joined gives the words back.
pub tokens-join : (d : ℕ) (ws : List Bytes) → All (IsToken d) ws → tokens d (join d ws) ≡ ws
tokens-join d ws h = tokens-words d (join d ws) ∙ words-join d ws h

-- One call on a token with the delimiter behind it, and on the last token.
pub strtok-append : (d : ℕ) (w s : Bytes) → IsToken d w → strtok d (w ++ d ∷ s) ≡ some (w, s)
unfolding strtok
strtok-append d [] s h = absurd (h.0 refl)
strtok-append d (c ∷ w) s h =
    rw h.1.0 (rw (word-append d w s h.1.1) (rw (after-append d w s h.1.1)))

word_all : (d : ℕ) (w : Bytes) → Lacks d w → word d w ≡ w
unfolding word
word_all d [] h = refl
word_all d (c ∷ w) h = rw h.0 (ap (◌∷◌ c) (word_all d w h.1))

after_all : (d : ℕ) (w : Bytes) → Lacks d w → after d w ≡ []
unfolding after
after_all d [] h = refl
after_all d (c ∷ w) h = rw h.0 (after_all d w h.1)

pub strtok_last : (d : ℕ) (w : Bytes) → IsToken d w → strtok d w ≡ some (w, [])
unfolding strtok
strtok_last d [] h = absurd (h.0 refl)
strtok_last d (c ∷ w) h = rw h.1.0 (rw (word_all d w h.1.1) (rw (after_all d w h.1.1)))

-- Each word takes two bytes with its delimiter, which the last one may lack.
fields_count :
    (d : ℕ) (s : Bytes)
    → (2 * length (nonempty (fields d s).1) ≤ length s)
      × (2 * length (nonempty ((fields d s).0 ∷ (fields d s).1)) ≤ length s + 1)
unfolding fields nonempty
fields_count d [] = (omega arith, omega arith)
fields_count d (c ∷ cs) = elim (Bool-cases (c == d)) [
  | inl e ↦ rw e (omega (arith, fields_count d cs), omega (arith, fields_count d cs))
  | inr e ↦ rw e (omega (arith, fields_count d cs), omega (arith, fields_count d cs))
]

pub length-words : (d : ℕ) (s : Bytes) → 2 * length (words d s) ≤ length s + 1
unfolding words
length-words d s = (fields_count d s).1
