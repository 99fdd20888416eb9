-- ===== src/Cnt/Counts.antt =====
-- What the counting functions of op_systems/cv1/cnt2.cpp count.
use osy_materials.Prelude.{
  ℕ, zero, suc, ◌+◌, ◌-◌, ◌%◌, ◌^◌, ◌<◌, ◌≡◌, refl, sym, ap, ◌∙◌, pos, List, [], ◌∷◌, ◌++◌, length,
  length-append, take-eq_of_le, arith, lt→ltb, All,
}
use osy_materials.Libc.Strings.{
  terminated, length-terminated, Bytes, c_str, c_str-eq_self, strlen, HasNoNul, read_into,
  length-read_into, c_str-terminated,
}
use osy_materials.Libc.Tokens.{tokens, tokens-words, words}
use osy_materials.Sys.{Answer, gives, Call, read, World, Outcome, returns, stdin_fd, bufsiz}
use osy_materials.Sys.Log.{IsPiece, pieces_answers}
use osy_materials.Sys.Loop.{again, leave, loop, loop_again, loop_leave}
use osy_materials.Cnt.{
  State, add_int, count_round, count_input, count_chars, count_words, count_lines, no_tokens, one,
}

-- The sum over the pieces.
abbrev pub total : (Bytes → ℕ) → List Bytes → ℕ
total amount [] = 0
total amount (p ∷ ps) = amount (c_str p) + total amount ps

abbrev state_of : Bytes → Bytes → ℕ → State
state_of buf xs c = record { buffer = read_into buf xs; read_bytes = pos (length xs); count = c }

module _ (amount : Bytes → ℕ) where
  count_round_lem :
      (c x : ℕ) (buf xs ys : Bytes) (n : ℕ) (answers : List Answer) (log : List Call)
      → length (x ∷ xs) < length buf
      → length ys < bufsiz
      → count_round amount
          (state_of buf (x ∷ xs) c)
          (record { answers = gives n ys ∷ answers; log = log })
        ≡ (
          returns
              (again (state_of (terminated buf (x ∷ xs)) ys (add_int c (amount (c_str (x ∷ xs)))))),
          record { answers = answers; log = read stdin_fd (bufsiz - 1) ∷ log },
        )
  unfolding count_round
  count_round_lem c x buf xs ys n answers log h k = rw (length-read_into buf (x ∷ xs)) (
      rw (lt→ltb _ _ h)
        (rw (take-eq_of_le (bufsiz - 1) ys (omega arith)) (rw (c_str-terminated buf (x ∷ xs) h))))

  count_round_leaves :
      (c : ℕ) (buf : Bytes) (w : World)
      → count_round amount (state_of buf [] c) w ≡ (returns (leave (state_of buf [] c)), w)
  unfolding count_round
  count_round_leaves c buf w = refl

-- A run returns with this count, and takes all answers up to `rest`.
abbrev pub Counts : List Answer → Outcome State × World → ℕ → Type 0
Counts rest r n =
    (s : State) × (log : List Call) × (r ≡ (returns s, record { answers = rest; log = log }))
    × (s.count ≡ n)
    × (s.read_bytes ≡ pos 0)

module _ (amount : Bytes → ℕ) (rest : List Answer) where
  count_more :
      (fuel n : ℕ) (s₁ s₂ : State) (w₁ w₂ : World)
      → count_round amount s₁ w₁ ≡ (returns (again s₂), w₂)
      → Counts rest (loop fuel (count_round amount) s₂ w₂) n
      → Counts rest (loop (suc fuel) (count_round amount) s₁ w₁) n
  count_more fuel n s₁ s₂ w₁ w₂ step (s, log, run, c, e) =
      (s, log, loop_again fuel (count_round amount) step ∙ run, c, e)

  count_end :
      (fuel c n : ℕ) (buf : Bytes) (log : List Call)
      → c ≡ n
      → Counts rest
          (loop
            (suc fuel)
            (count_round amount)
            (state_of buf [] c)
            (record { answers = rest; log = log }))
          n
  count_end fuel c n buf log e = (
    state_of buf [] c,
    log,
    loop_leave fuel (count_round amount) (count_round_leaves amount c buf _),
    e,
    refl,
  )

  -- The loop adds up what the pieces amount to.
  count_pieces :
      (ps : List Bytes) (fuel c : ℕ) (buf p : Bytes) (log : List Call)
      → length ps < fuel
      → length buf ≡ bufsiz
      → IsPiece p
      → All IsPiece ps
      → Counts rest
          (loop
            (suc fuel)
            (count_round amount)
            (state_of buf p c)
            (record { answers = pieces_answers ps rest; log = log }))
          (add_int c (total amount (p ∷ ps)))
  count_pieces [] (suc fuel) c buf (x ∷ xs) log h b i k =
      count_more (suc fuel) _ _ _ _ _
        (count_round_lem amount c x buf xs [] 0 rest log (omega arith) (omega arith))
        (count_end fuel _ _ (terminated buf (x ∷ xs)) _ (omega arith))
  count_pieces (q ∷ ps) (suc fuel) c buf (x ∷ xs) log h b i k =
      count_more (suc fuel) _ _ _ _ _
        (count_round_lem amount c x buf xs q (length q) _ log (omega arith) (omega (arith, k.0)))
        (let d = add_int c (amount (c_str (x ∷ xs))) in
          let (s, log', run, n, e) =
            count_pieces ps fuel d (terminated buf (x ∷ xs)) q (read stdin_fd (bufsiz - 1) ∷ log)
              (omega arith) (length-terminated buf (x ∷ xs) ∙ b) k.0 k.1 in
          (s, log', run, n ∙ omega arith, e))
  count_pieces _ zero c buf _ log h b i k = absurd (omega arith)
  count_pieces _ _ c buf [] log h b i k = absurd (omega arith)

  pub count_input-total :
      (ps : List Bytes) (fuel : ℕ) (buf : Bytes) (log : List Call)
      → length ps < fuel
      → length buf ≡ bufsiz
      → All IsPiece ps
      → Counts rest
          (count_input amount
            (suc fuel)
            buf
            (record { answers = pieces_answers ps rest; log = log }))
          (total amount ps % 2 ^ 32)
  unfolding count_input
  count_input-total [] fuel buf log h b i =
      rw (take-eq_of_le {A = ℕ} (bufsiz - 1) [] (omega arith)) (
        let (s, log', run, n, e) = count_end fuel 0 0 buf (read stdin_fd (bufsiz - 1) ∷ log) refl in
        (s, log', rw run (rw e), n, e))
  count_input-total (p ∷ ps) fuel buf log h b i =
      rw (take-eq_of_le (bufsiz - 1) p (omega (arith, i.0))) (
        let (s, log', run, n, e) =
          count_pieces ps fuel 0 buf p (read stdin_fd (bufsiz - 1) ∷ log) (omega arith) b i.0 i.1 in
        (s, log', rw run (rw e), n ∙ omega arith, e))

abbrev pub concat : List Bytes → Bytes
concat [] = []
concat (p ∷ ps) = p ++ concat ps

-- The characters of an input without NUL bytes.
total-strlen : (ps : List Bytes) → All HasNoNul ps → total strlen ps ≡ length (concat ps)
total-strlen [] h = refl
total-strlen (p ∷ ps) h =
    ap (λ t. strlen t + total strlen ps) (c_str-eq_self p h.0)
    ∙ ap (λ t. length t + total strlen ps) (c_str-eq_self p h.0)
    ∙ ap (◌+◌ (length p)) (total-strlen ps h.1)
    ∙ sym (length-append p (concat ps))

-- The words of each piece on its own.
abbrev pub no_words : List Bytes → ℕ
no_words [] = 0
no_words (p ∷ ps) = length (words b' ' p) + no_words ps

total-tokens : (ps : List Bytes) → All HasNoNul ps → total no_tokens ps ≡ no_words ps
total-tokens [] h = refl
total-tokens (p ∷ ps) h =
    ap (λ t. length (tokens b' ' t) + total no_tokens ps) (c_str-eq_self p h.0)
    ∙ ap (λ t. length t + total no_tokens ps) (tokens-words b' ' p)
    ∙ ap (◌+◌ (length (words b' ' p))) (total-tokens ps h.1)

total-one : (ps : List Bytes) → total one ps ≡ length ps
total-one [] = refl
total-one (p ∷ ps) = omega (arith, total-one ps)

module _ (rest : List Answer) (ps : List Bytes) (fuel : ℕ) (buf : Bytes) (log : List Call) where
  -- Of an input without NUL bytes, however it is cut into pieces that fit the buffer, `-c` counts all
  -- bytes, modulo 2 ^ 32.
  pub count_chars-length :
      length ps < fuel
      → length buf ≡ bufsiz
      → All IsPiece ps
      → All HasNoNul ps
      → Counts rest
          (count_chars (suc fuel) buf (record { answers = pieces_answers ps rest; log = log }))
          (length (concat ps) % 2 ^ 32)
  unfolding count_chars
  count_chars-length h b i z =
      rw (← total-strlen ps z) (count_input-total strlen rest ps fuel buf log h b i)

  -- Of such an input `-w` counts the words of every piece, modulo 2 ^ 32, a word that two pieces share
  -- in each of them, and with spaces as the only separators.
  pub count_words-words :
      length ps < fuel
      → length buf ≡ bufsiz
      → All IsPiece ps
      → All HasNoNul ps
      → Counts rest
          (count_words (suc fuel) buf (record { answers = pieces_answers ps rest; log = log }))
          (no_words ps % 2 ^ 32)
  unfolding count_words
  count_words-words h b i z =
      rw (← total-tokens ps z) (count_input-total no_tokens rest ps fuel buf log h b i)

  -- `-l` counts the reads that the input took, modulo 2 ^ 32, whatever lines the pieces hold.
  pub count_lines-reads :
      length ps < fuel
      → length buf ≡ bufsiz
      → All IsPiece ps
      → Counts rest
          (count_lines (suc fuel) buf (record { answers = pieces_answers ps rest; log = log }))
          (length ps % 2 ^ 32)
  unfolding count_lines
  count_lines-reads h b i = rw (← total-one ps) (count_input-total one rest ps fuel buf log h b i)
