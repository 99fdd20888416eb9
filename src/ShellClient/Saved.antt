-- ===== src/ShellClient/Saved.antt =====
-- What the client saves of a response.
use osy_materials.Prelude.{
  ℕ, zero, suc, ◌-◌, ◌<◌, ◌≤◌, ◌≡◌, refl, ap, ◌∙◌, ℤ, pos, true, List, [], ◌∷◌, ◌++◌, length,
  replicate, length-replicate, set, length-set, take-eq_of_le, arith, lt→ltb, ltb, All,
}
use osy_materials.Libc.Strings.{Bytes, codes, str_eq, c_str, read_into, length-read_into}
use osy_materials.Sys.{Answer, gives, Call, read, write, open_file, World, returns, bufsiz}
use osy_materials.Sys.Log.{for_fd, for_fd_nil, for_fd-append, IsPiece, written, output}
use osy_materials.Sys.Loop.{again, leave}
use osy_materials.Sys.Pieces.{
  piece, first_text-short, first_text, behind_first, outputs, Holds, GoesOn, loop-Shows,
}
use osy_materials.ShellClient.{
  State, save_piece, save_round, next_read, save_response, handle_response,
}

-- All bytes but the last.
abbrev pub but_last : Bytes → Bytes
but_last [] = []
but_last (x ∷ []) = []
but_last (x ∷ y ∷ xs) = x ∷ but_last (y ∷ xs)

-- The NUL over the last byte that was read cuts it off.
pub c_str-but_last :
    (buf xs : Bytes) (x : ℕ)
    → length (x ∷ xs) ≤ length buf
    → c_str (set (read_into buf (x ∷ xs)) (length xs) 0) ≡ c_str (but_last (x ∷ xs))
c_str-but_last [] xs x h = absurd (omega arith)
c_str-but_last (b ∷ buf) [] x h = refl
c_str-but_last (b ∷ buf) (y ∷ xs) zero h = refl
c_str-but_last (b ∷ buf) (y ∷ xs) (suc x) h =
    ap (◌∷◌ (suc x)) (c_str-but_last buf xs y (omega arith))

abbrev state : Bytes → ℤ → State
state buf n = record { buffer = buf; bytes_read = n }

-- What is written of a piece.
abbrev pub saved : Bytes → Bytes
saved p = c_str (but_last p)

module _ (client fd : ℤ) where
  save_round_lem :
      (x n : ℕ) (buf xs next : Bytes) (answers : List Answer) (log : List Call)
      → length (x ∷ xs) < length buf
      → length next < bufsiz
      → save_round client fd
          (state (read_into buf (x ∷ xs)) (pos (length (x ∷ xs))))
          (record { answers = gives n next ∷ answers; log = log })
        ≡ (
          returns (
              again (
                state
                  (read_into (set (read_into buf (x ∷ xs)) (length xs) 0) next)
                  (pos (length next)))),
          record {
            answers = answers;
            log = read client (bufsiz - 1) ∷ write fd (saved (x ∷ xs)) ∷ log;
          },
        )
  unfolding save_round save_piece next_read
  save_round_lem x n buf xs next answers log h k =
      let room : ltb (length xs) (length (read_into buf (x ∷ xs))) ≡ true =
        lt→ltb _ _ (omega (arith, length-read_into buf (x ∷ xs))) in
      rw room (
        rw (take-eq_of_le (bufsiz - 1) next (omega arith))
          (rw (c_str-but_last buf xs x (omega arith)) refl))

  save_round-leaves :
      (s : State) (w : World) → Holds state [] s → save_round client fd s w ≡ (returns (leave s), w)
  unfolding save_round
  save_round-leaves s w (buf, b, e) = rw e refl

  save_round-GoesOn :
      (out : ℤ) (p : Bytes)
      → IsPiece p
      → GoesOn
          (save_round client fd)
          (written out)
          (Holds state)
          (piece p)
          (for_fd out fd (saved p))
  save_round-GoesOn out [] i s n next answers log k q = absurd (omega (arith, i.0))
  save_round-GoesOn out (x ∷ xs) i s n next answers log (buf, b, e) q =
      let cut = set (read_into buf (x ∷ xs)) (length xs) 0 in
      (
        state (read_into cut next) (pos (length next)),
        read client (bufsiz - 1) ∷ write fd (saved (x ∷ xs)) ∷ log,
        rw e (save_round_lem x n buf xs next answers log (omega (arith, i.1)) q),
        refl,
        (
          cut,
          length-set (read_into buf (x ∷ xs)) (length xs) 0 ∙ length-read_into buf (x ∷ xs) ∙ b,
          refl,
        ),
      )

outputs-for_fd :
    (out fd : ℤ) (ps : List Bytes)
    → outputs (λ p. for_fd out fd (saved p)) ps ≡ for_fd out fd (outputs saved ps)
outputs-for_fd out fd [] = for_fd_nil out fd
outputs-for_fd out fd (p ∷ ps) =
    ap (λ t. for_fd out fd (saved p) ++ t) (outputs-for_fd out fd ps)
    ∙ for_fd-append out fd (saved p) (outputs saved ps)

-- The answers while the response comes in these pieces and the file is opened.
abbrev pub response_answers : ℕ → List Bytes → List Answer → List Answer
response_answers m ps rest =
    gives (length (first_text piece ps)) (first_text piece ps)
    ∷ gives m []
    ∷ behind_first piece ps rest

-- With the flag "-f" the client saves the pieces of a response in order and writes nothing elsewhere,
-- but of every piece it loses the last byte, and what stands behind a NUL; it comes back when the
-- server has closed the connection.
pub handle_response-saved :
    (out client : ℤ) (fuel m : ℕ) (ps : List Bytes) (rest : List Answer) (log : List Call)
    → All IsPiece ps
    → length ps < fuel
    → let r =
        handle_response fuel client
          (codes "-f")
          (record { answers = response_answers m ps rest; log = log }) in
      (r.0 ≡ returns tt) × (output out r ≡ written out log ++ for_fd out (pos m) (outputs saved ps))
unfolding handle_response save_response next_read str_eq
handle_response-saved out client fuel m ps rest log h k =
    let first = first_text piece ps in
    let buf₀ : Bytes = replicate bufsiz 0 in
    let (s, log', run, e, (buf, b, f)) =
      loop-Shows IsPiece piece (save_round client (pos m)) (written out) (Holds state)
        (λ p. for_fd out (pos m) (saved p)) rest (save_round-leaves client (pos m)) (λ p i. i.1)
        (save_round-GoesOn client (pos m) out) ps h fuel
        (state (read_into buf₀ first) (pos (length first)))
        (open_file (codes "response.txt") ∷ read client (bufsiz - 1) ∷ log) k
        (buf₀, length-replicate bufsiz 0, refl) in
    let short = first_text-short IsPiece piece (λ p i. i.1) ps h in
    let all = e ∙ ap (λ t. written out log ++ t) (outputs-for_fd out (pos m) ps) in
    rw (take-eq_of_le (bufsiz - 1) first (omega (arith, short))) (rw run (rw f (refl, all)))
