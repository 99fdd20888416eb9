-- ===== src/ShellClient/Exchange.antt =====
-- A line of the user and the response to it.
use osy_materials.Prelude.{
  ℕ, ◌-◌, ◌<◌, ◌≡◌, refl, ap, ◌∙◌, ℤ, pos, true, List, [], ◌∷◌, ◌++◌, length, set, length-set,
  take-eq_of_le, arith, lt→ltb, ltb, append_assoc, All,
}
use osy_materials.Libc.Strings.{Bytes, codes, read_into, length-read_into}
use osy_materials.Sys.{Answer, gives, Call, read, write, print_str, returns, bufsiz, stdin_fd}
use osy_materials.Sys.Log.{for_fd, IsPiece, written, output}
use osy_materials.Sys.Loop.{again}
use osy_materials.Sys.Pieces.{outputs}
use osy_materials.ShellClient.{handle_response, send_line, line_round}
use osy_materials.ShellClient.Saved.{saved, c_str-but_last, response_answers, handle_response-saved}

-- The log when the line has been sent.
abbrev pub sent_log : ℤ → Bytes → List Call → List Call
sent_log client line log =
    write client (saved line) ∷ print_str "%s\n" (saved line) ∷ read stdin_fd (bufsiz - 1) ∷ log

pub line_round_lem :
    (fuel x n m : ℕ) (client : ℤ) (flag buf xs ys : Bytes) (answers : List Answer) (log : List Call)
    → length (x ∷ xs) < bufsiz
    → length buf ≡ bufsiz
    → let r =
        handle_response fuel client flag
          (record { answers = answers; log = sent_log client (x ∷ xs) log }) in
      r.0 ≡ returns tt
      → line_round fuel client flag buf
          (record { answers = gives n (x ∷ xs) ∷ gives m ys ∷ answers; log = log })
        ≡ (returns (again (set (read_into buf (x ∷ xs)) (length xs) 0)), r.1)
unfolding line_round send_line
line_round_lem fuel x n m client flag buf xs ys answers log h b e =
    let room : ltb (length xs) (length (read_into buf (x ∷ xs))) ≡ true =
      lt→ltb _ _ (omega (arith, length-read_into buf (x ∷ xs))) in
    rw (take-eq_of_le (bufsiz - 1) (x ∷ xs) (omega arith))
      (rw room (rw (c_str-but_last buf xs x (omega arith)) (rw e refl)))

-- With the flag "-f" a line of the user goes to the server without its last byte, the pieces of the
-- response go to the file without theirs, nothing is written elsewhere, and the client asks for the next
-- line, if the server closes the connection behind the response.
pub line_round-saved :
    (out client : ℤ) (fuel n m f : ℕ) (buf line ys : Bytes) (ps : List Bytes) (rest : List Answer)
    (log : List Call)
    → IsPiece line
    → All IsPiece ps
    → length ps < fuel
    → length buf ≡ bufsiz
    → let r =
        line_round fuel client (codes "-f") buf (record {
          answers = gives n line ∷ gives m ys ∷ response_answers f ps rest;
          log = log;
        }) in
      ((buf' : Bytes) × (r.0 ≡ returns (again buf')) × (length buf' ≡ bufsiz))
      × (output out r
          ≡ written out log
            ++ (for_fd out client (saved line) ++ for_fd out (pos f) (outputs saved ps)))
line_round-saved out client fuel n m f buf [] ys ps rest log i h k b = absurd (omega (arith, i.0))
line_round-saved out client fuel n m f buf (x ∷ xs) ys ps rest log i h k b =
    let (ends, saves) =
      handle_response-saved out client fuel f ps rest (sent_log client (x ∷ xs) log) h k in
    let run =
      line_round_lem fuel x n m client (codes "-f") buf xs ys (response_answers f ps rest) log i.1 b
        ends in
    (
      (
        set (read_into buf (x ∷ xs)) (length xs) 0,
        ap (λ t. t.0) run,
        length-set (read_into buf (x ∷ xs)) (length xs) 0 ∙ length-read_into buf (x ∷ xs) ∙ b,
      ),
      ap (output out) run
          ∙ saves
          ∙ append_assoc (written out log) (for_fd out client (saved (x ∷ xs)))
              (for_fd out (pos f) (outputs saved ps)),
    )
