-- ===== src/PopenShell/Commands.antt =====
-- What one command does.
use osy_materials.Prelude.{
  ℕ, zero, suc, ◌-◌, ◌<◌, ◌≡◌, refl, ap, ◌∙◌, true, Bool-cases, inl, inr, List, [], ◌∷◌, ◌++◌,
  length, length-append, set, length-set, arith, lt→ltb, ltb, All, ◌==◌, if◌then◌else◌,
}
use osy_materials.Libc.Strings.{Bytes, c_str, c_str-cut, length-c_str, strlen}
use osy_materials.Sys.{
  Answer, fail, gives, Call, popen, fgets, print, print_str, returns, line_into, bufsiz,
}
use osy_materials.Sys.Loop.{again, leave, loop, loop_again, loop_leave}
use osy_materials.Sys.Lines.{IsLine, c_str-line_into, length-line_into}
use osy_materials.PopenShell.{
  cut_last, print_newlines, print_line, shell_line_round, check_shell, handle_shell,
}

-- The answers of `fgets` for these lines, and NULL behind them.
abbrev pub line_answers : List Bytes → List Answer
line_answers [] = fail ∷ []
line_answers (l ∷ ls) = gives (length l) l ∷ line_answers ls

-- What the lines leave in the log.
abbrev pub lines_log : List Bytes → List Call → List Call
lines_log [] log = fgets (bufsiz - 1) ∷ log
lines_log (l ∷ ls) log = lines_log ls (print_str "%s" l ∷ fgets (bufsiz - 1) ∷ log)

shell_line_round_lem :
    (buf l : Bytes) (n : ℕ) (answers : List Answer) (log : List Call)
    → IsLine l
    → length buf ≡ bufsiz
    → shell_line_round buf (record { answers = gives n l ∷ answers; log = log }) ≡ (
      returns (again (line_into (bufsiz - 1) buf (gives n l))),
      record { answers = answers; log = print_str "%s" l ∷ fgets (bufsiz - 1) ∷ log },
    )
unfolding shell_line_round print_line
shell_line_round_lem buf l n answers log h b = rw (c_str-line_into buf l n h b) refl

shell_line_round-leaves :
    (buf : Bytes) (answers : List Answer) (log : List Call)
    → shell_line_round buf (record { answers = fail ∷ answers; log = log })
      ≡ (returns (leave buf), record { answers = answers; log = fgets (bufsiz - 1) ∷ log })
unfolding shell_line_round print_line
shell_line_round-leaves buf answers log = refl

-- The loop over the lines of a command.
lines_lem :
    (ls : List Bytes) (fuel : ℕ) (buf : Bytes) (answers : List Answer) (log : List Call)
    → All IsLine ls
    → length ls < fuel
    → length buf ≡ bufsiz
    → (buf' : Bytes) × (loop fuel shell_line_round buf
          (record { answers = line_answers ls ++ answers; log = log })
        ≡ (returns buf', record { answers = answers; log = lines_log ls log }))
      × (length buf' ≡ bufsiz)
lines_lem ls zero buf answers log h k b = absurd (omega arith)
lines_lem [] (suc fuel) buf answers log h k b =
    (buf, loop_leave fuel shell_line_round (shell_line_round-leaves buf answers log), b)
lines_lem (l ∷ ls) (suc fuel) buf answers log h k b =
    let buf₁ : Bytes = line_into (bufsiz - 1) buf (gives (length l) l) in
    let (buf', run, b') =
      lines_lem ls fuel buf₁ answers (print_str "%s" l ∷ fgets (bufsiz - 1) ∷ log) h.1 (omega arith)
        (length-line_into buf l (length l) h.0.1 ∙ b) in
    (
      buf',
      loop_again fuel shell_line_round
            (shell_line_round_lem buf l (length l) (line_answers ls ++ answers) log h.0 b)
          ∙ run,
      b',
    )

-- A "Yas" for every newline of the command.
abbrev pub newlines_log : Bytes → List Call → List Call
newlines_log [] log = log
newlines_log (c ∷ cs) log = newlines_log cs (if c == b'\n' then print "Yas" ∷ log else log)

print_newlines_lem :
    (cs : Bytes) (answers : List Answer) (log : List Call)
    → print_newlines cs (record { answers = answers; log = log })
      ≡ (returns tt, record { answers = answers; log = newlines_log cs log })
unfolding print_newlines
print_newlines_lem [] answers log = refl
print_newlines_lem (c ∷ cs) answers log = elim (Bool-cases (c == b'\n')) [
  | inl e ↦ rw e (print_newlines_lem cs answers (print "Yas" ∷ log))
  | inr e ↦ rw e (print_newlines_lem cs answers log)
]

-- What a command leaves in the log.
abbrev pub command_log : Bytes → List Bytes → List Call → List Call
command_log text ls log = lines_log ls (popen text ∷ print_str "%s\n" text ∷ newlines_log text log)

-- The string without its last byte is printed and given to a shell, whose lines are printed.
pub handle_shell_lem :
    (fuel : ℕ) (buf text : Bytes) (c p : ℕ) (ls : List Bytes) (answers : List Answer)
    (log : List Call)
    → c_str buf ≡ text ++ c ∷ []
    → All IsLine ls
    → length ls < fuel
    → length buf ≡ bufsiz
    → (buf' : Bytes) × (handle_shell fuel buf
          (record { answers = gives p [] ∷ (line_answers ls ++ answers); log = log })
        ≡ (returns buf', record { answers = answers; log = command_log text ls log }))
      × (length buf' ≡ bufsiz)
unfolding handle_shell cut_last check_shell
handle_shell_lem fuel buf text c p ls answers log e h k b =
    let cut = set buf (length text) 0 in
    let n : strlen buf ≡ suc (length text) =
      ap length e ∙ length-append text (c ∷ []) ∙ omega arith in
    let room : ltb (length text) (length buf) ≡ true =
      lt→ltb _ _ (omega (arith, n, length-c_str buf)) in
    let (buf', run, b') =
      lines_lem ls fuel cut answers (popen text ∷ print_str "%s\n" text ∷ newlines_log text log) h k
        (length-set buf (length text) 0 ∙ b) in
    (
      buf',
      rw n (
          rw room (
            rw (c_str-cut buf text [] c e)
              (rw (print_newlines_lem text (gives p [] ∷ (line_answers ls ++ answers)) log) run))),
      b',
    )
