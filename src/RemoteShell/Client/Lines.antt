-- ===== src/RemoteShell/Client/Lines.antt =====
-- What the client does with a line.
use osy_materials.Prelude.{
  ℕ, suc, ◌+◌, ◌-◌, ◌<◌, ◌≡◌, refl, ap, ◌∙◌, ℤ, Bool, true, false, List, [], ◌∷◌, ◌++◌, length,
  length-append, length-set, set, ltb, lt→ltb, if◌then◌else◌, take-eq_of_le, arith, All-append, ◌≢◌,
  Bool-cases, inl, inr,
}
use osy_materials.Libc.Strings.{
  Bytes, codes, c_str, str_eq, HasNoNul, read_into, terminated, length-terminated, length-read_into,
  c_str-sprintf_into, c_str-terminated, c_str-cut, length-c_str, strlen, sprintf_into,
  length-sprintf_into,
}
use osy_materials.Sys.{
  Answer, gives, Call, read, write, fgets, print, print_str, returns, bufsiz, line_into,
}
use osy_materials.Sys.Loop.{again}
use osy_materials.Sys.Lines.{line_into-sprintf_into}
use osy_materials.RemoteShell.Client.{send_line, line_round}

-- What a round shows of a reply.
abbrev pub shown : Bool → ℤ → Bytes → Call
shown to_file fd reply = if to_file then write fd reply else print_str "%s\n" reply

-- A line is no "exit", since it ends with its newline.
line_ne_exit : (text : Bytes) → str_eq (text ++ b'\n' ∷ []) (codes "exit") ≡ false
unfolding str_eq
line_ne_exit [] = refl
line_ne_exit (a ∷ []) = ground arith
line_ne_exit (a ∷ b ∷ []) = ground arith
line_ne_exit (a ∷ b ∷ c ∷ []) = ground arith
line_ne_exit (a ∷ b ∷ c ∷ d ∷ []) = ground arith
line_ne_exit (a ∷ b ∷ c ∷ d ∷ e ∷ text) = ground arith

send_line_lem :
    (to_file : Bool) (sock_fd fd : ℤ) (m : ℕ) (buf text out : Bytes) (answers : List Answer)
    (log : List Call)
    → c_str buf ≡ text ++ b'\n' ∷ []
    → length out < bufsiz
    → length buf ≡ bufsiz
    → send_line to_file sock_fd fd buf (record { answers = gives m out ∷ answers; log = log }) ≡ (
      returns (again (terminated (set buf (length text) 0) out)),
      record {
        answers = answers;
        log =
            print "Done writing\n"
            ∷ shown to_file fd (c_str out)
            ∷ read sock_fd (bufsiz - 1)
            ∷ write sock_fd text
            ∷ print_str "read: %s\n" text
            ∷ log;
      },
    )
unfolding send_line
send_line_lem to_file sock_fd fd m buf text out answers log e k b =
    let cut = set buf (length text) 0 in
    let l : length cut ≡ bufsiz = length-set buf (length text) 0 ∙ b in
    let n : strlen buf ≡ suc (length text) =
      ap length e ∙ length-append text (b'\n' ∷ []) ∙ omega arith in
    let room : ltb (length text) (length buf) ≡ true =
      lt→ltb _ _ (omega (arith, n, length-c_str buf)) in
    let room' : ltb (length out) (length (read_into cut out)) ≡ true =
      lt→ltb _ _ (omega (arith, length-read_into cut out)) in
    rw n (
      rw room (
        rw (take-eq_of_le (bufsiz - 1) out (omega arith)) (
          rw room' (
            rw (c_str-cut buf text [] b'\n' e) (
              rw (c_str-terminated cut out (omega arith))
                (elim (Bool-cases to_file) [ inl f ↦ rw f | inr f ↦ rw f ]))))))

-- A round whose line is no "exit".
line_round_step :
    (to_file : Bool) (sock_fd fd : ℤ) (n : ℕ) (buf line : Bytes) (answers : List Answer)
    (log : List Call)
    → str_eq (c_str (line_into (bufsiz - 1) buf (gives n line))) (codes "exit") ≡ false
    → line_round to_file sock_fd fd buf (record { answers = gives n line ∷ answers; log = log })
      ≡ send_line to_file sock_fd fd
          (line_into (bufsiz - 1) buf (gives n line))
          (record { answers = answers; log = fgets (bufsiz - 1) ∷ log })
unfolding line_round
line_round_step to_file sock_fd fd n buf line answers log ne = rw ne refl

-- A line that ends with its newline is sent without it, and the reply, up to a NUL, is printed or goes
-- to the file; whatever the line says, "exit" included, the client goes on with the next one.
pub line_round-again :
    (to_file : Bool) (sock_fd fd : ℤ) (n m : ℕ) (buf text out : Bytes) (answers : List Answer)
    (log : List Call)
    → HasNoNul text
    → length text + 2 < bufsiz
    → length out < bufsiz
    → length buf ≡ bufsiz
    → let line = text ++ b'\n' ∷ [] in
      (buf' : Bytes) × (line_round to_file sock_fd fd buf
          (record { answers = gives n line ∷ gives m out ∷ answers; log = log })
        ≡ (
          returns (again buf'),
          record {
            answers = answers;
            log =
                print "Done writing\n"
                ∷ shown to_file fd (c_str out)
                ∷ read sock_fd (bufsiz - 1)
                ∷ write sock_fd text
                ∷ print_str "read: %s\n" text
                ∷ fgets (bufsiz - 1)
                ∷ log;
          },
        ))
      × (length buf' ≡ bufsiz)
line_round-again to_file sock_fd fd n m buf text out answers log z h k b =
    let line = text ++ b'\n' ∷ [] in
    let len : length line ≡ length text + 1 = length-append text (b'\n' ∷ []) in
    let buf₁ = sprintf_into buf line in
    let b₁ : length buf₁ ≡ bufsiz = length-sprintf_into buf line ∙ b in
    let into : line_into (bufsiz - 1) buf (gives n line) ≡ buf₁ =
      line_into-sprintf_into buf line n (omega arith) in
    let e : c_str buf₁ ≡ line =
      c_str-sprintf_into buf line
        (All-append (λ c. c ≢ 0) text (b'\n' ∷ []) z (λ x. omega arith, tt)) (omega arith) in
    let ne : str_eq (c_str (line_into (bufsiz - 1) buf (gives n line))) (codes "exit") ≡ false =
      ap (λ t. str_eq (c_str t) (codes "exit")) into
      ∙ ap (λ t. str_eq t (codes "exit")) e
      ∙ line_ne_exit text in
    let sent =
      send_line_lem to_file sock_fd fd m buf₁ text out answers (fgets (bufsiz - 1) ∷ log) e k b₁ in
    let cut = set buf₁ (length text) 0 in
    (
      terminated cut out,
      line_round_step to_file sock_fd fd n buf line (gives m out ∷ answers) log ne
          ∙ ap
              (λ t.
                send_line to_file sock_fd fd t
                  (record { answers = gives m out ∷ answers; log = fgets (bufsiz - 1) ∷ log }))
              into
          ∙ sent,
      length-terminated cut out ∙ length-set buf₁ (length text) 0 ∙ b₁,
    )
