-- ===== src/PopenShell/Session.antt =====
-- What the server runs and prints for a client.
use osy_materials.Prelude.{
  ℕ, suc, ◌+◌, ◌-◌, ◌<◌, ◌≡◌, ◌≢◌, refl, sym, ap, ◌∙◌, ℤ, pos, true, Bool-cases, inl, inr, List, [],
  ◌∷◌, ◌++◌, length, length-append, set, length-set, take-eq_of_le, arith, lt→ltb, ltb, append-nil,
  append_assoc, All, All-append, ◌==◌,
}
use osy_materials.Libc.Strings.{
  Bytes, c_str, c_str-terminated, c_str-eq_self, HasNoNul, read_into, length-read_into,
}
use osy_materials.Sys.{Answer, gives, Call, read, popen, print, World, returns, bufsiz}
use osy_materials.Sys.Log.{printed}
use osy_materials.Sys.Loop.{again, leave}
use osy_materials.Sys.Lines.{IsLine}
use osy_materials.Sys.Pieces.{
  Item, first_text, first_text-short, item_answers, outputs, Shows, Holds, GoesOn, loop-Shows,
}
use osy_materials.PopenShell.{State, handle_message, message_round, next_read, serve_client}
use osy_materials.PopenShell.Commands.{
  line_answers, lines_log, newlines_log, command_log, handle_shell_lem,
}

-- A command with the last byte of its message, and the lines that it prints.
pub record Request : Type 0 where
  pub command : Bytes
  pub last : ℕ
  pub lines : List Bytes

abbrev pub message : Request → Bytes
message r = r.command ++ r.last ∷ []

-- The message is a string that fits the buffer, and so is every line.
abbrev pub IsRequest : ℕ → Request → Type 0
IsRequest fuel r =
    HasNoNul r.command
    × (r.last ≢ 0)
    × (length r.command + 1 < bufsiz)
    × All IsLine r.lines
    × (length r.lines < fuel)

-- `popen` succeeds, and its process prints the lines.
abbrev pub item : Request → Item
item r = record { text = message r; taken = gives 0 [] ∷ line_answers r.lines }

-- The commands that a log shows, a newline behind each.
abbrev pub commands : List Call → Bytes
commands [] = []
commands (popen s ∷ log) = commands log ++ (s ++ b'\n' ∷ [])
commands (_ ∷ log) = commands log

abbrev pub shown : Request → Bytes
shown r = r.command ++ outputs (λ l. l) r.lines

abbrev pub ran : Request → Bytes
ran r = r.command ++ b'\n' ∷ []

lines_log-printed :
    (ls : List Bytes) (log : List Call)
    → printed (lines_log ls log) ≡ printed log ++ outputs (λ l. l) ls
lines_log-printed [] log = sym (append-nil _)
lines_log-printed (l ∷ ls) log =
    lines_log-printed ls _ ∙ append_assoc (printed log) l (outputs (λ l. l) ls)

newlines_log-printed : (cs : Bytes) (log : List Call) → printed (newlines_log cs log) ≡ printed log
newlines_log-printed [] log = refl
newlines_log-printed (c ∷ cs) log = elim (Bool-cases (c == b'\n')) [
  | inl e ↦ rw e (newlines_log-printed cs (print "Yas" ∷ log))
  | inr e ↦ rw e (newlines_log-printed cs log)
]

lines_log-commands :
    (ls : List Bytes) (log : List Call) → commands (lines_log ls log) ≡ commands log
lines_log-commands [] log = refl
lines_log-commands (l ∷ ls) log = lines_log-commands ls _

newlines_log-commands :
    (cs : Bytes) (log : List Call) → commands (newlines_log cs log) ≡ commands log
newlines_log-commands [] log = refl
newlines_log-commands (c ∷ cs) log = elim (Bool-cases (c == b'\n')) [
  | inl e ↦ rw e (newlines_log-commands cs (print "Yas" ∷ log))
  | inr e ↦ rw e (newlines_log-commands cs log)
]

command_log-printed :
    (r : Request) (log : List Call)
    → printed (command_log r.command r.lines log) ≡ printed log ++ shown r
command_log-printed r log =
    lines_log-printed r.lines _
    ∙ ap (λ t. (t ++ r.command) ++ outputs (λ l. l) r.lines) (newlines_log-printed r.command log)
    ∙ append_assoc (printed log) r.command (outputs (λ l. l) r.lines)

command_log-commands :
    (r : Request) (log : List Call)
    → commands (command_log r.command r.lines log) ≡ commands log ++ ran r
command_log-commands r log =
    lines_log-commands r.lines _ ∙ ap (λ t. t ++ ran r) (newlines_log-commands r.command log)

abbrev state : Bytes → ℤ → State
state buf n = record { buffer = buf; bytes_read = n }

length-message : (r : Request) → length (message r) ≡ suc (length r.command)
length-message r = length-append r.command (r.last ∷ []) ∙ omega arith

module _ (fuel : ℕ) (client : ℤ) where
  message_round_lem :
      (r : Request) (n : ℕ) (buf next : Bytes) (answers : List Answer) (log : List Call)
      → IsRequest fuel r
      → length buf ≡ bufsiz
      → length next < bufsiz
      → (buf' : Bytes) × (message_round fuel client
            (state (read_into buf (message r)) (pos (suc (length r.command))))
            (record {
              answers = gives 0 [] ∷ (line_answers r.lines ++ (gives n next ∷ answers));
              log = log;
            })
          ≡ (
            returns (again (state (read_into buf' next) (pos (length next)))),
            record {
              answers = answers;
              log = read client (bufsiz - 1) ∷ command_log r.command r.lines log;
            },
          ))
        × (length buf' ≡ bufsiz)
  unfolding message_round handle_message next_read
  message_round_lem r n buf next answers log (z, c, l, ls, k) b q =
      let i = suc (length r.command) in
      let command = set (read_into buf (message r)) i 0 in
      let room : ltb i (length (read_into buf (message r))) ≡ true =
        lt→ltb _ _ (omega (arith, length-read_into buf (message r))) in
      let e : c_str command ≡ message r =
        ap (λ t. c_str (set (read_into buf (message r)) t 0)) (sym (length-message r))
        ∙ c_str-terminated buf (message r) (omega (arith, length-message r))
        ∙ c_str-eq_self (message r) (All-append (λ c. c ≢ 0) r.command (r.last ∷ []) z (c, tt)) in
      let (buf', run, b') =
        handle_shell_lem fuel command r.command r.last 0 r.lines (gives n next ∷ answers) log e ls k
          (length-set (read_into buf (message r)) i 0 ∙ length-read_into buf (message r) ∙ b) in
      (buf', rw room (rw run (rw (take-eq_of_le (bufsiz - 1) next (omega arith)) refl)), b')

  message_round-leaves :
      (s : State) (w : World)
      → Holds state [] s
      → message_round fuel client s w ≡ (returns (leave s), w)
  unfolding message_round
  message_round-leaves s w (buf, b, e) = rw e refl

  message_round-GoesOn :
      (f : List Call → Bytes) (out : Bytes) (r : Request)
      → IsRequest fuel r
      → ((log : List Call)
          → f (read client (bufsiz - 1) ∷ command_log r.command r.lines log) ≡ f log ++ out)
      → GoesOn (message_round fuel client) f (Holds state) (item r) out
  message_round-GoesOn f out r i shows s n next answers log (buf, b, e) q =
      let (buf', run, b') = message_round_lem r n buf next answers log i b q in
      (
        state (read_into buf' next) (pos (length next)),
        read client (bufsiz - 1) ∷ command_log r.command r.lines log,
        rw e (rw (length-message r) run),
        shows log,
        (buf', b', refl),
      )

  -- The client's session, for what the log shows by `f`.
  serve_client-Shows :
      (f : List Call → Bytes) (out : Request → Bytes)
      → ((log : List Call) → f (read client (bufsiz - 1) ∷ log) ≡ f log)
      → ((r : Request) (log : List Call) → f (command_log r.command r.lines log) ≡ f log ++ out r)
      → (rs : List Request) (buf : Bytes) (rest : List Answer) (log : List Call)
      → All (IsRequest fuel) rs
      → length rs < fuel
      → length buf ≡ bufsiz
      → Shows
          (Holds state [])
          f
          rest
          log
          (serve_client fuel client buf (record { answers = item_answers item rs rest; log = log }))
          (outputs out rs)
  unfolding serve_client next_read
  serve_client-Shows f out no_read shows rs buf rest log h k b =
      let short : (r : Request) → IsRequest fuel r → length (message r) < bufsiz =
        λ r i. let (z, c, l, ls, k) = i in omega (arith, length-message r) in
      let first = first_text item rs in
      let (s, log', run, e, held) =
        loop-Shows (IsRequest fuel) item (message_round fuel client) f (Holds state) out rest
          message_round-leaves short
          (λ r i.
            message_round-GoesOn f (out r) r i
              (λ log. no_read (command_log r.command r.lines log) ∙ shows r log))
          rs h fuel (state (read_into buf first) (pos (length first)))
          (read client (bufsiz - 1) ∷ log) k (buf, b, refl) in
      let fits = first_text-short (IsRequest fuel) item short rs h in
      (
        s,
        log',
        rw (take-eq_of_le (bufsiz - 1) first (omega (arith, fits))) run,
        e ∙ ap (λ t. t ++ outputs out rs) (no_read log),
        held,
      )

-- For every message of a client the server runs the message without its last byte in a shell, in
-- order, and prints this command and then the lines of the shell; the session ends when the client
-- leaves. Every message is a string that fits the buffer, and so is every line, and there are rounds
-- for them.
pub serve_client-commands :
    (fuel : ℕ) (client : ℤ) (rs : List Request) (buf : Bytes) (rest : List Answer) (log : List Call)
    → All (IsRequest fuel) rs
    → length rs < fuel
    → length buf ≡ bufsiz
    → let r =
        serve_client fuel client buf (record { answers = item_answers item rs rest; log = log }) in
      ((s : State) × (r.0 ≡ returns s))
      × (commands r.1.log ≡ commands log ++ outputs ran rs)
      × (printed r.1.log ≡ printed log ++ outputs shown rs)
serve_client-commands fuel client rs buf rest log h k b =
    let (s, l, run, e, _) =
      serve_client-Shows fuel client commands ran (λ log. refl) command_log-commands rs buf rest log
        h k b in
    let (s', l', run', e', _) =
      serve_client-Shows fuel client printed shown (λ log. refl) command_log-printed rs buf rest log
        h k b in
    (
      (s, ap (λ t. t.0) run),
      ap (λ t. commands t.1.log) run ∙ e,
      ap (λ t. printed t.1.log) run' ∙ e',
    )
