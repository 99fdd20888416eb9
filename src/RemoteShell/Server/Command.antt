-- ===== src/RemoteShell/Server/Command.antt =====
-- Which program a child of the server runs.
use osy_materials.Prelude.{
  ℕ, ◌+◌, ◌≤◌, ◌≡◌, ◌≢◌, ◌<◌, suc, lt→ltb, ltb, true, arith, length, ap, refl, set, ◌∙◌, ℤ, pos,
  false, Bool-cases, inl, inr, List, [], ◌∷◌, true, ltb, lt→ltb, length, arith,
}
use osy_materials.Libc.Strings.{
  Bytes, codes, str_eq, str_eq_iff, HasNoNul, c_str, c_str-eq_self, c_str-terminated, read_into,
  length-read_into,
}
use osy_materials.Libc.Tokens.{words, length-words}
use osy_materials.Argv.{split_args-words, parse_args}
use osy_materials.Sys.{
  Answer, fail, gives, Call, fork, World, print_str, print_int, returns, stops, Ends, bufsiz,
  bufsiz_room,
}
use osy_materials.Interpreter.Child.{child_end}
use osy_materials.RemoteShell.Server.{
  print_words, run_words, run_child, by_fork, run_command, handle_message, shell_round, State,
}

-- What the words leave in the log.
abbrev pub words_log : ℕ → List Bytes → List Call → List Call
words_log i [] log = log
words_log i (t ∷ ts) log =
    words_log (i + 1) ts (print_str "= %s\n" t ∷ print_int "command[%d]" i ∷ log)

pub print_words_lem :
    (i : ℕ) (ts : List Bytes) (answers : List Answer) (log : List Call)
    → print_words i ts (record { answers = answers; log = log })
      ≡ (returns tt, record { answers = answers; log = words_log i ts log })
unfolding print_words
print_words_lem i [] answers log = refl
print_words_lem i (t ∷ ts) answers log = print_words_lem (i + 1) ts answers _

run_words_lem :
    (ends : Ends) (ws : List Bytes) (a : Answer) (answers : List Answer) (log : List Call)
    → (run_words ends ws (record { answers = a ∷ answers; log = log })).0 ≡ stops (child_end ws a)
unfolding run_words
run_words_lem ends [] a answers log = refl
run_words_lem ends (w ∷ ws) fail answers log = rw (print_words_lem 0 (w ∷ ws) (fail ∷ answers) log)
run_words_lem ends (w ∷ ws) (gives n xs) answers log =
    rw (print_words_lem 0 (w ∷ ws) (gives n xs ∷ answers) log)

-- A message of at most `BUFSIZ` bytes never overflows the array of `BUFSIZ` words: the child becomes
-- the program of its words, or ends where there is none or `execvp` comes back.
pub run_child-words :
    (ends : Ends) (command : Bytes) (a : Answer) (answers : List Answer) (log : List Call)
    → length command ≤ bufsiz
    → (run_child ends command (record { answers = a ∷ answers; log = log })).0
      ≡ stops (child_end (words b' ' command) a)
unfolding run_child parse_args
run_child-words ends command a answers log h =
    let room : ltb (length (words b' ' command)) bufsiz ≡ true =
      lt→ltb _ _ (omega (arith, length-words b' ' command, bufsiz_room)) in
    rw (split_args-words bufsiz b' ' command)
      (rw room (run_words_lem ends (words b' ' command) a answers _))

-- The child's side of a round for a message that is a string and not "exit": the string is the command.
pub shell_round-words :
    (client : ℤ) (ends : Ends) (buf command xs : Bytes) (a : Answer) (answers : List Answer)
    (log : List Call)
    → 0 < length command
    → HasNoNul command
    → command ≢ codes "exit"
    → length command ≤ bufsiz
    → length command < length buf
    → let s : State = record {
      buffer = read_into buf command;
      read_bytes = pos (length command);
    } in
      (shell_round client ends s (record { answers = gives 0 xs ∷ a ∷ answers; log = log })).0
      ≡ stops (child_end (words b' ' command) a)
unfolding shell_round handle_message run_command by_fork
shell_round-words client ends buf [] xs a answers log p z ne h k = absurd (omega arith)
shell_round-words client ends buf (x ∷ command) xs a answers log p z ne h k =
    let room : ltb (suc (length command)) (length (read_into buf (x ∷ command))) ≡ true =
      lt→ltb _ _ (omega (arith, length-read_into buf (x ∷ command))) in
    let differs : str_eq (x ∷ command) (codes "exit") ≡ false =
      elim (Bool-cases (str_eq (x ∷ command) (codes "exit"))) [
        | inl e ↦ absurd (ne ((str_eq_iff (x ∷ command) (codes "exit")).0 e))
        | inr e ↦ e
      ] in
    let cut = set (read_into buf (x ∷ command)) (suc (length command)) 0 in
    let e : c_str cut ≡ x ∷ command =
      c_str-terminated buf (x ∷ command) k ∙ c_str-eq_self (x ∷ command) z in
    let goes_on : str_eq (c_str cut) (codes "exit") ≡ false =
      ap (λ t. str_eq t (codes "exit")) e ∙ differs in
    let w : World = record { answers = a ∷ answers; log = fork ∷ log } in
    let child : (run_child ends (c_str cut) w).0 ≡ stops (child_end (words b' ' (x ∷ command)) a) =
      ap (λ t. (run_child ends t w).0) e
      ∙ run_child-words ends (x ∷ command) a answers (fork ∷ log) h in
    rw room (rw goes_on (rw child refl))
