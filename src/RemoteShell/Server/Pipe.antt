-- ===== src/RemoteShell/Server/Pipe.antt =====
-- The pipe that a thread makes once for all its commands.
use osy_materials.Prelude.{
  ℕ, zero, suc, ◌+◌, ◌≤◌, ◌≡◌, refl, ◌⊎◌, inl, inr, ℤ, pos, negsuc, Bool, true, false, ◌||◌, List,
  [], ◌∷◌, ltb, if◌then◌else◌, length, set, take, arith, Bool-cases, Option-cases,
}
use osy_materials.Libc.Strings.{Bytes, codes, c_str, str_eq, read_into, zero_fill}
use osy_materials.Argv.{split_args, parse_args}
use osy_materials.Sys.{
  Answer, fail, gives, Call, read, close, fork, World, Stop, ends_of, Ends, fetched, pipe, bufsiz,
  start, pure,
}
use osy_materials.Sys.Log.{same_fd, same_fd_self}
use osy_materials.Sys.Loop.{again, loop, Ensures, RoundEnd, loop_inv}
use osy_materials.Sys.Progress.{continue-Ensures, Ensures-mono}
use osy_materials.RemoteShell.Server.Command.{words_log, print_words_lem}
use osy_materials.RemoteShell.Server.{
  State, run_words, run_child, run_parent, next_read, run_command, shell_round, leave_client,
  handle_shell_client,
}

-- The process has closed the descriptor.
abbrev pub closed : ℤ → List Call → Bool
closed fd [] = false
closed fd (close d ∷ log) = same_fd fd d || closed fd log
closed fd (_ ∷ log) = closed fd log

-- The children that were made while the descriptor was open, which therefore inherit it.
abbrev pub open_forks : ℤ → List Call → ℕ
open_forks fd [] = 0
open_forks fd (fork ∷ log) = (if closed fd log then 0 else 1) + open_forks fd log
open_forks fd (_ ∷ log) = open_forks fd log

module _ (end : ℤ) where
  abbrev AtMostOne : Stop → World → Type 0
  AtMostOne e w = open_forks end w.log ≤ 1

  -- Behind a round.
  abbrev Closed : State → World → Type 0
  Closed s w = (closed end w.log ≡ true) × (open_forks end w.log ≤ 1)

  -- In front of a round.
  abbrev Inv : State → World → Type 0
  Inv s w = ((closed end w.log ≡ true) × (open_forks end w.log ≤ 1)) ⊎ (open_forks end w.log ≡ 0)

  words_log-forks :
      (i : ℕ) (ts : List Bytes) (log : List Call)
      → open_forks end (words_log i ts log) ≡ open_forks end log
  words_log-forks i [] log = refl
  words_log-forks i (t ∷ ts) log = words_log-forks (i + 1) ts _

  closes :
      (ends : Ends) (log : List Call)
      → ends.write_end ≡ end
      → (same_fd end ends.write_end || closed end log) ≡ true
  closes ends log e = rw e (rw (same_fd_self end))

  -- A `fork` in front of which the descriptor was closed, or which is the first.
  one_more :
      (log : List Call)
      → ((closed end log ≡ true) × (open_forks end log ≤ 1)) ⊎ (open_forks end log ≡ 0)
      → open_forks end (fork ∷ log) ≤ 1
  one_more log (inl (c, h)) = rw c (omega arith)
  one_more log (inr z) = elim (Bool-cases (closed end log)) [
    | inl c ↦ rw c (omega arith)
    | inr c ↦ rw c (omega arith)
  ]

  -- A child makes no child.
  run_words-forks :
      (ends : Ends) (ws : List Bytes) (answers : List Answer) (log : List Call)
      → open_forks end log ≤ 1
      → let w : World = record { answers = answers; log = log } in
        Ensures (λ _ _. ⊥) AtMostOne (run_words ends ws w).0 (run_words ends ws w).1
  unfolding run_words
  run_words-forks ends [] answers log h = h
  run_words-forks ends (v ∷ ws) [] log h =
      rw (print_words_lem 0 (v ∷ ws) [] log) (omega (arith, words_log-forks 0 (v ∷ ws) log))
  run_words-forks ends (v ∷ ws) (fail ∷ answers) log h =
      rw (print_words_lem 0 (v ∷ ws) (fail ∷ answers) log)
        (omega (arith, words_log-forks 0 (v ∷ ws) log))
  run_words-forks ends (v ∷ ws) (gives n xs ∷ answers) log h =
      rw (print_words_lem 0 (v ∷ ws) (gives n xs ∷ answers) log)
        (omega (arith, words_log-forks 0 (v ∷ ws) log))

  run_child-forks :
      (ends : Ends) (command : Bytes) (w : World)
      → open_forks end w.log ≤ 1
      → Ensures (λ _ _. ⊥) AtMostOne (run_child ends command w).0 (run_child ends command w).1
  unfolding run_child parse_args
  run_child-forks ends command w h = elim (Option-cases (split_args bufsiz b' ' command)) [
    | inl e ↦ rw e h
    | inr (argv, e) ↦ rw e (run_words-forks ends argv w.answers _ h)
  ]

  next_read-Closed :
      (client : ℤ) (buf : Bytes) (answers : List Answer) (log : List Call)
      → closed end log ≡ true
      → open_forks end log ≤ 1
      → let w : World = record { answers = answers; log = log } in
        Ensures Closed AtMostOne (next_read client buf w).0 (next_read client buf w).1
  unfolding next_read
  next_read-Closed client buf [] log c h = h
  next_read-Closed client buf (fail ∷ answers) log c h = (c, h)
  next_read-Closed client buf (gives n xs ∷ answers) log c h = (c, h)

  run_parent-Closed :
      (client : ℤ) (ends : Ends) (buf : Bytes) (answers : List Answer) (log : List Call)
      → ends.write_end ≡ end
      → open_forks end log ≤ 1
      → let w : World = record { answers = answers; log = log } in
        Ensures Closed AtMostOne (run_parent client ends buf w).0 (run_parent client ends buf w).1
  unfolding run_parent
  run_parent-Closed client ends buf [] log e h = h
  run_parent-Closed client ends buf (fail ∷ answers) log e h = h
  run_parent-Closed client ends buf (gives n xs ∷ answers) log e h =
      let out = read_into (zero_fill (bufsiz + 1) buf) (take bufsiz xs) in
      let k = length (take bufsiz xs) in
      elim (Bool-cases (ltb k (length out))) [
        | inl room ↦ rw room (next_read-Closed client (set out k 0) answers _ (closes ends log e) h)
        | inr full ↦ rw full h
      ]

  run_command-Closed :
      (client : ℤ) (ends : Ends) (buf : Bytes) (answers : List Answer) (log : List Call)
      → ends.write_end ≡ end
      → let w : World = record { answers = answers; log = log } in
        ((closed end log ≡ true) × (open_forks end log ≤ 1)) ⊎ (open_forks end log ≡ 0)
        → Ensures Closed AtMostOne
            (run_command client ends buf w).0
            (run_command client ends buf w).1
  unfolding run_command
  run_command-Closed client ends buf [] log e h = one_more log h
  run_command-Closed client ends buf (fail ∷ answers) log e h = one_more log h
  run_command-Closed client ends buf (gives zero xs ∷ answers) log e h =
      Ensures-mono (λ _ _. ⊥) Closed AtMostOne AtMostOne _ _ (λ _ f. absurd f) (λ _ k. k)
        (run_child-forks ends (c_str buf) _ (one_more log h))
  run_command-Closed client ends buf (gives (suc pid) xs ∷ answers) log e h =
      run_parent-Closed client ends buf answers _ e (one_more log h)

  Inv-AtMostOne :
      (w : World)
      → ((closed end w.log ≡ true) × (open_forks end w.log ≤ 1)) ⊎ (open_forks end w.log ≡ 0)
      → open_forks end w.log ≤ 1
  Inv-AtMostOne w (inl (c, h)) = h
  Inv-AtMostOne w (inr z) = omega arith

  shell_round-Inv :
      (client : ℤ) (ends : Ends) (buf : Bytes) (b : ℤ) (w : World)
      → ends.write_end ≡ end
      → let s : State = record { buffer = buf; read_bytes = b } in
        Inv s w
        → Ensures
            (RoundEnd Inv Inv)
            AtMostOne
            (shell_round client ends s w).0
            (shell_round client ends s w).1
  unfolding shell_round
  shell_round-Inv client ends buf (pos zero) w e h = h
  shell_round-Inv client ends buf (negsuc n) w e h = h
  shell_round-Inv client ends buf (pos (suc n)) w e h =
      let buf' = set buf (suc n) 0 in
      elim (Bool-cases (ltb (suc n) (length buf))) [
        | inl room ↦ elim (Bool-cases (str_eq (c_str buf') (codes "exit"))) [
          | inl out ↦ rw room (rw out (Inv-AtMostOne w h))
          | inr on ↦ rw room (
              rw on (
                continue-Ensures Closed (RoundEnd Inv Inv) AtMostOne (λ s. pure (again s))
                  (run_command client ends buf' w).0 (run_command client ends buf' w).1
                  (run_command-Closed client ends buf' w.answers w.log e h) (λ s w' k. inl k)))
        ]
        | inr full ↦ rw full (Inv-AtMostOne w h)
      ]

  leave_client-AtMostOne :
      (s : State) (w : World)
      → Inv s w
      → Ensures (λ _ _. ⊥) AtMostOne (leave_client s.read_bytes w).0 (leave_client s.read_bytes w).1
  unfolding leave_client
  leave_client-AtMostOne s w h = leave s.read_bytes
    where
      leave : (b : ℤ) → Ensures (λ _ _. ⊥) AtMostOne (leave_client b w).0 (leave_client b w).1
      leave (pos n) = Inv-AtMostOne w h
      leave (negsuc n) = Inv-AtMostOne w h

-- However the kernel answers, at most one of a thread's children is made while the write end of the
-- thread's pipe is open, and the thread never comes back.
pub handle_shell_client-AtMostOne :
    (fuel : ℕ) (stack : Bytes) (client : ℤ) (a p : Answer) (answers : List Answer)
    → let end = (ends_of p).write_end in
      Ensures
        (λ _ _. ⊥)
        (λ _ w. open_forks end w.log ≤ 1)
        (handle_shell_client fuel stack client (start (a ∷ p ∷ answers))).0
        (handle_shell_client fuel stack client (start (a ∷ p ∷ answers))).1
unfolding handle_shell_client
handle_shell_client-AtMostOne fuel stack client a fail answers = omega arith
handle_shell_client-AtMostOne fuel stack client a (gives n xs) answers =
    let ends = ends_of (gives n xs) in
    let end = ends.write_end in
    let s : State = record {
      buffer = (fetched bufsiz stack a).buffer;
      read_bytes = (fetched bufsiz stack a).bytes_read;
    } in
    let w : World = record { answers = answers; log = pipe ∷ read client bufsiz ∷ [] } in
    let r = loop fuel (shell_round client ends) s w in
    continue-Ensures (Inv end) (λ _ _. ⊥) (AtMostOne end) (λ s. leave_client s.read_bytes) r.0 r.1
      (loop_inv (Inv end) (Inv end) (AtMostOne end) (shell_round client ends)
        (λ s w h. shell_round-Inv end client ends s.buffer s.read_bytes w refl h)
        (λ s w h. Inv-AtMostOne end w h) fuel s w (inr refl))
      (leave_client-AtMostOne end)
