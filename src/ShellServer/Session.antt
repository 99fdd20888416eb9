-- ===== src/ShellServer/Session.antt =====
-- A client's session with the shell server.
use osy_materials.Prelude.{
  ℕ, zero, suc, ◌+◌, ◌-◌, ◌<◌, ◌≡◌, refl, sym, ◌∙◌, pos, ℤ, List, [], ◌∷◌, ◌++◌, length,
  take-eq_of_le, arith, append_assoc, append-nil, lt→ltb, All,
}
use osy_materials.Libc.Strings.{
  terminated, length-terminated, Bytes, c_str, read_into, length-read_into, c_str-terminated,
}
use osy_materials.Sys.{
  Answer, gives, Call, read, fork, wait, print, print_str, World, Outcome, returns, bufsiz,
}
use osy_materials.Sys.Log.{IsPiece, payload, printed, count_calls}
use osy_materials.Sys.Loop.{again, leave, loop, loop_again, loop_leave}
use osy_materials.ShellServer.{State, handle_command, command_round, interpret}

-- The answers to the parent while the client sends these commands and every `fork` succeeds.
abbrev pub commands_answers : ℕ → List Bytes → List Answer → List Answer
commands_answers pid [] rest = gives 0 [] ∷ rest
commands_answers pid (p ∷ ps) rest =
    gives (length p) p ∷ gives (suc pid) [] ∷ commands_answers pid ps rest

abbrev is_fork : Call → ℕ
is_fork fork = 1
is_fork _ = 0

-- The children that a log shows.
abbrev pub forks : List Call → ℕ
forks = count_calls is_fork

abbrev pub state_of : Bytes → Bytes → State
state_of buf xs = record { buffer = read_into buf xs; bytes_read = pos (length xs) }

abbrev pub command_log : ℤ → Bytes → List Call → List Call
command_log fd xs log =
    read fd (bufsiz - 1)
    ∷ print "Child process ended\n"
    ∷ wait
    ∷ fork
    ∷ print_str "Client entered command: %s\n" (c_str xs)
    ∷ log

-- A run returns with these commands printed and so many children made.
abbrev pub Serves : {A : Type 0} → List Answer → List Call → Outcome A × World → Bytes → ℕ → Type 0
Serves {A} rest log r out n =
    (a : A) × (log' : List Call) × (r ≡ (returns a, record { answers = rest; log = log' }))
    × (printed log' ≡ printed log ++ out)
    × (forks log' ≡ forks log + n)

module _ (fd : ℤ) (pid : ℕ) (rest : List Answer) where
  pub command_round_lem :
      (x : ℕ) (buf xs ys : Bytes) (n : ℕ) (answers : List Answer) (log : List Call)
      → length (x ∷ xs) < length buf
      → length ys < bufsiz
      → command_round fd
          (state_of buf (x ∷ xs))
          (record { answers = gives (suc pid) [] ∷ gives n ys ∷ answers; log = log })
        ≡ (
          returns (again (state_of (terminated buf (x ∷ xs)) ys)),
          record { answers = answers; log = command_log fd (x ∷ xs) log },
        )
  unfolding command_round handle_command
  command_round_lem x buf xs ys n answers log h k = rw (length-read_into buf (x ∷ xs)) (
      rw (lt→ltb _ _ h)
        (rw (take-eq_of_le (bufsiz - 1) ys (omega arith)) (rw (c_str-terminated buf (x ∷ xs) h))))

  command_round_leaves :
      (buf : Bytes) (w : World)
      → command_round fd (state_of buf []) w ≡ (returns (leave (state_of buf [])), w)
  unfolding command_round
  command_round_leaves buf w = refl

  -- The loop, from the state behind the first `read`; it leaves with the result 0 of the last one.
  abbrev Session : ℕ → State → List Answer → List Call → Bytes → ℕ → Type 0
  Session fuel s answers log out n =
      (b : Bytes) × (log' : List Call) × (loop fuel (command_round fd) s
          (record { answers = answers; log = log })
        ≡ (returns (state_of b []), record { answers = rest; log = log' }))
      × (printed log' ≡ printed log ++ out)
      × (forks log' ≡ forks log + n)

  Session-more :
      (fuel n : ℕ) (s₁ s₂ : State) (answers₁ answers₂ : List Answer) (log : List Call)
      (xs out : Bytes)
      → command_round fd s₁ (record { answers = answers₁; log = log })
        ≡ (returns (again s₂), record { answers = answers₂; log = command_log fd xs log })
      → Session fuel s₂ answers₂ (command_log fd xs log) out n
      → Session (suc fuel) s₁ answers₁ log (c_str xs ++ out) (suc n)
  Session-more fuel n s₁ s₂ answers₁ answers₂ log xs out step (b, log', run, p, f) = (
    b,
    log',
    loop_again fuel (command_round fd) step ∙ run,
    p ∙ append_assoc (printed log) (c_str xs) out,
    omega arith,
  )

  Session-end :
      (fuel : ℕ) (buf : Bytes) (log : List Call)
      → Session (suc fuel) (state_of buf []) rest log [] 0
  Session-end fuel buf log = (
    buf,
    log,
    loop_leave fuel (command_round fd) (command_round_leaves buf _),
    sym (append-nil _),
    omega arith,
  )

  Session-commands :
      (ps : List Bytes) (fuel : ℕ) (buf p : Bytes) (log : List Call)
      → length ps < fuel
      → length buf ≡ bufsiz
      → IsPiece p
      → All IsPiece ps
      → Session
          (suc fuel)
          (state_of buf p)
          (gives (suc pid) [] ∷ commands_answers pid ps rest)
          log
          (payload (p ∷ ps))
          (length (p ∷ ps))
  Session-commands [] (suc fuel) buf (x ∷ xs) log h b i k =
      Session-more (suc fuel) 0 _ _ _ rest log (x ∷ xs) []
        (command_round_lem x buf xs [] 0 rest log (omega arith) (omega arith))
        (Session-end fuel (terminated buf (x ∷ xs)) _)
  Session-commands (q ∷ ps) (suc fuel) buf (x ∷ xs) log h b i k =
      Session-more (suc fuel) (length (q ∷ ps)) _ _ _ _ log (x ∷ xs) (payload (q ∷ ps))
        (command_round_lem x buf xs q (length q) _ log (omega arith) (omega (arith, k.0)))
        (Session-commands ps fuel (terminated buf (x ∷ xs)) q _ (omega arith)
          (length-terminated buf (x ∷ xs) ∙ b) k.0 k.1)
  Session-commands _ zero buf _ log h b i k = absurd (omega arith)
  Session-commands _ _ buf [] log h b i k = absurd (omega arith)

-- A client whose commands fit the buffer is served to its end: each command is printed, and a child is
-- made for it, while every `fork` succeeds.
pub interpret-Serves :
    (fd : ℤ) (pid fuel : ℕ) (ps : List Bytes) (stack : Bytes) (rest : List Answer) (log : List Call)
    → length ps < fuel
    → length stack ≡ bufsiz
    → All IsPiece ps
    → Serves rest log
        (interpret
          (suc fuel)
          stack
          fd
          (record { answers = commands_answers pid ps rest; log = log }))
        (payload ps)
        (length ps)
unfolding interpret
interpret-Serves fd pid fuel [] stack rest log h b i =
    rw (take-eq_of_le {A = ℕ} (bufsiz - 1) [] (omega arith)) (
      let (b', log', run, p, f) = Session-end fd pid rest fuel stack (read fd (bufsiz - 1) ∷ log) in
      (tt, print "Client disconnected\n" ∷ log', rw run, p, omega arith))
interpret-Serves fd pid fuel (q ∷ ps) stack rest log h b i =
    rw (take-eq_of_le (bufsiz - 1) q (omega (arith, i.0))) (
      let (b', log', run, p, f) =
        Session-commands fd pid rest ps fuel stack q (read fd (bufsiz - 1) ∷ log) (omega arith) b
          i.0 i.1 in
      (tt, print "Client disconnected\n" ∷ log', rw run, p, omega arith))
