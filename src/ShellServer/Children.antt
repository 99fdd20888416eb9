-- ===== src/ShellServer/Children.antt =====
-- The children of a session with the shell server.
use osy_materials.Prelude.{
  ℕ, zero, suc, ◌+◌, ◌-◌, ◌<◌, ◌≡◌, refl, ◌∙◌, ℤ, List, [], ◌∷◌, length, take-eq_of_le, arith,
  lt→ltb, ltb, if◌then◌else◌, All,
}
use osy_materials.Libc.Strings.{
  Bytes, c_str, length-terminated, terminated, length-read_into, c_str-terminated,
}
use osy_materials.Libc.Tokens.{words}
use osy_materials.Sys.{Answer, gives, Call, read, print_str, World, Stop, crashes, stops, bufsiz}
use osy_materials.Sys.Log.{IsPiece, payload}
use osy_materials.Sys.Loop.{loop, loop_again, loop_stops}
use osy_materials.Interpreter.Child.{child_end}
use osy_materials.ShellServer.{handle_command, command_round, interpret, command_len}
use osy_materials.ShellServer.Commands.{handle_command-words}
use osy_materials.ShellServer.Session.{
  commands_answers, state_of, command_log, command_round_lem, Serves, interpret-Serves,
}

-- The answers to a process that gets these commands as the parent and is, for the next one, the child
-- that the `fork` has made; `a` is the answer behind it.
abbrev pub forked_answers : ℕ → List Bytes → Bytes → Answer → List Answer → List Answer
forked_answers pid [] q a rest = gives (length q) q ∷ gives 0 [] ∷ a ∷ rest
forked_answers pid (p ∷ ps) q a rest =
    gives (length p) p ∷ gives (suc pid) [] ∷ forked_answers pid ps q a rest

-- The end of the child for a command: the program of its words, if they fit the array.
abbrev pub end_of : Bytes → Answer → Stop
end_of q a =
    if ltb (length (words b' ' (c_str q))) command_len
    then child_end (words b' ' (c_str q)) a
    else crashes

module _ (fd : ℤ) (pid y : ℕ) (ys : Bytes) (a : Answer) (rest : List Answer) where
  child_round :
      (buf : Bytes) (log : List Call)
      → length (y ∷ ys) < length buf
      → (w : World) × (command_round fd
            (state_of buf (y ∷ ys))
            (record { answers = gives 0 [] ∷ a ∷ rest; log = log })
          ≡ (stops (end_of (y ∷ ys) a), w))
  unfolding command_round
  child_round buf log h =
      let log' : List Call = print_str "Client entered command: %s\n" (c_str (y ∷ ys)) ∷ log in
      (
        (handle_command fd (c_str (y ∷ ys))
            (record { answers = gives 0 [] ∷ a ∷ rest; log = log' })).1,
        rw (length-read_into buf (y ∷ ys)) (
            rw (lt→ltb _ _ h) (
              rw (c_str-terminated buf (y ∷ ys) h)
                (rw (handle_command-words fd (c_str (y ∷ ys)) [] 0 a rest log').0 refl))),
      )

  -- The loop, from the state behind the `read` of the command `p`.
  loop_child :
      (ps : List Bytes) (fuel : ℕ) (buf p : Bytes) (log : List Call)
      → length ps + 1 < fuel
      → length buf ≡ bufsiz
      → IsPiece p
      → IsPiece (y ∷ ys)
      → All IsPiece ps
      → (w : World) × (loop fuel (command_round fd) (state_of buf p) (record {
        answers = gives (suc pid) [] ∷ forked_answers pid ps (y ∷ ys) a rest;
        log = log;
      })
          ≡ (stops (end_of (y ∷ ys) a), w))
  loop_child [] (suc (suc fuel)) buf (x ∷ xs) log h b i j k =
      let t = terminated buf (x ∷ xs) in
      let (w, run) =
        child_round t (command_log fd (x ∷ xs) log)
          (omega (arith, j, b, length-terminated buf (x ∷ xs))) in
      (
        w,
        loop_again (suc fuel) (command_round fd) (
              command_round_lem fd pid rest x buf xs (y ∷ ys) (length (y ∷ ys))
                (gives 0 [] ∷ a ∷ rest) log (omega (arith, i)) (omega (arith, j)))
            ∙ loop_stops fuel (command_round fd) run,
      )
  loop_child (q ∷ ps) (suc fuel) buf (x ∷ xs) log h b i j k =
      let (w, run) =
        loop_child ps fuel (terminated buf (x ∷ xs)) q (command_log fd (x ∷ xs) log) (omega arith)
          (length-terminated buf (x ∷ xs) ∙ b) k.0 j k.1 in
      (
        w,
        loop_again fuel (command_round fd) (
              command_round_lem fd pid rest x buf xs q (length q)
                (gives (suc pid) [] ∷ forked_answers pid ps (y ∷ ys) a rest) log (omega (arith, i))
                (omega (arith, k.0)))
            ∙ run,
      )
  loop_child [] zero buf p log h b i j k = absurd (omega arith)
  loop_child [] (suc zero) buf p log h b i j k = absurd (omega arith)
  loop_child (q ∷ ps) zero buf p log h b i j k = absurd (omega arith)
  loop_child _ _ buf [] log h b i j k = absurd (omega (arith, i))

  interpret_child :
      (ps : List Bytes) (fuel : ℕ) (stack : Bytes) (log : List Call)
      → length ps < fuel
      → length stack ≡ bufsiz
      → All IsPiece ps
      → IsPiece (y ∷ ys)
      → (interpret fuel stack fd
          (record { answers = forked_answers pid ps (y ∷ ys) a rest; log = log })).0
        ≡ stops (end_of (y ∷ ys) a)
  unfolding interpret
  interpret_child [] (suc fuel) stack log h b i j =
      let (w, run) = child_round stack (read fd (bufsiz - 1) ∷ log) (omega (arith, j)) in
      rw (take-eq_of_le (bufsiz - 1) (y ∷ ys) (omega (arith, j)))
        (rw (loop_stops fuel (command_round fd) run) refl)
  interpret_child (p ∷ ps) (suc fuel) stack log h b i j =
      let (w, run) =
        loop_child ps (suc fuel) stack p (read fd (bufsiz - 1) ∷ log) (omega arith) b i.0 j i.1 in
      rw (take-eq_of_le (bufsiz - 1) p (omega (arith, i.0))) (rw run refl)
  interpret_child _ zero stack log h b i j = absurd (omega arith)

-- A client whose commands fit the buffer is served to its end, while every `fork` succeeds: each command
-- is printed, and a child is made for it. The child for the command behind them becomes the program of
-- the words of this command, up to its first NUL and separated by spaces; 100 words or more overflow
-- its array.
pub interpret-commands :
    (fd : ℤ) (pid fuel y : ℕ) (ys stack : Bytes) (ps : List Bytes) (a : Answer) (rest : List Answer)
    (log : List Call)
    → length ps < fuel
    → length stack ≡ bufsiz
    → All IsPiece ps
    → IsPiece (y ∷ ys)
    → Serves rest log
        (interpret
          (suc fuel)
          stack
          fd
          (record { answers = commands_answers pid ps rest; log = log }))
        (payload ps)
        (length ps)
      × ((interpret fuel stack fd
            (record { answers = forked_answers pid ps (y ∷ ys) a rest; log = log })).0
          ≡ stops (end_of (y ∷ ys) a))
interpret-commands fd pid fuel y ys stack ps a rest log h b i j = (
  interpret-Serves fd pid fuel ps stack rest log h b i,
  interpret_child fd pid y ys a rest ps fuel stack log h b i j,
)
