-- ===== src/FileTransfer/Client/Sending.antt =====
-- What `send_file` sends of a file that is read in parts.
use osy_materials.Prelude.{
  ℕ, zero, suc, ◌-◌, ◌<◌, ◌≡◌, refl, sym, ap, ◌∙◌, ℤ, pos, List, [], ◌∷◌, ◌++◌, length,
  take-eq_of_le, arith, append_assoc, append-nil, lt→ltb, All,
}
use osy_materials.Libc.Strings.{
  terminated, length-terminated, Bytes, codes, c_str, read_into, length-read_into, c_str-terminated,
}
use osy_materials.Sys.{
  Answer, gives, Call, read, write, print_str, World, returns, fetched, bufsiz, Sys, ◌>>=◌, act,
}
use osy_materials.Sys.Loop.{again, leave, loop, loop_again, loop_leave}
use osy_materials.Sys.Log.{written, payload, output, for_fd, for_fd_nil, for_fd-append}
use osy_materials.FileTransfer.Client.{FilePart, send_round, send_file}

-- The kernel's answers while the file is read in these parts and every `write` succeeds.
abbrev pub parts_answers : List Bytes → List Answer → List Answer
parts_answers [] rest = gives 0 [] ∷ rest
parts_answers (p ∷ ps) rest = gives (length p) p ∷ gives (length p) [] ∷ parts_answers ps rest

-- A part is what one `read` of at most `BUFSIZ - 1` bytes delivers.
abbrev pub IsPart : Bytes → Type 0
IsPart p = (0 < length p) × (length p < bufsiz)

abbrev part_of : Bytes → Bytes → FilePart
part_of buf xs = record { buffer = read_into buf xs; bytes_read = pos (length xs) }

abbrev sent_log : ℤ → ℤ → Bytes → Bytes → List Call → List Call
sent_log client_fd fd buf xs log =
    read fd (bufsiz - 1)
    ∷ write client_fd (c_str (terminated buf xs))
    ∷ print_str "Line to sent: %s\n" (c_str (terminated buf xs))
    ∷ log

module _ (client_fd fd : ℤ) where
  send_round_lem :
      (x : ℕ) (buf xs : Bytes) (n : ℕ) (ys : Bytes) (a : Answer) (answers : List Answer)
      (log : List Call)
      → length (x ∷ xs) < length buf
      → send_round client_fd fd
          (part_of buf (x ∷ xs))
          (record { answers = gives n ys ∷ a ∷ answers; log = log })
        ≡ (
          returns (
              again (record {
                buffer = (fetched (bufsiz - 1) (terminated buf (x ∷ xs)) a).buffer;
                bytes_read = (fetched (bufsiz - 1) (terminated buf (x ∷ xs)) a).bytes_read;
              })),
          record { answers = answers; log = sent_log client_fd fd buf (x ∷ xs) log },
        )
  unfolding send_round
  send_round_lem x buf xs n ys a answers log h =
      rw (length-read_into buf (x ∷ xs)) (rw (lt→ltb _ _ h))

  send_round_leaves :
      (buf : Bytes) (w : World)
      → send_round client_fd fd (part_of buf []) w ≡ (returns (leave (part_of buf [])), w)
  unfolding send_round
  send_round_leaves buf w = refl

module _ (out client_fd fd : ℤ) (rest : List Answer) where
  -- The loop leaves with these bytes written and these answers left.
  abbrev Sends : ℕ → FilePart → List Answer → List Call → Bytes → Type 0
  Sends fuel s answers log sent =
      (s' : FilePart) × (log' : List Call) × (loop fuel (send_round client_fd fd) s
          (record { answers = answers; log = log })
        ≡ (returns s', record { answers = rest; log = log' }))
      × (written out log' ≡ written out log ++ for_fd out client_fd sent)

  Sends-cons :
      (fuel : ℕ) (s₁ s₂ : FilePart) (answers₁ answers₂ : List Answer) (log₁ log₂ : List Call)
      (m sent : Bytes)
      → send_round client_fd fd s₁ (record { answers = answers₁; log = log₁ })
        ≡ (returns (again s₂), record { answers = answers₂; log = log₂ })
      → written out log₂ ≡ written out log₁ ++ for_fd out client_fd m
      → Sends fuel s₂ answers₂ log₂ sent
      → Sends (suc fuel) s₁ answers₁ log₁ (m ++ sent)
  Sends-cons fuel s₁ s₂ answers₁ answers₂ log₁ log₂ m sent step w (s', log', run, w') = (
    s',
    log',
    loop_again fuel (send_round client_fd fd) step ∙ run,
    w'
        ∙ ap (λ t. t ++ for_fd out client_fd sent) w
        ∙ append_assoc (written out log₁) _ _
        ∙ ap (◌++◌ (written out log₁)) (for_fd-append out client_fd m sent),
  )

  Sends-nil :
      (fuel : ℕ) (buf : Bytes) (log : List Call) → Sends (suc fuel) (part_of buf []) rest log []
  Sends-nil fuel buf log = (
    part_of buf [],
    log,
    loop_leave fuel (send_round client_fd fd) (send_round_leaves client_fd fd buf _),
    sym (append-nil _) ∙ ap (◌++◌ (written out log)) (for_fd_nil out client_fd),
  )

  -- All parts are sent in order.
  send_parts :
      (ps : List Bytes) (fuel n : ℕ) (buf p ys : Bytes) (log : List Call)
      → length ps < fuel
      → length buf ≡ bufsiz
      → IsPart p
      → All IsPart ps
      → Sends (suc fuel) (part_of buf p) (gives n ys ∷ parts_answers ps rest) log (payload (p ∷ ps))
  send_parts [] (suc fuel) n buf (x ∷ xs) ys log h b i k =
      Sends-cons (suc fuel) _ _ _ _ _ _ (c_str (x ∷ xs)) []
        (send_round_lem client_fd fd x buf xs n ys (gives 0 []) rest log (omega arith))
        (rw (c_str-terminated buf (x ∷ xs) (omega arith)))
        (rw (take-eq_of_le {A = ℕ} (bufsiz - 1) [] (omega arith))
          (Sends-nil fuel (terminated buf (x ∷ xs)) _))
  send_parts (q ∷ ps) (suc fuel) n buf (x ∷ xs) ys log h b i k =
      Sends-cons (suc fuel) _ _ _ _ _ _ (c_str (x ∷ xs)) (payload (q ∷ ps))
        (send_round_lem client_fd fd x buf xs n ys (gives (length q) q) _ log (omega arith))
        (rw (c_str-terminated buf (x ∷ xs) (omega arith)))
        (rw (take-eq_of_le (bufsiz - 1) q (omega arith)) (
          send_parts ps fuel (length q) (terminated buf (x ∷ xs)) q [] _ (omega arith)
            (length-terminated buf (x ∷ xs) ∙ b) k.0 k.1))
  send_parts _ zero n buf _ ys log h b i k = absurd (omega arith)
  send_parts _ _ n buf [] ys log h b i k = absurd (omega arith)

module _ (out client_fd fd : ℤ) (rest : List Answer) where
  abbrev with_done : ℕ → FilePart → Sys (Unit {0})
  with_done fuel s =
      loop fuel (send_round client_fd fd) s >>= λ _. act (write client_fd (codes "DONE"))

  -- "DONE" behind what the loop sends.
  Sends-done :
      (fuel : ℕ) (s : FilePart) (answers : List Answer) (log : List Call) (sent : Bytes)
      → Sends out client_fd fd rest fuel s answers log sent
      → ((with_done fuel s (record { answers = answers; log = log })).0 ≡ returns tt)
        × (output out (with_done fuel s (record { answers = answers; log = log }))
            ≡ written out log ++ for_fd out client_fd (sent ++ codes "DONE"))
  Sends-done fuel s answers log sent (s', log', run, w') = rw run (
    refl,
    ap (λ t. t ++ for_fd out client_fd (codes "DONE")) w'
        ∙ append_assoc (written out log) _ _
        ∙ ap (◌++◌ (written out log)) (for_fd-append out client_fd sent (codes "DONE")),
  )

-- Every byte of the file up to a NUL of its part goes to the server in order, and "DONE" behind it;
-- nothing is written elsewhere.
pub send_file-output :
    (out client_fd : ℤ) (ps : List Bytes) (fuel n f : ℕ) (stack path xs ys : Bytes)
    (rest : List Answer) (log : List Call)
    → length ps < fuel
    → length stack ≡ bufsiz
    → All IsPart ps
    → let w : World = record {
      answers = gives n xs ∷ gives f ys ∷ parts_answers ps rest;
      log = log;
    } in
      ((send_file (suc fuel) stack client_fd path w).0 ≡ returns tt)
      × (output out (send_file (suc fuel) stack client_fd path w)
          ≡ written out log ++ for_fd out client_fd (payload ps ++ codes "DONE"))
unfolding send_file
send_file-output out client_fd [] fuel n f stack path xs ys rest log h b i =
    rw (take-eq_of_le {A = ℕ} (bufsiz - 1) [] (omega arith)) (
      Sends-done out client_fd (pos f) rest (suc fuel) (part_of stack []) rest _ []
        (Sends-nil out client_fd (pos f) rest fuel stack _))
send_file-output out client_fd (p ∷ ps) fuel n f stack path xs ys rest log h b i =
    rw (take-eq_of_le (bufsiz - 1) p (omega (arith, i.0))) (
      Sends-done out client_fd (pos f) rest (suc fuel) (part_of stack p)
        (gives (length p) [] ∷ parts_answers ps rest) _ (payload (p ∷ ps))
        (send_parts out client_fd (pos f) rest ps fuel (length p) stack p [] _ (omega arith) b i.0
          i.1))
