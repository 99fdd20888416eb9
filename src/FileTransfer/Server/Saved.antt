-- ===== src/FileTransfer/Server/Saved.antt =====
-- What the server writes to the saved file and to the client.
use osy_materials.Prelude.{
  ℕ, suc, ◌-◌, ◌<◌, ◌≡◌, refl, sym, ap, ◌∙◌, ℤ, pos, List, [], ◌∷◌, ◌++◌, length, length-take, take,
  arith, ◌⊎◌, inl, inr, minus_one, suc_eq_zero, append_assoc, append-nil, lt→ltb,
}
use osy_materials.Libc.Strings.{
  terminated, length-terminated, Bytes, c_str, read_into, c_str-terminated, length-read_into,
}
use osy_materials.Sys.{
  Answer, fail, gives, Call, read, write, World, returns, fetched, bufsiz, stops, waits, print,
  print_str,
}
use osy_materials.Sys.Loop.{again, leave, loop, loop_again, loop_leave, loop_stops}
use osy_materials.Sys.Log.{
  written, messages, message_of, payload, output, for_fd, for_fd_nil, for_fd-append,
}
use osy_materials.FileTransfer.Server.{check_len, State, session_round}

-- The check of the length never refuses: `isdigit` is called with the result of a comparison.
pub check_len-accepts : (s : Bytes) → check_len s ≡ 1
unfolding check_len
check_len-accepts [] = refl
check_len-accepts (c ∷ cs) = ground (arith, check_len-accepts cs)

-- The state behind a `read` into `buf` that delivered `xs`.
abbrev pub pending : ℕ → Bytes → Bytes → State
pending init buf xs = record {
  input_buffer = read_into buf xs;
  init = init;
  bytes_read = pos (length xs);
}

abbrev HasRoom : Bytes → Bytes → Type 0
HasRoom buf xs = length xs < length buf

-- What a session logs for a message, the latest call first.
abbrev saved_log : ℤ → ℤ → Bytes → Bytes → List Call → List Call
saved_log client save buf xs log =
    read client (bufsiz - 1)
    ∷ print "Line written on the server\n"
    ∷ write save (c_str (terminated buf xs))
    ∷ print_str "Recieved from the client%s\n" (c_str (terminated buf xs))
    ∷ log

module _ (client save : ℤ) (k x : ℕ) (buf xs : Bytes) (h : HasRoom buf (x ∷ xs)) where
  -- A round of a session whose handshake is over saves the message and reads the next one.
  save_round :
      (a : Answer) (answers : List Answer) (log : List Call)
      → session_round client save
          (pending (suc k) buf (x ∷ xs))
          (record { answers = a ∷ answers; log = log })
        ≡ (
          returns (
              again (record {
                input_buffer = (fetched (bufsiz - 1) (terminated buf (x ∷ xs)) a).buffer;
                init = suc k;
                bytes_read = (fetched (bufsiz - 1) (terminated buf (x ∷ xs)) a).bytes_read;
              })),
          record { answers = answers; log = saved_log client save buf (x ∷ xs) log },
        )
  unfolding session_round
  save_round a answers log =
      rw (length-read_into buf (x ∷ xs)) (rw (lt→ltb _ _ h) (rw (suc_eq_zero k)))

  save_round_waits :
      (log : List Call)
      → session_round client save
          (pending (suc k) buf (x ∷ xs))
          (record { answers = []; log = log })
        ≡ (stops waits, record { answers = []; log = saved_log client save buf (x ∷ xs) log })
  unfolding session_round
  save_round_waits log = rw (length-read_into buf (x ∷ xs)) (rw (lt→ltb _ _ h) (rw (suc_eq_zero k)))

pub session_leaves :
    (client save : ℤ) (s : State) (w : World)
    → (s.bytes_read ≡ pos 0) ⊎ (s.bytes_read ≡ minus_one)
    → session_round client save s w ≡ (returns (leave s), w)
unfolding session_round
session_leaves client save s w (inl e) = rw e
session_leaves client save s w (inr e) = rw e

written_saved :
    (fd client save : ℤ) (buf xs : Bytes) (log : List Call)
    → length xs < length buf
    → written fd (saved_log client save buf xs log) ≡ written fd log ++ for_fd fd save (c_str xs)
written_saved fd client save buf xs log h = rw (c_str-terminated buf xs h)

module _ (fd client save : ℤ) (k : ℕ) where
  -- A session whose handshake is over writes the messages that the client sends to the file, and
  -- nothing else anywhere; this holds however the session ends.
  pub session_saves :
      (fuel : ℕ) (answers : List Answer) (buf xs : Bytes) (log : List Call)
      → length answers < fuel
      → length buf ≡ bufsiz
      → length xs < bufsiz
      → output fd (
          loop
            (suc fuel)
            (session_round client save)
            (pending (suc k) buf xs)
            (record { answers = answers; log = log }))
        ≡ written fd log ++ for_fd fd save (payload (message_of xs (messages (bufsiz - 1) answers)))
  session_saves fuel answers buf [] log h b l =
      ap (output fd) (
        loop_leave fuel (session_round client save)
          (session_leaves client save (pending (suc k) buf []) _ (inl refl)))
      ∙ sym (append-nil _)
      ∙ ap (◌++◌ (written fd log)) (for_fd_nil fd save)
  session_saves fuel [] buf (x ∷ xs) log h b l =
      ap (output fd) (
        loop_stops fuel (session_round client save)
          (save_round_waits client save k x buf xs (omega arith) log))
      ∙ written_saved fd client save buf (x ∷ xs) log (omega arith)
      ∙ rw append-nil
  session_saves (suc fuel) (fail ∷ answers) buf (x ∷ xs) log h b l =
      ap (output fd) (
        loop_again (suc fuel) (session_round client save)
          (save_round client save k x buf xs (omega arith) fail answers log))
      ∙ ap (output fd)
          (loop_leave fuel (session_round client save) (session_leaves client save _ _ (inr refl)))
      ∙ written_saved fd client save buf (x ∷ xs) log (omega arith)
      ∙ rw append-nil
  session_saves (suc fuel) (gives n ys ∷ answers) buf (x ∷ xs) log h b l =
      let later = payload (message_of (take (bufsiz - 1) ys) (messages (bufsiz - 1) answers)) in
      ap (output fd) (
        loop_again (suc fuel) (session_round client save)
          (save_round client save k x buf xs (omega arith) (gives n ys) answers log))
      ∙ session_saves fuel answers (terminated buf (x ∷ xs)) (take (bufsiz - 1) ys)
          (saved_log client save buf (x ∷ xs) log) (omega arith)
          (length-terminated buf (x ∷ xs) ∙ b) (omega (arith, length-take (bufsiz - 1) ys))
      ∙ ap (λ t. t ++ for_fd fd save later)
          (written_saved fd client save buf (x ∷ xs) log (omega arith))
      ∙ append_assoc (written fd log) _ _
      ∙ ap (◌++◌ (written fd log)) (for_fd-append fd save (c_str (x ∷ xs)) later)
  session_saves _ _ _ _ _ h b l = absurd (omega arith)
