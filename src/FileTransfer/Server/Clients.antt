-- ===== src/FileTransfer/Server/Clients.antt =====
-- A client from `accept` to `close`, and the clients that follow one another.
use osy_materials.Prelude.{
  ℕ, zero, suc, ◌-◌, ◌<◌, ◌≡◌, refl, sym, ap, ◌∙◌, ℤ, pos, List, [], ◌∷◌, ◌++◌, length, length-take,
  take, arith, inl, inr, append_assoc, append-nil, lt→ltb,
}
use osy_materials.Libc.Strings.{
  terminated, length-terminated, Bytes, codes, c_str, length-read_into,
}
use osy_materials.Sys.{
  Answer, fail, gives, Call, read, write, print, print_str, World, Outcome, returns, stops, waits,
  continue, fetched, bufsiz, bufsiz_pos, ◌>>=◌,
}
use osy_materials.Sys.Loop.{again, loop, loop_again, loop_leave, loop_stops}
use osy_materials.Sys.Log.{written, messages, message_of, payload, output, for_fd, for_fd_nil}
use osy_materials.FileTransfer.Server.{State, session_round, serve_client, disconnect}
use osy_materials.FileTransfer.Server.Saved.{
  check_len-accepts, pending, session_leaves, session_saves,
}

-- What the handshake logs, the latest call first.
abbrev handshake_log : ℤ → Bytes → Bytes → List Call → List Call
handshake_log client buf xs log =
    read client (bufsiz - 1)
    ∷ print "OK SENT\n"
    ∷ write client (codes "OK")
    ∷ print_str "Recieved from the client%s\n" (c_str (terminated buf xs))
    ∷ log

module _ (client save : ℤ) (x : ℕ) (buf xs : Bytes) (h : length (x ∷ xs) < length buf) where
  -- The first message of all is answered, whatever it holds.
  handshake_round :
      (a : Answer) (answers : List Answer) (log : List Call)
      → session_round client save
          (pending 0 buf (x ∷ xs))
          (record { answers = a ∷ answers; log = log })
        ≡ (
          returns (
              again (record {
                input_buffer = (fetched (bufsiz - 1) (terminated buf (x ∷ xs)) a).buffer;
                init = 1;
                bytes_read = (fetched (bufsiz - 1) (terminated buf (x ∷ xs)) a).bytes_read;
              })),
          record { answers = answers; log = handshake_log client buf (x ∷ xs) log },
        )
  unfolding session_round
  handshake_round a answers log =
      rw (length-read_into buf (x ∷ xs)) (rw (lt→ltb _ _ h) (rw (check_len-accepts _)))

  handshake_waits :
      (log : List Call)
      → session_round client save (pending 0 buf (x ∷ xs)) (record { answers = []; log = log })
        ≡ (stops waits, record { answers = []; log = handshake_log client buf (x ∷ xs) log })
  unfolding session_round
  handshake_waits log =
      rw (length-read_into buf (x ∷ xs)) (rw (lt→ltb _ _ h) (rw (check_len-accepts _)))

-- What the client is told, and what is saved of its messages, by `init` at its arrival.
abbrev pub reply : ℕ → List Bytes → Bytes
reply zero (m ∷ ms) = codes "OK"
reply zero [] = []
reply (suc k) ms = []

abbrev pub kept : ℕ → List Bytes → List Bytes
kept zero [] = []
kept zero (m ∷ ms) = ms
kept (suc k) ms = ms

abbrev pub served : ℤ → ℤ → ℤ → ℕ → List Bytes → Bytes
served fd client save init ms =
    for_fd fd client (reply init ms) ++ for_fd fd save (payload (kept init ms))

nothing_for : (fd client save : ℤ) → [] ≡ for_fd fd client [] ++ for_fd fd save []
nothing_for fd client save = rw (← for_fd_nil fd client) (for_fd_nil fd save)

only_reply :
    (fd client save : ℤ)
    → for_fd fd client (codes "OK") ≡ for_fd fd client (codes "OK") ++ for_fd fd save []
only_reply fd client save = rw (← for_fd_nil fd save) (sym (append-nil _))

module _ (fd client save : ℤ) where
  session_serves :
      (init fuel : ℕ) (answers : List Answer) (buf xs : Bytes) (log : List Call)
      → length answers < fuel
      → length buf ≡ bufsiz
      → length xs < bufsiz
      → output fd (
          loop
            (suc fuel)
            (session_round client save)
            (pending init buf xs)
            (record { answers = answers; log = log }))
        ≡ written fd log
          ++ served fd client save init (message_of xs (messages (bufsiz - 1) answers))
  session_serves (suc k) fuel answers buf xs log h b l =
      session_saves fd client save k fuel answers buf xs log h b l
      ∙ ap
          (λ t.
            written fd log
            ++ (t ++ for_fd fd save (payload (message_of xs (messages (bufsiz - 1) answers)))))
          (for_fd_nil fd client)
  session_serves zero fuel answers buf [] log h b l =
      ap (output fd) (
        loop_leave fuel (session_round client save)
          (session_leaves client save (pending 0 buf []) _ (inl refl)))
      ∙ sym (append-nil _)
      ∙ ap (◌++◌ (written fd log)) (nothing_for fd client save)
  session_serves zero fuel [] buf (x ∷ xs) log h b l =
      ap (output fd) (
        loop_stops fuel (session_round client save)
          (handshake_waits client save x buf xs (omega arith) log))
      ∙ ap (◌++◌ (written fd log)) (only_reply fd client save)
  session_serves zero (suc fuel) (fail ∷ answers) buf (x ∷ xs) log h b l =
      ap (output fd) (
        loop_again (suc fuel) (session_round client save)
          (handshake_round client save x buf xs (omega arith) fail answers log))
      ∙ ap (output fd)
          (loop_leave fuel (session_round client save) (session_leaves client save _ _ (inr refl)))
      ∙ ap (◌++◌ (written fd log)) (only_reply fd client save)
  session_serves zero (suc fuel) (gives n ys ∷ answers) buf (x ∷ xs) log h b l =
      ap (output fd) (
        loop_again (suc fuel) (session_round client save)
          (handshake_round client save x buf xs (omega arith) (gives n ys) answers log))
      ∙ session_saves fd client save 0 fuel answers (terminated buf (x ∷ xs)) (take (bufsiz - 1) ys)
          (handshake_log client buf (x ∷ xs) log) (omega arith) (length-terminated buf (x ∷ xs) ∙ b)
          (omega (arith, length-take (bufsiz - 1) ys))
      ∙ append_assoc (written fd log) _ _
  session_serves _ _ _ _ _ _ h b l = absurd (omega arith)

served_nil : (fd client save : ℤ) (init : ℕ) → [] ≡ served fd client save init []
served_nil fd client save zero = nothing_for fd client save
served_nil fd client save (suc k) = nothing_for fd client save

-- The calls behind a session write nothing.
written-disconnect :
    (fd client save : ℤ) (r : Outcome State) (w : World)
    → written fd (continue r (disconnect client save) w).1.log ≡ written fd w.log
written-disconnect fd client save (returns s) w = refl
written-disconnect fd client save (stops e) w = refl

closing :
    (fd client save : ℤ) (fuel : ℕ) (s : State) (w : World)
    → output fd ((loop fuel (session_round client save) s >>= disconnect client save) w)
      ≡ output fd (loop fuel (session_round client save) s w)
closing fd client save fuel s w =
    let r = loop fuel (session_round client save) s w in written-disconnect fd client save r.0 r.1

-- What a client from `accept` to `close` leads the server to write, on every descriptor and however
-- the run ends. To the client goes "OK" if its first message is the first of all messages to the
-- server, and nothing else ever; to the file goes, for that client, all but its first message, and for
-- each later client every message, the one that announces the length included.
pub serve_client-output :
    (fd : ℤ) (fuel c f init : ℕ) (server last : ℤ) (xs ys buf : Bytes) (answers : List Answer)
    (log : List Call)
    → length answers < fuel
    → length buf ≡ bufsiz
    → output fd (
        serve_client
          (suc fuel)
          server
          (record { input_buffer = buf; init = init; bytes_read = last })
          (record { answers = gives c xs ∷ gives f ys ∷ answers; log = log }))
      ≡ written fd log ++ served fd (pos c) (pos f) init (messages (bufsiz - 1) answers)
unfolding serve_client
serve_client-output fd fuel c f init server last xs ys buf [] log h b =
    sym (append-nil _) ∙ ap (◌++◌ (written fd log)) (served_nil fd (pos c) (pos f) init)
serve_client-output fd fuel c f init server last xs ys buf (fail ∷ answers) log h b =
    closing fd (pos c) (pos f) (suc fuel) _ _
    ∙ ap (output fd) (
        loop_leave fuel (session_round (pos c) (pos f))
          (session_leaves (pos c) (pos f) _ _ (inr refl)))
    ∙ sym (append-nil _)
    ∙ ap (◌++◌ (written fd log)) (served_nil fd (pos c) (pos f) init)
serve_client-output fd fuel c f init server last xs ys buf (gives n zs ∷ answers) log h b =
    closing fd (pos c) (pos f) (suc fuel) _ _
    ∙ session_serves fd (pos c) (pos f) init fuel answers buf (take (bufsiz - 1) zs) _ (omega arith)
        b (omega (arith, length-take (bufsiz - 1) zs, bufsiz_pos))
