-- ===== src/Messages/Server/Printed.antt =====
-- What the server of op_systems/server.c prints of the messages of its clients.
use osy_materials.Prelude.{
  ℕ, zero, suc, ◌+◌, ◌-◌, ◌<◌, ◌≤◌, ◌≡◌, refl, sym, ap, ◌∙◌, ℤ, pos, true, false, ltb, List, [],
  ◌∷◌, ◌++◌, length, length-replicate, replicate, take-eq_of_le, arith, append_assoc, append-nil,
  lt→ltb, All, ◌==◌,
}
use osy_materials.Libc.Strings.{
  Bytes, codes, c_str, str_eq, terminated, length-terminated, c_str-terminated, length-read_into,
  read_into,
}
use osy_materials.Sys.{
  Answer, gives, Call, read, print_str, print, close, accept, World, Outcome, stops, returns, waits,
  start,
}
use osy_materials.Sys.Log.{printed, payload}
use osy_materials.Sys.Loop.{again, loop, loop_again, loop_stops}
use osy_materials.Messages.Server.{
  State, buffer_len, message_round, print_message, by_read, next_client, open_server, first_client,
  main,
}

-- What one `read` of the server delivers, if it is not the word that ends a visit.
abbrev pub IsMessage : Bytes → Type 0
IsMessage m = (0 < length m) × (length m < buffer_len) × (str_eq (c_str m) (codes "exit") ≡ false)

-- The answers while a client sends these messages and leaves, before what follows.
abbrev pub visit_answers : List Bytes → List Answer → List Answer
visit_answers [] rest = gives 0 [] ∷ rest
visit_answers (m ∷ ms) rest = gives (length m) m ∷ visit_answers ms rest

-- The answers while these clients come one after the other; then the server waits for another.
abbrev pub visits_answers : ℕ → List (List Bytes) → List Answer
visits_answers client [] = []
visits_answers client (v ∷ vs) = gives client [] ∷ visit_answers v (visits_answers client vs)

-- All messages of all visits, and the rounds that they take.
abbrev pub all_messages : List (List Bytes) → List Bytes
all_messages [] = []
all_messages (v ∷ vs) = v ++ all_messages vs

abbrev pub rounds : List (List Bytes) → ℕ
rounds [] = 0
rounds (v ∷ vs) = length v + 1 + rounds vs

pub payload-append : (xs ys : List Bytes) → payload (xs ++ ys) ≡ payload xs ++ payload ys
payload-append [] ys = refl
payload-append (x ∷ xs) ys =
    ap (◌++◌ (c_str x)) (payload-append xs ys)
    ∙ sym (append_assoc (c_str x) (payload xs) (payload ys))

abbrev Waits : Outcome State × World → List Call → Bytes → Type 0
Waits r log out = (r.0 ≡ stops waits) × (printed r.1.log ≡ printed log ++ out)

module _ (server : ℤ) (client : ℕ) where
  state : Bytes → State
  state buf = record { input_buffer = buf; client_sock_fd = pos client }

  message_log : Bytes → List Call → List Call
  message_log m log =
      print_str "Recieved from the client: \t%s\n" (c_str m)
      ∷ read (pos client) (buffer_len - 1)
      ∷ log

  print_message_lem :
      (m buf : Bytes) (answers : List Answer) (log : List Call)
      → IsMessage m
      → length buf ≡ buffer_len
      → print_message server
          (pos client)
          (read_into buf m)
          (length m)
          (record { answers = answers; log = read (pos client) (buffer_len - 1) ∷ log })
        ≡ (
          returns (again (state (terminated buf m))),
          record { answers = answers; log = message_log m log },
        )
  unfolding print_message state message_log
  print_message_lem m buf answers log h b =
      let room : ltb (length m) (length (read_into buf m)) ≡ true =
        lt→ltb _ _ (omega (arith, length-read_into buf m, h.1, b)) in
      let some_read : (length m == 0) ≡ false = ground (arith, h.0) in
      rw room (rw (c_str-terminated buf m (omega (arith, h.1, b))) (rw h.2 (rw some_read refl)))

  message_round_lem :
      (m buf : Bytes) (n : ℕ) (answers : List Answer) (log : List Call)
      → IsMessage m
      → length buf ≡ buffer_len
      → message_round server (state buf) (record { answers = gives n m ∷ answers; log = log }) ≡ (
        returns (again (state (terminated buf m))),
        record { answers = answers; log = message_log m log },
      )
  unfolding message_round by_read state
  message_round_lem m buf n answers log h b =
      ap
        (λ t.
          print_message server (pos client) (read_into buf t) (length t)
            (record { answers = answers; log = read (pos client) (buffer_len - 1) ∷ log }))
        (take-eq_of_le (buffer_len - 1) m (omega (arith, h.1)))
      ∙ print_message_lem m buf answers log h b

  -- The end of a visit, and the next client.
  message_round_ends :
      (next : ℕ) (buf : Bytes) (answers : List Answer) (log : List Call)
      → length buf ≡ buffer_len
      → (log' : List Call) × (message_round server
            (state buf)
            (record { answers = gives 0 [] ∷ gives next [] ∷ answers; log = log })
          ≡ (
            returns
                (again (record { input_buffer = terminated buf []; client_sock_fd = pos next })),
            record { answers = answers; log = log' },
          ))
        × (printed log' ≡ printed log)
  unfolding message_round print_message next_client state str_eq
  message_round_ends next buf answers log b =
      let room : ltb 0 (length (read_into buf [])) ≡ true =
        lt→ltb _ _ (omega (arith, length-read_into buf [], b)) in
      (
        print "New client accepted\n"
            ∷ accept server
            ∷ print "waiting for another client\n"
            ∷ close (pos client)
            ∷ print_str "Recieved from the client: \t%s\n" []
            ∷ read (pos client) 1023
            ∷ log,
        rw room (rw (c_str-terminated buf [] (omega (arith, b))) refl),
        append-nil (printed log),
      )

  -- The end of the last visit: the server waits for a client.
  message_round_waits :
      (buf : Bytes) (log : List Call)
      → length buf ≡ buffer_len
      → (w' : World) × (message_round server
            (state buf)
            (record { answers = gives 0 [] ∷ []; log = log })
          ≡ (stops waits, w'))
        × (printed w'.log ≡ printed log)
  unfolding message_round print_message next_client state str_eq
  message_round_waits buf log b =
      let room : ltb 0 (length (read_into buf [])) ≡ true =
        lt→ltb _ _ (omega (arith, length-read_into buf [], b)) in
      (
        record {
          answers = [];
          log =
              accept server
              ∷ print "waiting for another client\n"
              ∷ close (pos client)
              ∷ print_str "Recieved from the client: \t%s\n" []
              ∷ read (pos client) 1023
              ∷ log;
        },
        rw room (rw (c_str-terminated buf [] (omega (arith, b))) refl),
        append-nil (printed log),
      )

  -- From any buffer, with at least so many rounds.
  abbrev Serves : ℕ → List Answer → Bytes → Type 0
  Serves n answers out =
      (fuel : ℕ) (buf : Bytes) (log : List Call)
      → n ≤ fuel
      → length buf ≡ buffer_len
      → Waits
          (loop fuel (message_round server) (state buf) (record { answers = answers; log = log }))
          log out

  -- The messages of a visit are printed before what is printed behind it.
  Serves-visit :
      (ms : List Bytes) (n : ℕ) (rest : List Answer) (out : Bytes)
      → All IsMessage ms
      → Serves n (gives 0 [] ∷ rest) out
      → Serves (length ms + n) (visit_answers ms rest) (payload ms ++ out)
  unfolding message_log
  Serves-visit [] n rest out i k fuel buf log h b = k fuel buf log (omega arith) b
  Serves-visit (m ∷ ms) n rest out i k zero buf log h b = absurd (omega arith)
  Serves-visit (m ∷ ms) n rest out i k (suc fuel) buf log h b =
      let run =
        loop_again fuel (message_round server)
          (message_round_lem m buf (length m) (visit_answers ms rest) log i.0 b) in
      let (stopped, prints) =
        Serves-visit ms n rest out i.1 k fuel (terminated buf m) (message_log m log) (omega arith)
          (length-terminated buf m ∙ b) in
      (
        ap (λ t. t.0) run ∙ stopped,
        ap (λ t. printed t.1.log) run
            ∙ prints
            ∙ append_assoc (printed log) (c_str m) (payload ms ++ out)
            ∙ ap (◌++◌ (printed log)) (sym (append_assoc (c_str m) (payload ms) out)),
      )

-- Every client behind the first is served when the one before it has left.
Serves-visits :
    (server : ℤ) (client : ℕ) (vs : List (List Bytes))
    → All (All IsMessage) vs
    → Serves server client
        (1 + rounds vs)
        (gives 0 [] ∷ visits_answers client vs)
        (payload (all_messages vs))
unfolding state
Serves-visits server client vs i zero buf log h b = absurd (omega arith)
Serves-visits server client [] i (suc fuel) buf log h b =
    let (w', run, p) = message_round_waits server client buf log b in
    let stopped = loop_stops fuel (message_round server) run in
    (ap (λ t. t.0) stopped, ap (λ t. printed t.1.log) stopped ∙ p ∙ sym (append-nil (printed log)))
Serves-visits server client (v ∷ vs) i (suc fuel) buf log h b =
    let rest = visits_answers client vs in
    let (log', run, p) = message_round_ends server client client buf (visit_answers v rest) log b in
    let next = loop_again fuel (message_round server) run in
    let (stopped, prints) =
      Serves-visit server client v (1 + rounds vs) rest (payload (all_messages vs)) i.0
        (Serves-visits server client vs i.1) fuel (terminated buf []) log' (omega arith)
        (length-terminated buf [] ∙ b) in
    (
      ap (λ t. t.0) next ∙ stopped,
      ap (λ t. printed t.1.log) next
          ∙ prints
          ∙ ap (λ t. t ++ (payload v ++ payload (all_messages vs))) p
          ∙ ap (◌++◌ (printed log)) (sym (payload-append v (all_messages vs))),
    )

-- A server whose clients come one after the other prints all their messages in order, each up to its
-- first NUL, and then waits for another client. Every message fits the buffer, and none is the word
-- that ends a visit.
pub main-printed :
    (fuel server client : ℕ) (name port : Bytes) (v : List Bytes) (vs : List (List Bytes))
    → length v + (1 + rounds vs) ≤ fuel
    → All IsMessage v
    → All (All IsMessage) vs
    → let r =
        main fuel
          (name ∷ port ∷ [])
          (start (gives server [] ∷ gives 0 [] ∷ visits_answers client (v ∷ vs))) in
      (r.0 ≡ stops waits) × (printed r.1.log ≡ payload (all_messages (v ∷ vs)))
unfolding main open_server first_client state
main-printed fuel server client name port v vs h i j =
    let (stopped, prints) =
      Serves-visit (pos server) client v (1 + rounds vs) (visits_answers client vs)
        (payload (all_messages vs)) i (Serves-visits (pos server) client vs j) fuel
        (replicate buffer_len 0) _ h (length-replicate {A = ℕ} buffer_len 0) in
    (stopped, prints ∙ sym (payload-append v (all_messages vs)))
