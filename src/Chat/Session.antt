-- ===== src/Chat/Session.antt =====
-- A client's whole session: which of its messages goes to whom.
use osy_materials.Prelude.{
  ℕ, zero, suc, ◌+◌, ◌-◌, ◌<◌, ◌≤◌, ◌≡◌, refl, sym, ap, ◌∙◌, ℤ, List, [], ◌∷◌, ◌++◌, take,
  take-eq_of_le, length, arith, append-nil, append_assoc, if◌then◌else◌, All, true, ltb, lt→ltb,
}
use osy_materials.Libc.Strings.{
  Bytes, c_str, terminated, length-terminated, c_str-terminated, read_into, length-read_into,
}
use osy_materials.Sys.{Answer, gives, Call, read, print_str, returns, stops, thread_exits, bufsiz}
use osy_materials.Sys.Log.{written, output, same_fd, for_fd, IsPiece, pieces_answers}
use osy_materials.Sys.Loop.{again, loop, loop_again, loop_stops}
use osy_materials.Chat.{
  SockDesc, State, broad_cast, by_read, take_message, client_round, handle_client,
}
use osy_materials.Chat.Broadcast.{delivered, broad_to_lem}

-- Only the string in the buffer matters.
delivered_congr :
    (fd excluded : ℤ) (ds : List ℤ) (a b : Bytes)
    → c_str a ≡ c_str b
    → delivered fd excluded ds a ≡ delivered fd excluded ds b
delivered_congr fd excluded [] a b e = refl
delivered_congr fd excluded (d ∷ ds) a b e =
    ap (λ t. (if same_fd d excluded then [] else for_fd fd d t) ++ delivered fd excluded ds a) e
    ∙ ap (λ t. (if same_fd d excluded then [] else for_fd fd d (c_str b)) ++ t)
        (delivered_congr fd excluded ds a b e)

module _ (fd active : ℤ) (shared : ℕ → SockDesc) where
  -- What arrives at `fd` of these messages, the first of which has this number.
  abbrev pub relayed : ℕ → List Bytes → Bytes
  relayed n [] = []
  relayed n (m ∷ ms) =
      delivered fd active (take (shared n).current_num (shared n).fds) m ++ relayed (n + 1) ms

  state : Bytes → ℕ → State
  state buf n = record { buffer = buf; handled = n }

  client_round_lem :
      (x : ℕ) (xs buf : Bytes) (n : ℕ) (answers : List Answer) (log : List Call)
      → length (x ∷ xs) < bufsiz
      → length buf ≡ bufsiz
      → (shared n).current_num ≤ length (shared n).fds
      → let m = x ∷ xs in
        (log' : List Call) × (client_round shared active
            (state buf n)
            (record { answers = gives (length m) m ∷ answers; log = log })
          ≡ (
            returns (again (state (terminated buf m) (n + 1))),
            record { answers = answers; log = log' },
          ))
        × (written fd log'
            ≡ written fd log ++ delivered fd active (take (shared n).current_num (shared n).fds) m)
  unfolding client_round take_message state broad_cast
  client_round_lem x xs buf n answers log h b k =
      let m = x ∷ xs in
      let room : ltb (length m) (length (read_into buf m)) ≡ true =
        lt→ltb _ _ (omega (arith, length-read_into buf m, h, b)) in
      let text = c_str-terminated buf m (omega (arith, h, b)) in
      let ds = take (shared n).current_num (shared n).fds in
      let (log', run, out) =
        broad_to_lem fd active (shared n).current_num (shared n).fds (terminated buf m) answers
          (print_str "Response from the client:%s\n" (c_str (terminated buf m))
            ∷ read active (bufsiz - 1)
            ∷ log)
          k in
      (
        log',
        rw (take-eq_of_le (bufsiz - 1) m (omega (arith, h))) (rw room (rw run refl)),
        out
            ∙ ap (λ t. written fd log ++ t)
                (delivered_congr fd active ds (terminated buf m) m text),
      )

  client_round_leaves :
      (buf : Bytes) (n : ℕ) (log : List Call)
      → client_round shared active (state buf n) (record { answers = gives 0 [] ∷ []; log = log })
        ≡ (stops thread_exits, record { answers = []; log = read active (bufsiz - 1) ∷ log })
  unfolding client_round by_read state
  client_round_leaves buf n log = rw (take-eq_of_le {A = ℕ} (bufsiz - 1) [] (omega arith)) refl

  loop-relayed :
      (ms : List Bytes) (fuel n : ℕ) (buf : Bytes) (log : List Call)
      → ((k : ℕ) → (shared k).current_num ≤ length (shared k).fds)
      → All IsPiece ms
      → length ms < fuel
      → length buf ≡ bufsiz
      → let r =
          loop fuel
            (client_round shared active)
            (state buf n)
            (record { answers = pieces_answers ms []; log = log }) in
        (r.0 ≡ stops thread_exits) × (output fd r ≡ written fd log ++ relayed n ms)
  loop-relayed ms zero n buf log room i h b = absurd (omega arith)
  loop-relayed [] (suc fuel) n buf log room i h b =
      let run = loop_stops fuel (client_round shared active) (client_round_leaves buf n log) in
      (ap (λ t. t.0) run, ap (output fd) run ∙ sym (append-nil (written fd log)))
  loop-relayed ([] ∷ ms) (suc fuel) n buf log room i h b = absurd (omega (arith, i.0.0))
  loop-relayed ((x ∷ xs) ∷ ms) (suc fuel) n buf log room i h b =
      let m = x ∷ xs in
      let (log', step, out) =
        client_round_lem x xs buf n (pieces_answers ms []) log i.0.1 b (room n) in
      let run = loop_again fuel (client_round shared active) step in
      let (ends, outs) =
        loop-relayed ms fuel (n + 1) (terminated buf m) log' room i.1 (omega arith)
          (length-terminated buf m ∙ b) in
      (
        ap (λ t. t.0) run ∙ ends,
        ap (output fd) run
            ∙ outs
            ∙ ap (λ t. t ++ relayed (n + 1) ms) out
            ∙ append_assoc (written fd log) _ _,
      )

-- Every message of a client goes, in order and up to its first NUL, once to each of the clients that
-- the shared structure holds at that message, but for the one that sent it, and nothing is written
-- elsewhere; when the client leaves, the thread ends. The messages fit the buffer, and the number of
-- clients stays within the array.
pub handle_client-relayed :
    (fd : ℤ) (fuel : ℕ) (first : SockDesc) (shared : ℕ → SockDesc) (stack : Bytes) (ms : List Bytes)
    (log : List Call)
    → ((k : ℕ) → (shared k).current_num ≤ length (shared k).fds)
    → All IsPiece ms
    → length ms < fuel
    → length stack ≡ bufsiz
    → let r =
        handle_client fuel first shared stack
          (record { answers = pieces_answers ms []; log = log }) in
      (r.0 ≡ stops thread_exits)
      × (output fd r ≡ written fd log ++ relayed fd first.current_active shared 0 ms)
unfolding handle_client state
handle_client-relayed fd fuel first shared stack ms log room i h b =
    loop-relayed fd first.current_active shared ms fuel 0 stack log room i h b
