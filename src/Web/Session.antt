-- ===== src/Web/Session.antt =====
-- A client's whole session: every request is answered.
use osy_materials.Prelude.{
  ℕ, zero, suc, ◌-◌, ◌<◌, ◌≡◌, refl, ap, ◌∙◌, ℤ, pos, true, Option, some, ltb, lt→ltb, List, [],
  ◌∷◌, ◌++◌, length, length-append, take-eq_of_le, arith, All, Bool-cases, inl, inr, if◌then◌else◌,
  ◌==◌,
}
use osy_materials.Libc.Strings.{
  Bytes, c_str, c_str-eq_self, HasNoNul, terminated, length-terminated, c_str-terminated, read_into,
  length-read_into,
}
use osy_materials.Libc.Tokens.{IsToken}
use osy_materials.Sys.{
  Answer, gives, Call, read, write, close, pipe, fork, wait, gethostname, print, print_str, World,
  returns, stops, thread_exits, ends_of, bufsiz,
}
use osy_materials.Sys.Log.{written, output, same_fd_self}
use osy_materials.Sys.Loop.{again, leave}
use osy_materials.Sys.Pieces.{
  Item, first_text, first_text-short, item_answers, outputs, Holds, loop-Shows, GoesOn,
}
use osy_materials.Web.{State, cut_word, cut_token, handle_message, client_round, handle_client}
use osy_materials.Web.Answered.{handle_request_lem}

-- A request: its first line, the rest, the name of the host, what its child writes, and the response.
pub record Request : Type 0 where
  pub line : Bytes
  pub rest : Bytes
  pub host : Bytes
  pub out : Bytes
  pub response : Bytes
  pub ends : Bytes
  pub child : ℕ

abbrev pub text_of : Request → Bytes
text_of q = q.line ++ b'\n' ∷ q.rest

-- What is written of the response.
abbrev pub reply : Request → Bytes
reply q = c_str q.response

-- The answers to the calls for a request, while none of them fails.
abbrev pub kernel : Request → List Answer
kernel q =
    gives 0 q.host ∷ gives 0 q.ends ∷ gives (suc q.child) [] ∷ gives (length q.out) q.out ∷ []

abbrev pub item : Request → Item
item q = record { text = text_of q; taken = kernel q }

length-cut_word : (d : ℕ) (cs : Bytes) → length (cut_word d cs) ≡ length cs
unfolding cut_word
length-cut_word d [] = refl
length-cut_word d (zero ∷ cs) = refl
length-cut_word d (suc c ∷ cs) = elim (Bool-cases (suc c == d)) [
  | inl e ↦ rw e refl
  | inr e ↦ rw e (ap suc (length-cut_word d cs))
]

length-cut_token : (d : ℕ) (cs : Bytes) → length (cut_token d cs) ≡ length cs
unfolding cut_token
length-cut_token d [] = refl
length-cut_token d (c ∷ cs) = elim (Bool-cases (c == d)) [
  | inl e ↦ rw e (ap suc (length-cut_token d cs))
  | inr e ↦ rw e (length-cut_word d (c ∷ cs))
]

abbrev state : Bytes → ℤ → State
state buf n = record { buffer = buf; read_bytes = n }

module _ (formatted : Bytes → Bytes → Option Bytes) (stack : Bytes)
    (b : length stack ≡ bufsiz) where
  -- A request that fits the buffer, and the response that the `sprintf` makes for it.
  abbrev pub IsAnswered : Request → Type 0
  IsAnswered q =
      IsToken b'\n' q.line
      × HasNoNul (text_of q)
      × (length (text_of q) < bufsiz)
      × (length q.out < bufsiz)
      × (formatted q.host (terminated stack q.out) ≡ some q.response)

  module _ (client : ℤ) where
    client_round_lem :
        (buf : Bytes) (n : ℕ) (w : World)
        → 0 < n
        → client_round formatted stack client (state buf (pos n)) w
          ≡ handle_message formatted stack client buf n w
    unfolding client_round
    client_round_lem buf zero w h = absurd (omega arith)
    client_round_lem buf (suc n) w h = refl

    reply_log : Request → List Call → List Call
    reply_log q log =
        let ends = ends_of (gives 0 q.ends) in
        read client (bufsiz - 1)
        ∷ close ends.read_end
        ∷ wait
        ∷ write client (reply q)
        ∷ print "Response sent\n\n"
        ∷ read ends.read_end (bufsiz - 1)
        ∷ close ends.write_end
        ∷ fork
        ∷ print_str "%s\n" q.line
        ∷ pipe
        ∷ gethostname
        ∷ log

    handle_message_lem :
        (q : Request) (buf next : Bytes) (n : ℕ) (answers : List Answer) (log : List Call)
        → IsAnswered q
        → length buf ≡ bufsiz
        → length next < bufsiz
        → handle_message formatted stack client
            (read_into buf (text_of q))
            (length (text_of q))
            (record { answers = kernel q ++ (gives n next ∷ answers); log = log })
          ≡ (
            returns (
                again (
                  state
                    (read_into (cut_token b'\n' (terminated buf (text_of q))) next)
                    (pos (length next)))),
            record { answers = answers; log = reply_log q log },
          )
    unfolding handle_message reply_log
    handle_message_lem q buf next n answers log (t, z, l, o, f) k h =
        let text : c_str (terminated buf (text_of q)) ≡ text_of q =
          c_str-terminated buf (text_of q) (omega arith) ∙ c_str-eq_self (text_of q) z in
        let room : ltb (length (text_of q)) (length (read_into buf (text_of q))) ≡ true =
          lt→ltb _ _ (omega (arith, length-read_into buf (text_of q))) in
        let answered =
          handle_request_lem formatted stack client q.line q.rest q.host q.out q.response q.ends []
            0 0 q.child (length q.out) (gives n next ∷ answers) log t o b f in
        rw room (rw text (rw answered (rw (take-eq_of_le (bufsiz - 1) next (omega arith)) refl)))

    request-GoesOn :
        (q : Request)
        → IsAnswered q
        → GoesOn
            (client_round formatted stack client)
            (written client)
            (Holds state)
            (item q)
            (reply q)
    unfolding reply_log
    request-GoesOn q v s n next answers log (buf, k, e) h =
        let w : World = record { answers = kernel q ++ (gives n next ∷ answers); log = log } in
        let some_text : 0 < length (text_of q) =
          omega (arith, length-append q.line (b'\n' ∷ q.rest)) in
        let buf' = cut_token b'\n' (terminated buf (text_of q)) in
        (
          state (read_into buf' next) (pos (length next)),
          reply_log q log,
          ap (λ x. client_round formatted stack client x w) e
              ∙ client_round_lem (read_into buf (text_of q)) (length (text_of q)) w some_text
              ∙ handle_message_lem q buf next n answers log v k h,
          ap (λ x. written client log ++ (if x then reply q else [])) (same_fd_self client),
          (
            buf',
            length-cut_token b'\n' (terminated buf (text_of q))
                ∙ length-terminated buf (text_of q)
                ∙ k,
            refl,
          ),
        )

    leaves :
        (s : State) (w : World)
        → Holds state [] s
        → client_round formatted stack client s w ≡ (returns (leave s), w)
    unfolding client_round
    leaves s w (buf, k, e) = rw e refl

  -- A client whose requests fit the buffer and have a header line each gets all responses, in order and
  -- nothing else, and its thread ends when it leaves, while no call fails and the children write at most
  -- `BUFSIZ - 1` bytes at once.
  pub handle_client-replies :
      (client : ℤ) (fuel : ℕ) (qs : List Request)
      → All IsAnswered qs
      → length qs < fuel
      → let r =
          handle_client formatted stack fuel client
            (record { answers = item_answers item qs []; log = [] }) in
        (r.0 ≡ stops thread_exits) × (output client r ≡ outputs reply qs)
  unfolding handle_client
  handle_client-replies client fuel qs v h =
      let short = first_text-short IsAnswered item (λ q u. u.2) qs v in
      let first = first_text item qs in
      let (s, log, run, shown, (buf, k, e)) =
        loop-Shows IsAnswered item (client_round formatted stack client) (written client)
          (Holds state) reply [] (leaves client) (λ q u. u.2) (request-GoesOn client) qs v fuel
          (state (read_into stack first) (pos (length first))) (read client (bufsiz - 1) ∷ []) h
          (stack, b, refl) in
      rw (take-eq_of_le (bufsiz - 1) first (omega (arith, short))) (rw run (rw e (refl, shown)))
