-- ===== src/ShellClient/Session.antt =====
-- A whole run of the client without the flag "-f", and the shell server at the other end of the stream.
use osy_materials.Prelude.{
  ℕ, zero, suc, ◌-◌, ◌<◌, ◌≡◌, refl, sym, ap, ◌∙◌, ℤ, pos, false, List, [], ◌∷◌, ◌++◌, length,
  replicate, length-replicate, set, length-set, take-eq_of_le, arith, append_assoc, append-nil, All,
  All-append, ◌≢◌, subst, if◌then◌else◌,
}
use osy_materials.Libc.Strings.{
  Bytes, codes, str_eq, HasNoNul, c_str-HasNoNul, read_into, length-read_into,
}
use osy_materials.Sys.{
  Answer, gives, Call, read, warn, stdin_fd, World, returns, stops, exits, exit_failure, start,
  bufsiz,
}
use osy_materials.Sys.Stream.{Stream}
use osy_materials.Sys.Log.{same_fd_self, IsPiece, written, output, joined, payload, payload-joined}
use osy_materials.Sys.Loop.{again, loop, loop_again, loop_stops}
use osy_materials.Sys.Pieces.{outputs}
use osy_materials.ShellClient.{handle_response, line_round, init_client, main}
use osy_materials.ShellClient.Saved.{saved}
use osy_materials.ShellClient.Exchange.{line_round_lem, sent_log}
use osy_materials.ShellServer.{interpret}
use osy_materials.ShellServer.Session.{commands_answers, Serves, interpret-Serves}

-- The answers while the user types these lines, every `write` succeeds, and the input ends.
abbrev pub lines_answers : List Bytes → List Answer
lines_answers [] = gives 0 [] ∷ []
lines_answers (l ∷ ls) = gives (length l) l ∷ gives (length (saved l)) [] ∷ lines_answers ls

module _ (fuel : ℕ) (client : ℤ) (flag : Bytes) (no_file : str_eq flag (codes "-f") ≡ false) where
  no_response : (w : World) → handle_response fuel client flag w ≡ (returns tt, w)
  unfolding handle_response
  no_response w = rw no_file refl

  line_round_ends :
      (buf : Bytes) (log : List Call)
      → line_round fuel client flag buf (record { answers = gives 0 [] ∷ []; log = log }) ≡ (
        stops (exits exit_failure),
        record {
          answers = [];
          log = warn "Could not read from stdin\n" ∷ read stdin_fd (bufsiz - 1) ∷ log;
        },
      )
  unfolding line_round
  line_round_ends buf log = rw (take-eq_of_le {A = ℕ} (bufsiz - 1) [] (omega arith)) refl

  -- The rounds of these lines, from a buffer and a log, stop at the end of the input.
  loop-lines :
      (ls : List Bytes) (rounds : ℕ) (buf : Bytes) (log : List Call)
      → length ls < rounds
      → length buf ≡ bufsiz
      → All IsPiece ls
      → let r =
          loop rounds
            (line_round fuel client flag)
            buf
            (record { answers = lines_answers ls; log = log }) in
        (r.0 ≡ stops (exits exit_failure))
        × (output client r ≡ written client log ++ outputs saved ls)
  loop-lines ls zero buf log h b i = absurd (omega arith)
  loop-lines [] (suc rounds) buf log h b i =
      let run = loop_stops rounds (line_round fuel client flag) (line_round_ends buf log) in
      (ap (λ t. t.0) run, ap (output client) run ∙ sym (append-nil (written client log)))
  loop-lines ([] ∷ ls) (suc rounds) buf log h b i = absurd (omega (arith, i.0.0))
  loop-lines ((x ∷ xs) ∷ ls) (suc rounds) buf log h b i =
      let line = x ∷ xs in
      let buf' = set (read_into buf line) (length xs) 0 in
      let w : World = record { answers = lines_answers ls; log = sent_log client line log } in
      let quiet = no_response w in
      let step =
        line_round_lem fuel x (length line) (length (saved line)) client flag buf xs []
          (lines_answers ls) log i.0.1 b (ap (λ t. t.0) quiet)
        ∙ ap (λ t. (returns (again buf'), t.1)) quiet in
      let run = loop_again rounds (line_round fuel client flag) step in
      let (ends, sends) =
        loop-lines ls rounds buf' (sent_log client line log) (omega (arith, h))
          (length-set (read_into buf line) (length xs) 0 ∙ length-read_into buf line ∙ b) i.1 in
      (
        ap (λ t. t.0) run ∙ ends,
        ap (output client) run
            ∙ sends
            ∙ ap (λ t. (written client log ++ (if t then saved line else [])) ++ outputs saved ls)
                (same_fd_self client)
            ∙ append_assoc (written client log) (saved line) (outputs saved ls),
      )

-- The answers while the client connects.
abbrev pub connecting : ℕ → List Answer → List Answer
connecting client rest = gives 1 [] ∷ gives client [] ∷ gives 0 [] ∷ rest

-- Without the flag "-f" the client sends every line of the user, in order and each without its last
-- byte, one behind the other with nothing between them, until the input ends; then it fails.
pub main-lines :
    (fuel client : ℕ) (name ip port flag : Bytes) (ls : List Bytes)
    → str_eq flag (codes "-f") ≡ false
    → length ls < fuel
    → All IsPiece ls
    → let r =
        main fuel (name ∷ ip ∷ port ∷ flag ∷ []) (start (connecting client (lines_answers ls))) in
      (r.0 ≡ stops (exits exit_failure)) × (output (pos client) r ≡ outputs saved ls)
unfolding main init_client
main-lines fuel client name ip port flag ls no_file h i =
    loop-lines fuel (pos client) flag no_file ls fuel (replicate bufsiz 0) _ h
      (length-replicate bufsiz 0) i

saved-HasNoNul : (ls : List Bytes) → HasNoNul (outputs saved ls)
saved-HasNoNul [] = tt
saved-HasNoNul (l ∷ ls) =
    All-append (λ c. c ≢ 0) (saved l) (outputs saved ls) (c_str-HasNoNul _) (saved-HasNoNul ls)

module _ (tcp : Stream) (fuel client : ℕ) (name ip port flag : Bytes) (ls : List Bytes) where
  -- What the server's reads deliver of a run of the client.
  abbrev pub arrivals : List Bytes
  arrivals = tcp.deliver (
      output (pos client)
        (main fuel (name ∷ ip ∷ port ∷ flag ∷ []) (start (connecting client (lines_answers ls)))))

  -- The shell server behind a run of the client without the flag "-f": all lines that the user has
  -- typed, in order, each without its last byte and up to its first NUL, are printed as the commands of
  -- the session, and a child is made for every piece that the stream delivers, which need not be a line.
  -- Each `fork` succeeds, and each line has a byte and fits the buffer.
  pub interpret-lines :
      (fd : ℤ) (pid rounds : ℕ) (stack : Bytes) (rest : List Answer) (log : List Call)
      → str_eq flag (codes "-f") ≡ false
      → length ls < fuel
      → All IsPiece ls
      → length arrivals < rounds
      → length stack ≡ bufsiz
      → Serves rest log
          (interpret
            (suc rounds)
            stack
            fd
            (record { answers = commands_answers pid arrivals rest; log = log }))
          (outputs saved ls)
          (length arrivals)
  interpret-lines fd pid rounds stack rest log no_file h i k b =
      let sent = (main-lines fuel client name ip port flag ls no_file h i).1 in
      let arrived : joined arrivals ≡ outputs saved ls = tcp.delivers_all _ ∙ sent in
      let all : payload arrivals ≡ outputs saved ls =
        payload-joined arrivals (subst HasNoNul (sym arrived) (saved-HasNoNul ls)) ∙ arrived in
      rw (← all) (interpret-Serves fd pid rounds arrivals stack rest log k b (tcp.fits _))
