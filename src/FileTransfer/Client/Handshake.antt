-- ===== src/FileTransfer/Client/Handshake.antt =====
-- Which replies the client takes for an acceptance.
use osy_materials.Prelude.{
  ℕ, ◌≤◌, ◌<◌, ◌≡◌, refl, ap, ℤ, List, [], ◌∷◌, ◌++◌, length, arith, true, false, All,
}
use osy_materials.Libc.Strings.{
  HasNoNul, c_str-sprintf_into, sprintf_into, Bytes, codes, c_str, str_eq, read_into,
}
use osy_materials.Libc.Numbers.{
  decimal, decimal-IsDigit, decimal_long, decimal_two, IsDigit, IsDigit-HasNoNul,
}
use osy_materials.Sys.{
  Answer, gives, Call, Outcome, returns, stops, exits, exit_failure, bufsiz, World,
}
use osy_materials.Sys.Log.{output, written, for_fd}
use osy_materials.Sys.Loop.{Round, again}
use osy_materials.FileTransfer.Client.{Exchange, ask_server}

-- What the buffer reads as when "OK" lies over the printed size.
unfoldable pub overlaid : Bytes → Bytes → Bytes
overlaid stack text = c_str (read_into (sprintf_into stack text) (codes "OK"))

overlaid_long :
    (a b c : ℕ) (rest stack : Bytes)
    → HasNoNul (a ∷ b ∷ c ∷ rest)
    → length (a ∷ b ∷ c ∷ rest) < length stack
    → overlaid stack (a ∷ b ∷ c ∷ rest) ≡ b'O' ∷ b'K' ∷ c ∷ rest
unfolding overlaid
overlaid_long a b c rest (x ∷ y ∷ stack) n h =
    ap (λ t. b'O' ∷ b'K' ∷ t) (c_str-sprintf_into stack (c ∷ rest) n.1.1 (omega arith))
overlaid_long a b c rest _ n h = absurd (omega arith)

pub overlaid_two :
    (a b : ℕ) (stack : Bytes) → 2 < length stack → overlaid stack (a ∷ b ∷ []) ≡ codes "OK"
unfolding overlaid
overlaid_two a b (x ∷ y ∷ z ∷ stack) h = refl
overlaid_two a b _ h = absurd (omega arith)

module _ (client_fd : ℤ) (n : ℕ) (answers : List Answer) (log : List Call) where
  -- The first round of the client's loop, when the server replies "OK".
  abbrev asked : Bytes → Outcome (Round Exchange) × World
  asked buf =
      ask_server client_fd buf (record { answers = gives n (codes "OK") ∷ answers; log = log })

  abbrev answered : Bytes → Outcome (Round Exchange)
  answered buf = (asked buf).0

  refused_by :
      (stack text : Bytes)
      → str_eq (overlaid stack text) (codes "OK") ≡ false
      → answered (sprintf_into stack text) ≡ stops (exits exit_failure)
  unfolding ask_server overlaid bufsiz
  refused_by stack text e = rw (e, answered)

  refused_output :
      (out : ℤ) (stack text : Bytes)
      → str_eq (overlaid stack text) (codes "OK") ≡ false
      → HasNoNul text
      → length text < length stack
      → output out (asked (sprintf_into stack text)) ≡ written out log ++ for_fd out client_fd text
  unfolding ask_server overlaid bufsiz
  refused_output out stack text e n h = rw (e, asked) (rw (c_str-sprintf_into stack text n h) refl)

  accepted_by :
      (stack text : Bytes)
      → str_eq (overlaid stack text) (codes "OK") ≡ true
      → answered (sprintf_into stack text)
        ≡ returns (
            again (record {
              output_buffer = read_into (sprintf_into stack text) (codes "OK");
              valid = 1;
            }))
  unfolding ask_server overlaid bufsiz
  accepted_by stack text e = rw (e, answered)

  long_refused :
      (out : ℤ) (text stack : Bytes)
      → All IsDigit text
      → 3 ≤ length text
      → length text < length stack
      → (answered (sprintf_into stack text) ≡ stops (exits exit_failure))
        × (output out (asked (sprintf_into stack text))
            ≡ written out log ++ for_fd out client_fd text)
  long_refused out (a ∷ b ∷ c ∷ rest) stack d l h =
      let text = a ∷ b ∷ c ∷ rest in
      let z : HasNoNul text = IsDigit-HasNoNul text d in
      let e : str_eq (overlaid stack text) (codes "OK") ≡ false =
        rw (overlaid_long a b c rest stack z h) (unfold str_eq in refl) in
      (refused_by stack text e, refused_output out stack text e z h)
  long_refused out _ stack d l h = absurd (omega arith)

  two_accepted :
      (text stack : Bytes)
      → length text ≡ 2
      → 2 < length stack
      → answered (sprintf_into stack text)
        ≡ returns (
            again (record {
              output_buffer = read_into (sprintf_into stack text) (codes "OK");
              valid = 1;
            }))
  two_accepted (a ∷ b ∷ []) stack l h =
      accepted_by stack (a ∷ b ∷ []) (rw (overlaid_two a b stack h) (unfold str_eq in refl))
  two_accepted _ stack l h = absurd (omega arith)

-- The reply "OK" is read over the printed size and not terminated: a file of 100 bytes or more is
-- always given up as invalid, though the server has accepted it, and nothing of it is sent: behind what
-- the client has written before stands its size, on the connection, and nothing else on any descriptor.
-- The text of the size and its NUL fit the buffer.
pub ask_server-large :
    (client_fd out : ℤ) (n size : ℕ) (stack : Bytes) (answers : List Answer) (log : List Call)
    → length (decimal size) < length stack
    → 100 ≤ size
    → let r =
        ask_server client_fd
          (sprintf_into stack (decimal size))
          (record { answers = gives n (codes "OK") ∷ answers; log = log }) in
      (r.0 ≡ stops (exits exit_failure))
      × (output out r ≡ written out log ++ for_fd out client_fd (decimal size))
ask_server-large client_fd out n size stack answers log h large =
    long_refused client_fd n answers log out (decimal size) stack (decimal-IsDigit size)
      (decimal_long size large) h

-- A file of 10 to 99 bytes passes the handshake when the server replies "OK".
pub ask_server-two_digits :
    (client_fd : ℤ) (n size : ℕ) (stack : Bytes) (answers : List Answer) (log : List Call)
    → 2 < length stack
    → 10 ≤ size
    → size < 100
    → (ask_server client_fd
        (sprintf_into stack (decimal size))
        (record { answers = gives n (codes "OK") ∷ answers; log = log })).0
      ≡ returns (
          again (record {
            output_buffer = read_into (sprintf_into stack (decimal size)) (codes "OK");
            valid = 1;
          }))
ask_server-two_digits client_fd n size stack answers log h low high =
    two_accepted client_fd n answers log (decimal size) stack (decimal_two size low high) h
