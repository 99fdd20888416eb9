-- ===== src/FileTransfer/Client/Run.antt =====
-- A whole run of the client.
use osy_materials.Prelude.{
  if◌then◌else◌, ℕ, suc, ◌<◌, ◌≤◌, ◌≡◌, refl, ap, ◌∙◌, ◌%◌, ◌^◌, ℤ, pos, true, List, [], ◌∷◌, ◌++◌,
  length, arith, All, append_assoc,
}
use osy_materials.Libc.Strings.{
  Bytes, codes, c_str, str_eq, sprintf_into, read_into, c_str-sprintf_into,
}
use osy_materials.Libc.Numbers.{atoi, decimal, decimal-IsDigit, decimal_two, IsDigit-HasNoNul}
use osy_materials.Sys.{
  Answer, gives, Call, write, read, print, print_str, close, stat, socket, connect, inet_pton,
  World, returns, stops, exits, exit_success, start, bufsiz, af_inet,
}
use osy_materials.Sys.Log.{written, payload, output, for_fd, same_fd_self}
use osy_materials.Sys.Loop.{again, loop, loop_again, loop_stops}
use osy_materials.FileTransfer.Server.{prepare_address}
use osy_materials.FileTransfer.Client.{
  Exchange, ask_server, exchange_round, send_file, send_and_exit, accept_file, main,
}
use osy_materials.FileTransfer.Client.Handshake.{overlaid, overlaid_two}
use osy_materials.FileTransfer.Client.Sending.{parts_answers, IsPart, send_file-output}

-- The exchange that an accepted size leaves.
abbrev accepted : Bytes → Exchange
accepted buf = record { output_buffer = read_into buf (codes "OK"); valid = 1 }

ask_server-accepted :
    (conn : ℤ) (n : ℕ) (buf : Bytes) (answers : List Answer) (log : List Call)
    → str_eq (c_str (read_into buf (codes "OK"))) (codes "OK") ≡ true
    → (log' : List Call) × (ask_server conn buf
          (record { answers = gives n (codes "OK") ∷ answers; log = log })
        ≡ (returns (again (accepted buf)), record { answers = answers; log = log' }))
      × (written conn log' ≡ written conn log ++ c_str buf)
unfolding ask_server accept_file bufsiz
ask_server-accepted conn n buf answers log e =
    let text = c_str (read_into buf (codes "OK")) in
    (
      print_str "Recieved back from the server:%s\n" text
          ∷ print_str "Recieved:%s\n" text
          ∷ read conn 8191
          ∷ print_str "Wrote to server:%s\n" (c_str buf)
          ∷ write conn (c_str buf)
          ∷ log,
      rw e refl,
      ap (λ t. written conn log ++ (if t then c_str buf else [])) (same_fd_self conn),
    )

-- The round in which the file is sent is the last.
exchange_round-sends :
    (fuel : ℕ) (stack path buf : Bytes) (conn : ℤ) (w : World)
    → (send_file fuel stack conn path w).0 ≡ returns tt
    → (w' : World) × (exchange_round fuel stack conn path
          (record { output_buffer = buf; valid = 1 })
          w
        ≡ (stops (exits exit_success), w'))
      × (written conn w'.log ≡ output conn (send_file fuel stack conn path w))
unfolding exchange_round send_and_exit
exchange_round-sends fuel stack path buf conn w e =
    let sent = (send_file fuel stack conn path w).1 in
    (
      record { answers = sent.answers; log = close conn ∷ print "File sent\n" ∷ sent.log },
      rw e refl,
      refl,
    )

-- The answers while the connection is made, the file has this size and the server accepts it, and the
-- file is read in these parts.
abbrev pub run_answers : ℕ → ℕ → ℕ → List Bytes → List Answer
run_answers conn size f ps =
    gives 1 []
    ∷ gives conn []
    ∷ gives 0 []
    ∷ gives size []
    ∷ gives 2 (codes "OK")
    ∷ gives 0 []
    ∷ gives f []
    ∷ parts_answers ps []

-- The calls that connect the client and look up the file, the latest first.
abbrev opening : ℤ → Bytes → Bytes → Bytes → List Call
opening conn ip port path =
    stat path
    ∷ connect conn (record { sin_family = af_inet; sin_port = atoi port % 2 ^ 16; sin_addr = ip })
    ∷ socket
    ∷ inet_pton ip
    ∷ []

accepted_two :
    (text stack : Bytes)
    → length text ≡ 2
    → 2 < length stack
    → str_eq (c_str (read_into (sprintf_into stack text) (codes "OK"))) (codes "OK") ≡ true
unfolding overlaid
accepted_two (a ∷ b ∷ []) stack l h = rw (overlaid_two a b stack h) (unfold str_eq in refl)
accepted_two _ stack l h = absurd (omega arith)

-- The rounds of the client once its file is found: one for the size, one for the file.
rounds-sends :
    (fuel size f : ℕ) (conn : ℤ) (stack inner path : Bytes) (ps : List Bytes) (log : List Call)
    → 10 ≤ size
    → size < 100
    → 2 < length stack
    → length inner ≡ bufsiz
    → length ps < fuel
    → All IsPart ps
    → let r =
        loop
          (suc (suc fuel))
          (exchange_round (suc (suc fuel)) inner conn path)
          (record { output_buffer = sprintf_into stack (decimal size); valid = 0 })
          (record {
            answers = gives 2 (codes "OK") ∷ gives 0 [] ∷ gives f [] ∷ parts_answers ps [];
            log = log;
          }) in
      (r.0 ≡ stops (exits exit_success))
      × (output conn r ≡ written conn log ++ (decimal size ++ (payload ps ++ codes "DONE")))
unfolding exchange_round
rounds-sends fuel size f conn stack inner path ps log low high room b h parts =
    let text = decimal size in
    let buf = sprintf_into stack text in
    let rest : List Answer = gives 0 [] ∷ gives f [] ∷ parts_answers ps [] in
    let ok =
      ask_server-accepted conn 2 buf rest log
        (accepted_two text stack (decimal_two size low high) room) in
    let fits : c_str buf ≡ text =
      c_str-sprintf_into stack text (IsDigit-HasNoNul text (decimal-IsDigit size))
        (omega (arith, decimal_two size low high, room)) in
    let done =
      send_file-output conn conn ps (suc fuel) 0 f inner path [] [] [] ok.0 (omega (arith, h)) b
        parts in
    let last =
      exchange_round-sends (suc (suc fuel)) inner path (accepted buf).output_buffer conn
        (record { answers = rest; log = ok.0 }) done.0 in
    let first_round =
      loop_again (suc fuel) (exchange_round (suc (suc fuel)) inner conn path) ok.1 in
    let second = loop_stops fuel (exchange_round (suc (suc fuel)) inner conn path) last.1 in
    let whole = payload ps ++ codes "DONE" in
    (
      ap (λ r. r.0) (first_round ∙ second),
      ap (output conn) (first_round ∙ second)
          ∙ last.2
          ∙ done.1
          ∙ ap (λ t. t ++ for_fd conn conn whole) (ok.2 ∙ ap (◌++◌ (written conn log)) fits)
          ∙ append_assoc (written conn log) text _
          ∙ ap (λ t. written conn log ++ (text ++ (if t then whole else []))) (same_fd_self conn),
    )

-- A file of 10 to 99 bytes that can be read in these parts is sent whole: the server gets its size in
-- decimal, every byte of it up to a NUL of its part, and "DONE", and the client succeeds.
pub main-sends :
    (fuel conn size f stale : ℕ) (stack inner name ip port path : Bytes) (ps : List Bytes)
    → 10 ≤ size
    → size < 100
    → 2 < length stack
    → length inner ≡ bufsiz
    → length ps < fuel
    → All IsPart ps
    → let r =
        main
          (suc (suc fuel))
          stack
          inner
          stale
          (name ∷ ip ∷ port ∷ path ∷ [])
          (start (run_answers conn size f ps)) in
      (r.0 ≡ stops (exits exit_success))
      × (output (pos conn) r ≡ decimal size ++ (payload ps ++ codes "DONE"))
unfolding main prepare_address
main-sends fuel conn size f stale stack inner name ip port path ps low high room b h parts =
    rounds-sends fuel size f (pos conn) stack inner path ps (opening (pos conn) ip port path) low
      high room b h parts
