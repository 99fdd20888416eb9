-- ===== src/FileTransfer/Transfer.antt =====
-- A file on its way from the client to the server.
use osy_materials.Prelude.{
  ℕ, suc, ◌+◌, ◌<◌, ◌≡◌, ◌≢◌, refl, sym, ap, ◌∙◌, ℤ, pos, false, List, [], ◌∷◌, ◌++◌, length, arith,
  All, All-append, ◌==◌, if◌then◌else◌, subst,
}
use osy_materials.Libc.Strings.{Bytes, codes, HasNoNul}
use osy_materials.Sys.{gives, bufsiz}
use osy_materials.Sys.Log.{
  payload, output, for_fd, same_fd_self, joined, payload-joined, IsPiece, pieces_answers,
  messages-pieces_answers,
}
use osy_materials.FileTransfer.Server.{serve_client}
use osy_materials.FileTransfer.Server.Clients.{served, serve_client-output}
use osy_materials.FileTransfer.Client.{send_file}
use osy_materials.FileTransfer.Client.Sending.{parts_answers, IsPart, send_file-output}

-- What the client sends of a file that it reads in these parts.
abbrev pub sent : ℕ → ℤ → Bytes → Bytes → ℕ → List Bytes → Bytes
sent fuel conn stack path f ps = output conn (
    send_file (suc fuel) stack conn path
      (record { answers = gives 0 [] ∷ gives f [] ∷ parts_answers ps []; log = [] }))

pub sent_lem :
    (fuel f : ℕ) (conn : ℤ) (stack path : Bytes) (ps : List Bytes)
    → length ps < fuel
    → length stack ≡ bufsiz
    → All IsPart ps
    → HasNoNul (joined ps)
    → sent fuel conn stack path f ps ≡ joined ps ++ codes "DONE"
sent_lem fuel f conn stack path ps h b i z =
    (send_file-output conn conn ps fuel 0 f stack path [] [] [] [] h b i).1
    ∙ ap (λ t. if t then payload ps ++ codes "DONE" else []) (same_fd_self conn)
    ∙ ap (λ t. t ++ codes "DONE") (payload-joined ps z)

done-HasNoNul : HasNoNul (codes "DONE")
done-HasNoNul = (λ e. omega arith, (λ e. omega arith, (λ e. omega arith, (λ e. omega arith, tt))))

length-pieces_answers : (ms : List Bytes) → length (pieces_answers ms []) ≡ length ms + 1
length-pieces_answers [] = refl
length-pieces_answers (m ∷ ms) = omega (arith, length-pieces_answers ms)

-- Of the first client the server saves every byte that arrives behind the message with the size.
pub serve_client-saves :
    (rounds c save : ℕ) (server last : ℤ) (buf size : Bytes) (ms : List Bytes)
    → length ms + 2 < rounds
    → length buf ≡ bufsiz
    → IsPiece size
    → All IsPiece ms
    → HasNoNul (joined ms)
    → (save == c) ≡ false
    → output (pos save) (
        serve_client
          (suc rounds)
          server
          (record { input_buffer = buf; init = 0; bytes_read = last })
          (record {
            answers = gives c [] ∷ gives save [] ∷ pieces_answers (size ∷ ms) [];
            log = [];
          }))
      ≡ joined ms
serve_client-saves rounds c save server last buf size ms k b p q z d =
    serve_client-output (pos save) rounds c save 0 server last [] [] buf
      (pieces_answers (size ∷ ms) []) [] (omega (arith, length-pieces_answers ms)) b
    ∙ ap (served (pos save) (pos c) (pos save) 0) (messages-pieces_answers (size ∷ ms) [] (p, q))
    ∙ ap (λ t. (if t then codes "OK" else []) ++ for_fd (pos save) (pos save) (payload ms)) d
    ∙ ap (λ t. if t then payload ms else []) (same_fd_self (pos save))
    ∙ payload-joined ms z

pub file_done-HasNoNul : (xs : Bytes) → HasNoNul xs → HasNoNul (xs ++ codes "DONE")
file_done-HasNoNul xs z = All-append (λ c. c ≢ 0) xs (codes "DONE") z done-HasNoNul

-- A file without NUL bytes arrives whatever messages the stream is cut into: what the client sends of
-- it is saved by the server, for the first client and behind any message with its size, as the bytes
-- of the file in order and "DONE" behind them.
pub serve_client-sent :
    (fuel rounds f c save : ℕ) (conn server last : ℤ) (stack path buf size : Bytes)
    (ps ms : List Bytes)
    → length ps < fuel
    → length ms + 2 < rounds
    → length stack ≡ bufsiz
    → length buf ≡ bufsiz
    → All IsPart ps
    → HasNoNul (joined ps)
    → IsPiece size
    → All IsPiece ms
    → joined ms ≡ sent fuel conn stack path f ps
    → (save == c) ≡ false
    → output (pos save) (
        serve_client
          (suc rounds)
          server
          (record { input_buffer = buf; init = 0; bytes_read = last })
          (record {
            answers = gives c [] ∷ gives save [] ∷ pieces_answers (size ∷ ms) [];
            log = [];
          }))
      ≡ joined ps ++ codes "DONE"
serve_client-sent fuel rounds f c save conn server last stack path buf size ps ms h k a b i z p q e
      d =
    let arrived : joined ms ≡ joined ps ++ codes "DONE" =
      e ∙ sent_lem fuel f conn stack path ps h a i z in
    serve_client-saves rounds c save server last buf size ms k b p q
      (subst HasNoNul (sym arrived) (file_done-HasNoNul (joined ps) z)) d
    ∙ arrived
