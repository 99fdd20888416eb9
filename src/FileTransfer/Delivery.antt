-- ===== src/FileTransfer/Delivery.antt =====
-- A file from the client's `main` to the file that the server saves, over any stream.
use osy_materials.Prelude.{
  ℕ, suc, ◌+◌, ◌<◌, ◌≤◌, ◌≡◌, sym, ap, ◌∙◌, ℤ, pos, false, List, [], ◌∷◌, ◌++◌, length, arith, take,
  drop, take-append, drop-append, All, ◌==◌, subst,
}
use osy_materials.Libc.Strings.{Bytes, codes, HasNoNul}
use osy_materials.Libc.Numbers.{decimal, decimal_two}
use osy_materials.Sys.{gives, start, bufsiz, bufsiz_room}
use osy_materials.Sys.Stream.{Stream}
use osy_materials.Sys.Log.{output, joined, payload-joined, IsPiece, pieces_answers}
use osy_materials.FileTransfer.Server.{serve_client}
use osy_materials.FileTransfer.Transfer.{serve_client-saves, file_done-HasNoNul}
use osy_materials.FileTransfer.Client.{main}
use osy_materials.FileTransfer.Client.Sending.{IsPart}
use osy_materials.FileTransfer.Client.Run.{run_answers, main-sends}

module _ (tcp : Stream) (fuel conn size f stale : ℕ) (stack inner name ip port path : Bytes)
    (ps : List Bytes) where
  -- What a run of the client writes to the server.
  abbrev pub client_writes : Bytes
  client_writes = output (pos conn) (
      main (suc (suc fuel)) stack inner stale (name ∷ ip ∷ port ∷ path ∷ [])
        (start (run_answers conn size f ps)))

  -- The client waits for the reply before it writes more, so its first message, the size, arrives by
  -- itself; the stream cuts the rest.
  abbrev pub arrivals : List Bytes
  arrivals =
      take (length (decimal size)) client_writes
      ∷ tcp.deliver (drop (length (decimal size)) client_writes)

  -- A file without NUL bytes that `stat` gives 10 to 99 bytes arrives whole, where the server's first
  -- `read` delivers the size, and nothing but the size, in one piece, and however the stream cuts what
  -- the client's run writes behind it: for its first client, the server saves the bytes of the file in
  -- order and "DONE" behind them.
  pub serve_client-main :
      (rounds c save : ℕ) (server last : ℤ) (buf : Bytes)
      → 10 ≤ size
      → size < 100
      → 2 < length stack
      → length inner ≡ bufsiz
      → length buf ≡ bufsiz
      → length ps < fuel
      → All IsPart ps
      → HasNoNul (joined ps)
      → (save == c) ≡ false
      → length arrivals + 2 < rounds
      → output (pos save) (
          serve_client
            (suc rounds)
            server
            (record { input_buffer = buf; init = 0; bytes_read = last })
            (record {
              answers = gives c [] ∷ gives save [] ∷ pieces_answers arrivals [];
              log = [];
            }))
        ≡ joined ps ++ codes "DONE"
  serve_client-main rounds c save server last buf low high room a b h i z d k =
      let text = decimal size in
      let whole = joined ps ++ codes "DONE" in
      let two : length text ≡ 2 = decimal_two size low high in
      let wrote : client_writes ≡ text ++ whole =
        (main-sends fuel conn size f stale stack inner name ip port path ps low high room a h i).1
        ∙ ap (λ t. text ++ (t ++ codes "DONE")) (payload-joined ps z) in
      let first : take (length text) client_writes ≡ text =
        ap (take (length text)) wrote ∙ take-append text whole in
      let rest = drop (length text) client_writes in
      let arrived : joined (tcp.deliver rest) ≡ whole =
        tcp.delivers_all rest ∙ ap (drop (length text)) wrote ∙ drop-append text whole in
      serve_client-saves rounds c save server last buf (take (length text) client_writes)
        (tcp.deliver rest) (omega (arith, k)) b
        (subst IsPiece (sym first) (omega (arith, two), omega (arith, two, bufsiz_room)))
        (tcp.fits rest) (subst HasNoNul (sym arrived) (file_done-HasNoNul (joined ps) z)) d
      ∙ arrived
