-- ===== src/FileTransfer/Tests.antt =====
-- Runs of op_systems/file_transfer, and its theorems at concrete inputs.
use osy_materials.Prelude.{
  suc, ◌+◌, length, refl, All, ◌-◌, ◌≡◌, pos, minus_one, List, [], ◌∷◌, ◌++◌, length-replicate,
  replicate, arith,
}
use osy_materials.Libc.Strings.{Bytes, codes, c_str-HasNoNul, sprintf_into}
use osy_materials.Libc.Numbers.{decimal}
use osy_materials.Sys.{
  Answer, gives, exits, exit_failure, exit_success, returns, stops, start, bufsiz, bufsiz_room,
}
use osy_materials.Sys.Loop.{Ensures}
use osy_materials.Sys.Log.{messages, output, written, for_fd, payload, joined, pieces_answers}
use osy_materials.FileTransfer.Server.{serve_client, main}
use osy_materials.FileTransfer.Server.Clients.{served, serve_client-output}
use osy_materials.FileTransfer.Server.Safety.{StopsWell, main-StopsWell}
use osy_materials.FileTransfer.Client
use osy_materials.FileTransfer.Client.{ask_server, send_file}
use osy_materials.FileTransfer.Client.Run.{run_answers, main-sends}
use osy_materials.FileTransfer.Delivery.{arrivals, serve_client-main}
use osy_materials.Sys.Stream.{full_reads}
use osy_materials.FileTransfer.Client.Handshake.{ask_server-large}
use osy_materials.FileTransfer.Client.Sending.{IsPart, parts_answers, send_file-output}

abbrev zeros : Bytes
zeros = replicate bufsiz 0

abbrev small : Bytes
small = 1 ∷ 2 ∷ 3 ∷ 4 ∷ 5 ∷ 6 ∷ []

-- Two messages and the end of the input.
abbrev reads : List Answer
reads = gives 2 (codes "12") ∷ gives 3 (codes "abc") ∷ gives 0 [] ∷ []

serve_client-output_example :
    output (pos 5) (
      serve_client 5
        (pos 3)
        (record { input_buffer = zeros; init = 0; bytes_read = minus_one })
        (record { answers = gives 4 [] ∷ gives 5 [] ∷ reads; log = [] }))
    ≡ served (pos 5) (pos 4) (pos 5) 0 (messages (bufsiz - 1) reads)
serve_client-output_example =
    serve_client-output (pos 5) 4 4 5 0 (pos 3) minus_one [] [] zeros reads [] (omega arith)
      (length-replicate bufsiz 0)

main-StopsWell_example :
    Ensures
      (λ _ _. ⊥)
      (λ e _. StopsWell e)
      (main 9 zeros
        (codes "server" ∷ codes "127.0.0.1" ∷ codes "8080" ∷ [])
        (start (gives 1 [] ∷ gives 3 [] ∷ gives 0 [] ∷ gives 4 [] ∷ gives 5 [] ∷ reads))).0
      (main 9 zeros
        (codes "server" ∷ codes "127.0.0.1" ∷ codes "8080" ∷ [])
        (start (gives 1 [] ∷ gives 3 [] ∷ gives 0 [] ∷ gives 4 [] ∷ gives 5 [] ∷ reads))).1
main-StopsWell_example =
    main-StopsWell 9 zeros (codes "server") (codes "127.0.0.1") (codes "8080")
      (gives 1 [] ∷ gives 3 [] ∷ gives 0 [] ∷ gives 4 [] ∷ gives 5 [] ∷ reads) (omega arith)
      (length-replicate bufsiz 0)

ask_server-large_example :
    ((ask_server
        (pos 3)
        (sprintf_into small (decimal 100))
        (record { answers = gives 2 (codes "OK") ∷ []; log = [] })).0
      ≡ stops (exits exit_failure))
    × (output (pos 3) (
          ask_server
            (pos 3)
            (sprintf_into small (decimal 100))
            (record { answers = gives 2 (codes "OK") ∷ []; log = [] }))
        ≡ written (pos 3) [] ++ for_fd (pos 3) (pos 3) (decimal 100))
unfolding decimal
ask_server-large_example =
    ask_server-large (pos 3) (pos 3) 2 100 small [] [] (omega arith) (omega arith)

abbrev parts : List Bytes
parts = codes "first" ∷ codes "rest" ∷ []

send_file-output_example :
    ((send_file 4 zeros
        (pos 3)
        (codes "f")
        (record { answers = gives 0 [] ∷ gives 7 [] ∷ parts_answers parts []; log = [] })).0
      ≡ returns tt)
    × (output (pos 3) (
          send_file 4 zeros
            (pos 3)
            (codes "f")
            (record { answers = gives 0 [] ∷ gives 7 [] ∷ parts_answers parts []; log = [] }))
        ≡ for_fd (pos 3) (pos 3) (payload parts ++ codes "DONE"))
send_file-output_example =
    send_file-output (pos 3) (pos 3) parts 3 0 7 zeros (codes "f") [] [] [] [] (omega arith)
      (length-replicate bufsiz 0)
      ((omega arith, omega (arith, bufsiz_room)), ((omega arith, omega (arith, bufsiz_room)), tt))

-- A file of 14 bytes.
abbrev short_parts : List Bytes
short_parts = codes "first part" ∷ codes "rest" ∷ []

short_parts-IsPart : All IsPart short_parts
short_parts-IsPart =
    ((omega arith, omega (arith, bufsiz_room)), ((omega arith, omega (arith, bufsiz_room)), tt))

abbrev client_argv : List Bytes
client_argv = codes "client" ∷ codes "127.0.0.1" ∷ codes "8080" ∷ codes "f" ∷ []

main-sends_example :
    ((Client.main 5 small zeros 0 client_argv (start (run_answers 3 14 7 short_parts))).0
      ≡ stops (exits exit_success))
    × (output
          (pos 3)
          (Client.main 5 small zeros 0 client_argv (start (run_answers 3 14 7 short_parts)))
        ≡ decimal 14 ++ (payload short_parts ++ codes "DONE"))
main-sends_example =
    main-sends 3 3 14 7 0 small zeros (codes "client") (codes "127.0.0.1") (codes "8080")
      (codes "f") short_parts (omega arith) (omega arith) (omega arith) (length-replicate bufsiz 0)
      (omega arith) short_parts-IsPart

abbrev short_arrivals : List Bytes
short_arrivals =
    arrivals full_reads 3 3 14 7 0 small zeros (codes "client") (codes "127.0.0.1") (codes "8080")
      (codes "f") short_parts

serve_client-main_example :
    output (pos 5) (
      serve_client
        (suc (length short_arrivals + 3))
        (pos 3)
        (record { input_buffer = zeros; init = 0; bytes_read = minus_one })
        (record { answers = gives 4 [] ∷ gives 5 [] ∷ pieces_answers short_arrivals []; log = [] }))
    ≡ joined short_parts ++ codes "DONE"
serve_client-main_example =
    serve_client-main full_reads 3 3 14 7 0 small zeros (codes "client") (codes "127.0.0.1")
      (codes "8080") (codes "f") short_parts (length short_arrivals + 3) 4 5 (pos 3) minus_one zeros
      (omega arith) (omega arith) (omega arith) (length-replicate bufsiz 0)
      (length-replicate bufsiz 0) (omega arith) short_parts-IsPart
      (c_str-HasNoNul (joined short_parts)) refl (omega arith)
