-- ===== src/ShellClient/Tests.antt =====
-- Runs of op_systems/shellInterpreter/ShellClient/client.cpp, and its theorem at concrete inputs.
use osy_materials.Prelude.{
  suc, ◌+◌, ap, All, refl, length, ◌≡◌, pos, List, [], ◌∷◌, ◌++◌, arith, replicate,
  length-replicate,
}
use osy_materials.Libc.Strings.{Bytes, codes, str_eq}
use osy_materials.Sys.{gives, returns, bufsiz, bufsiz_room}
use osy_materials.Sys.Log.{IsPiece, for_fd, output}
use osy_materials.Sys.Pieces.{outputs}
use osy_materials.ShellClient.{line_round}
use osy_materials.ShellClient.Session.{main-lines, arrivals, interpret-lines}
use osy_materials.ShellServer.{interpret}
use osy_materials.ShellServer.Session.{commands_answers, Serves}
use osy_materials.Sys.Stream.{full_reads, cut}
use osy_materials.ShellClient.Exchange.{line_round-saved}
use osy_materials.Sys.Loop.{again}
use osy_materials.ShellClient.Saved.{response_answers, saved}

abbrev two_pieces : List Bytes
two_pieces = codes "abc" ∷ codes "de" ∷ []

line_round-saved_example :
    let r = line_round 3 (pos 5) (codes "-f") (replicate bufsiz 0) (record {
      answers = gives 3 (codes "ls" ++ b'\n' ∷ []) ∷ gives 2 [] ∷ response_answers 6 two_pieces [];
      log = [];
    }) in
    ((buf' : Bytes) × (r.0 ≡ returns (again buf')) × (length buf' ≡ bufsiz))
    × (output (pos 5) r
        ≡ []
          ++ (for_fd (pos 5) (pos 5) (saved (codes "ls" ++ b'\n' ∷ []))
              ++ for_fd (pos 5) (pos 6) (outputs saved two_pieces)))
line_round-saved_example =
    line_round-saved (pos 5) (pos 5) 3 3 2 6 (replicate bufsiz 0) (codes "ls" ++ b'\n' ∷ []) []
      two_pieces [] [] (omega arith, omega (arith, bufsiz_room))
      ((omega arith, omega (arith, bufsiz_room)), ((omega arith, omega (arith, bufsiz_room)), tt))
      (omega arith) (length-replicate bufsiz 0)

-- The last bytes are lost.
saved_test : outputs saved two_pieces ≡ codes "abd"
saved_test = refl

-- Two lines of the user.
abbrev two_lines : List Bytes
two_lines = (codes "ls" ++ b'\n' ∷ []) ∷ (codes "who" ++ b'\n' ∷ []) ∷ []

two_lines-IsPiece : All IsPiece two_lines
two_lines-IsPiece =
    ((omega arith, omega (arith, bufsiz_room)), ((omega arith, omega (arith, bufsiz_room)), tt))

abbrev delivered : List Bytes
delivered =
    arrivals full_reads 3 5 (codes "client") (codes "127.0.0.1") (codes "80") (codes "-n") two_lines

interpret-lines_example :
    Serves [] []
      (interpret
        (suc (length delivered + 1))
        (replicate bufsiz 0)
        (pos 4)
        (record { answers = commands_answers 7 delivered []; log = [] }))
      (outputs saved two_lines)
      (length delivered)
interpret-lines_example =
    interpret-lines full_reads 3 5 (codes "client") (codes "127.0.0.1") (codes "80") (codes "-n")
      two_lines (pos 4) 7 (length delivered + 1) (replicate bufsiz 0) [] [] (unfold str_eq in refl)
      (omega arith) two_lines-IsPiece (omega arith) (length-replicate bufsiz 0)

-- Two lines that arrive together are one command.
merged_test : delivered ≡ codes "lswho" ∷ []
unfolding full_reads cut bufsiz
merged_test =
    ap full_reads.deliver
      (main-lines 3 5 (codes "client") (codes "127.0.0.1") (codes "80") (codes "-n") two_lines
        (unfold str_eq in refl) (omega arith) two_lines-IsPiece).1
