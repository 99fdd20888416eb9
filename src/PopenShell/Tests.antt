-- ===== src/PopenShell/Tests.antt =====
-- Runs of op_systems/remote_shell/server.cpp, and its theorem at concrete inputs.
use osy_materials.Prelude.{◌≡◌, pos, List, [], ◌∷◌, ◌++◌, replicate, length-replicate, arith}
use osy_materials.Libc.Strings.{codes}
use osy_materials.Sys.{returns, bufsiz, bufsiz_room}
use osy_materials.Sys.Log.{printed}
use osy_materials.Sys.Pieces.{item_answers, outputs}
use osy_materials.PopenShell.{State, serve_client}
use osy_materials.PopenShell.Session.{Request, item, commands, shown, ran, serve_client-commands}

-- "ls" prints two lines; "x" is sent without a newline and loses its byte.
abbrev two_requests : List Request
two_requests =
    record { command = codes "ls"; last = b'\n'; lines = codes "a" ∷ codes "b" ∷ [] }
    ∷ record { command = []; last = b'x'; lines = [] }
    ∷ []

serve_client-commands_example :
    let r =
      serve_client 3
        (pos 5)
        (replicate bufsiz 0)
        (record { answers = item_answers item two_requests []; log = [] }) in
    ((s : State) × (r.0 ≡ returns s))
    × (commands r.1.log ≡ [] ++ outputs ran two_requests)
    × (printed r.1.log ≡ [] ++ outputs shown two_requests)
serve_client-commands_example =
    serve_client-commands 3 (pos 5) two_requests (replicate bufsiz 0) [] []
      (
        (
          (λ e. omega arith, (λ e. omega arith, tt)),
          λ e. omega arith,
          omega (arith, bufsiz_room),
          (
            ((λ e. omega arith, tt), omega (arith, bufsiz_room)),
            (((λ e. omega arith, tt), omega (arith, bufsiz_room)), tt),
          ),
          omega arith,
        ),
        ((tt, λ e. omega arith, omega (arith, bufsiz_room), tt, omega arith), tt),
      )
      (omega arith) (length-replicate bufsiz 0)
