-- ===== src/Web/Answered.antt =====
-- How a request is answered.
use osy_materials.Prelude.{
  ℕ, suc, ◌-◌, ◌<◌, ◌≡◌, refl, ℤ, true, Option, some, List, ◌∷◌, ◌++◌, length, take-eq_of_le, ltb,
  lt→ltb, arith,
}
use osy_materials.Libc.Strings.{Bytes, c_str, read_into, terminated, length-read_into}
use osy_materials.Libc.Tokens.{strtok-append, IsToken}
use osy_materials.Sys.{
  Answer, gives, Call, read, write, close, pipe, fork, wait, gethostname, print, print_str, returns,
  ends_of, bufsiz,
}
use osy_materials.Web.{
  respond, end_text, write_not_found, end_output, run_parent, by_fork, make_pipe, by_host,
  handle_request,
}

-- A request with a header line, whose child writes at most `BUFSIZ - 1` bytes at once, is answered with
-- one response, the one that the `sprintf` makes of these bytes; the child is waited for, and both ends
-- of the pipe are closed.
pub handle_request_lem :
    (formatted : Bytes → Bytes → Option Bytes) (stack : Bytes) (client : ℤ)
    (line rest host out response ends xs : Bytes) (n k pid m : ℕ) (answers : List Answer)
    (log : List Call)
    → IsToken b'\n' line
    → length out < bufsiz
    → length stack ≡ bufsiz
    → formatted host (terminated stack out) ≡ some response
    → let pipe_ends = ends_of (gives k ends) in
      let kernel = gives n host ∷ gives k ends ∷ gives (suc pid) xs ∷ gives m out ∷ answers in
      handle_request formatted stack client
        (line ++ b'\n' ∷ rest)
        (record { answers = kernel; log = log })
      ≡ (
        returns tt,
        record {
          answers = answers;
          log =
              close pipe_ends.read_end
              ∷ wait
              ∷ write client (c_str response)
              ∷ print "Response sent\n\n"
              ∷ read pipe_ends.read_end (bufsiz - 1)
              ∷ close pipe_ends.write_end
              ∷ fork
              ∷ print_str "%s\n" line
              ∷ pipe
              ∷ gethostname
              ∷ log;
        },
      )
unfolding handle_request by_host make_pipe by_fork run_parent end_output end_text write_not_found
    respond
handle_request_lem formatted stack client line rest host out response ends xs n k pid m answers log
      t h b f =
    let room : ltb (length out) (length (read_into stack out)) ≡ true =
      lt→ltb _ _ (omega (arith, length-read_into stack out)) in
    rw (strtok-append b'\n' line rest t)
      (rw (take-eq_of_le (bufsiz - 1) out (omega arith)) (rw room (rw f refl)))
