-- ===== src/RemoteShell/Typed.antt =====
-- A command on its way from the user to the child that runs it.
use osy_materials.Prelude.{
  ◌+◌, ◌<◌, ◌≡◌, ◌≢◌, ap, ◌∙◌, ℤ, pos, false, List, [], ◌∷◌, ◌++◌, length, arith, if◌then◌else◌,
}
use osy_materials.Libc.Strings.{Bytes, codes, HasNoNul, read_into}
use osy_materials.Libc.Tokens.{words}
use osy_materials.Sys.{Answer, gives, Call, stops, Ends, bufsiz, start}
use osy_materials.Sys.Log.{output, same_fd_self}
use osy_materials.Interpreter.Child.{child_end}
use osy_materials.RemoteShell.Server.{State, shell_round}
use osy_materials.RemoteShell.Server.Command.{shell_round-words}
use osy_materials.RemoteShell.Client.{line_round}
use osy_materials.RemoteShell.Client.Lines.{line_round-again}

-- What the client writes to its socket for a line, when the server replies.
abbrev pub sent : ℤ → ℤ → Bytes → Bytes → Bytes → Bytes
sent sock fd buf text out =
    output sock
      (line_round false sock fd buf (start (gives 0 (text ++ b'\n' ∷ []) ∷ gives 0 out ∷ [])))

sent_lem :
    (sock fd : ℤ) (buf text out : Bytes)
    → HasNoNul text
    → length text + 2 < bufsiz
    → length out < bufsiz
    → length buf ≡ bufsiz
    → sent sock fd buf text out ≡ text
sent_lem sock fd buf text out z h k b =
    let (buf', run, _) = line_round-again false sock fd 0 0 buf text out [] [] z h k b in
    ap (output sock) run ∙ ap (λ t. if t then text else []) (same_fd_self sock)

-- What the user types in the client is what the server's child runs: the text of a line, without its
-- newline, is sent, and the child of the round that reads it becomes the program of its words. The text
-- is a string that fits the buffers, not empty and not "exit".
pub shell_round-sent :
    (sock fd client : ℤ) (ends : Ends) (buf text out stack xs : Bytes) (a : Answer)
    (answers : List Answer) (log : List Call)
    → 0 < length text
    → HasNoNul text
    → text ≢ codes "exit"
    → length text + 2 < bufsiz
    → length out < bufsiz
    → length buf ≡ bufsiz
    → length stack ≡ bufsiz + 1
    → let message = sent sock fd buf text out in
      let s : State = record {
        buffer = read_into stack message;
        read_bytes = pos (length message);
      } in
      (shell_round client ends s (record { answers = gives 0 xs ∷ a ∷ answers; log = log })).0
      ≡ stops (child_end (words b' ' text) a)
shell_round-sent sock fd client ends buf text out stack xs a answers log p z ne h k b l =
    rw (sent_lem sock fd buf text out z h k b)
      (shell_round-words client ends stack text xs a answers log p z ne (omega arith) (omega arith))
