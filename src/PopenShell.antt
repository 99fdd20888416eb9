-- ===== src/PopenShell.antt =====
-- op_systems/remote_shell/server.cpp, with the class of server.h.
pub mod Commands
pub mod Session
mod Tests
use osy_materials.Prelude.{
  ℕ, zero, suc, ◌-◌, ℤ, pos, negsuc, is_minus_one, minus_one, Bool, true, false, List, [], ◌∷◌,
  ◌==◌, if◌then◌else◌, replicate,
}
use osy_materials.Libc.Strings.{Bytes, c_str, strlen}
use osy_materials.Libc.Numbers.{atoi}
use osy_materials.Sys.{
  Answer, fail, gives, SockAddr, close, inet_pton, socket, bind, listen, accept, popen, fgets,
  print, print_str, warn, warn_errno, crashes, Sys, ◌>>=◌, ◌>>◌, pure, stop, act, ask, ask_int,
  failed, ask_read, store, line_into, arg, give_up_if, give_up_errno_if, af_inet, bufsiz, somaxconn,
  htons, exit_success,
}
use osy_materials.Sys.Loop.{Round, again, leave, loop}

-- The fields of `Server` that its methods change or use; the rest of them are its arguments.
pub record Server : Type 0 where
  pub server_fd : ℤ
  pub client_fd : ℤ
  pub buffer : Bytes
  pub server_running : Bool
  pub server_address : SockAddr

pub init_address : Bytes → ℕ → Sys SockAddr
init_address address port = do
  r ← ask (inet_pton address)
  give_up_errno_if (failed r)
  pure (record { sin_family = af_inet; sin_port = htons port; sin_addr = address })

-- The constructor.
pub new_server : Bytes → ℕ → Sys Server
unfolding init_address
new_server address port = do
  server_fd ← ask_int socket
  give_up_if (is_minus_one server_fd) "Could not create socket\n"
  server_address ← init_address address port
  pure (record {
    server_fd = server_fd;
    client_fd = minus_one;
    buffer = replicate bufsiz 0;
    server_running = false;
    server_address = server_address;
  })

-- `shell_command[strlen(shell_command) - 1] = '\0'`: the empty string has no last byte.
pub cut_last : Bytes → ℕ → Sys Bytes
cut_last buffer zero = stop crashes
cut_last buffer (suc n) = store buffer n 0

-- The loop over the command.
pub print_newlines : Bytes → Sys (Unit {0})
print_newlines [] = pure tt
print_newlines (c ∷ cs) = do if c == b'\n' then act (print "Yas") else pure tt; print_newlines cs

pub print_line : Bytes → Answer → Sys (Round Bytes)
print_line buffer fail = pure (leave buffer)
print_line buffer (gives n xs) = do
  let buf = line_into (bufsiz - 1) buffer (gives n xs)
  act (print_str "%s" (c_str buf))
  pure (again buf)

-- A round of the loop over the shell's lines.
pub shell_line_round : Bytes → Sys (Round Bytes)
unfolding print_line
shell_line_round buffer = do a ← ask (fgets (bufsiz - 1)); print_line buffer a

-- Without a shell there is a message, and then `fgets` is called with NULL.
pub check_shell : Bool → Sys (Unit {0})
check_shell bad =
    if bad then act (warn "Could not interpret the shell\n") >> stop crashes else pure tt

-- `shell_command` is the buffer of the server.
unfoldable pub handle_shell : ℕ → Bytes → Sys Bytes
unfolding cut_last print_newlines check_shell shell_line_round
handle_shell fuel buffer = do
  buf ← cut_last buffer (strlen buffer)
  print_newlines (c_str buf)
  act (print_str "%s\n" (c_str buf))
  shell ← ask (popen (c_str buf))
  check_shell (failed shell)
  loop fuel shell_line_round buf

-- The variables of a client's loop.
pub record State : Type 0 where
  pub buffer : Bytes
  pub bytes_read : ℤ

pub next_read : ℤ → Bytes → Sys State
next_read fd buf = do
  f ← ask_read fd (bufsiz - 1) buf
  pure (record { buffer = f.buffer; bytes_read = f.bytes_read })

pub handle_message : ℕ → ℤ → Bytes → ℕ → Sys (Round State)
unfolding handle_shell next_read
handle_message fuel client_fd buffer n = do
  command ← store buffer n 0
  buf ← handle_shell fuel command
  s ← next_read client_fd buf
  pure (again s)

unfoldable pub message_round : ℕ → ℤ → State → Sys (Round State)
unfolding handle_message
message_round fuel client_fd s = elim s.bytes_read [
  | pos (suc n) ↦ handle_message fuel client_fd s.buffer (suc n)
  | _ ↦ pure (leave s)
]

-- The messages of a client.
unfoldable pub serve_client : ℕ → ℤ → Bytes → Sys State
unfolding message_round next_read
serve_client fuel client_fd buffer = do
  s₀ ← next_read client_fd buffer
  loop fuel (message_round fuel client_fd) s₀

-- Without a client the loop stops after this round.
accepted : ℤ → Sys Bool
accepted client_fd = if is_minus_one client_fd then act warn_errno >> pure false else pure true

client_round : ℕ → Server → Sys (Round Server)
unfolding accepted serve_client
client_round fuel server = do
  act (print "Server is waiting for client\n")
  client_fd ← ask_int (accept server.server_fd)
  running ← accepted client_fd
  act (print "Client was accepted\n")
  s ← serve_client fuel client_fd server.buffer
  act (print "Client disconnected\n")
  act (close client_fd)
  pure
      (again (record server { client_fd = client_fd; buffer = s.buffer; server_running = running }))

accept_round : ℕ → Server → Sys (Round Server)
unfolding client_round
accept_round fuel server =
    if server.server_running then client_round fuel server else pure (leave server)

unfoldable pub start : ℕ → Server → Sys (Unit {0})
unfolding accept_round
start fuel server = do
  b ← ask (bind server.server_fd server.server_address)
  give_up_errno_if (failed b)
  l ← ask (listen server.server_fd somaxconn)
  give_up_errno_if (failed l)
  act (print "Server is running\n")
  s ← loop fuel (accept_round fuel) (record server { server_running = true })
  act (print "Server stopped running\n")

unfoldable pub main : ℕ → List Bytes → Sys ℕ
unfolding new_server start
main fuel argv = do
  address ← arg argv 1
  port ← arg argv 2
  server ← new_server address (atoi port)
  start fuel server
  pure exit_success
