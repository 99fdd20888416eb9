-- ===== src/ShellServer.antt =====
-- op_systems/shellInterpreter/server.cpp and remoteShell.cpp: a shell for one client after the other.
pub mod Commands
pub mod Session
pub mod Children
mod Tests
use osy_materials.Prelude.{
  ℕ, zero, suc, ◌-◌, ℤ, pos, is_neg, is_minus_one, Bool, List, ltb, if◌then◌else◌, length,
}
use osy_materials.Libc.Strings.{Bytes, c_str}
use osy_materials.Libc.Numbers.{atoi}
use osy_materials.Argv.{parse_args}
use osy_materials.Sys.{
  Answer, fail, gives, SockAddr, close, dup2, inet_pton, socket, bind, listen, accept, fork, wait,
  print, print_str, exits, Sys, ◌>>=◌, ◌>>◌, pure, stop, act, ask, ask_int, failed, ask_read, store,
  arg, give_up, give_up_if, give_up_errno_if, exec_argv, stdout_fd, af_inet, bufsiz, somaxconn,
  htons, exit_failure,
}
use osy_materials.Sys.Loop.{Round, again, leave, loop}

abbrev pub command_len : ℕ
command_len = 100

-- The child: its output goes to the client.
child : ℤ → Bytes → Sys (Unit {0})
child client_fd command = do
  argv ← parse_args command_len b' ' command
  act (dup2 client_fd stdout_fd)
  act (close client_fd)
  exec_argv argv
  stop (exits exit_failure)

-- By the result of `fork`: -1, 0 in the child, its number in the parent.
by_fork : ℤ → Bytes → Answer → Sys (Unit {0})
unfolding child
by_fork client_fd command fail = give_up "Fork failed\n"
by_fork client_fd command (gives zero xs) = child client_fd command
by_fork client_fd command (gives (suc pid) xs) = act wait >> act (print "Child process ended\n")

unfoldable pub handle_command : ℤ → Bytes → Sys (Unit {0})
unfolding by_fork
handle_command client_fd command = do pid ← ask fork; by_fork client_fd command pid

-- The variables of `interpret`.
pub record State : Type 0 where
  pub buffer : Bytes
  pub bytes_read : ℤ

next_read : ℤ → Bytes → Sys State
next_read client_fd buf = do
  f ← ask_read client_fd (bufsiz - 1) buf
  pure (record { buffer = f.buffer; bytes_read = f.bytes_read })

run_command : ℤ → Bytes → ℕ → Sys (Round State)
unfolding next_read
run_command client_fd buffer n = do
  buf ← store buffer n 0
  act (print_str "Client entered command: %s\n" (c_str buf))
  handle_command client_fd (c_str buf)
  s ← next_read client_fd buf
  pure (again s)

unfoldable pub command_round : ℤ → State → Sys (Round State)
unfolding run_command
command_round client_fd s = elim s.bytes_read [
  | pos (suc n) ↦ run_command client_fd s.buffer (suc n)
  | _ ↦ pure (leave s)
]

-- `stack` is what the stack holds where the buffer lies.
unfoldable pub interpret : ℕ → Bytes → ℤ → Sys (Unit {0})
unfolding next_read
interpret fuel stack client_fd = do
  s₀ ← next_read client_fd stack
  s ← loop fuel (command_round client_fd) s₀
  give_up_errno_if (is_minus_one s.bytes_read)
  act (print "Client disconnected\n")

pub init_server : SockAddr → Sys ℤ
init_server address = do
  r ← ask (inet_pton address.sin_addr)
  give_up_errno_if (failed r)
  fd ← ask_int socket
  give_up_errno_if (is_neg fd)
  pure fd

-- `MAX_CONS` of remoteShell.h.
abbrev max_cons : ℕ
max_cons = 10

pub start_server : SockAddr → ℤ → Sys (Unit {0})
start_server address server_fd = do
  b ← ask (bind server_fd address)
  give_up_errno_if (failed b)
  l ← ask (listen server_fd max_cons)
  give_up_errno_if (failed l)

-- A round of the loop of `main`.
unfoldable pub serve_client : ℕ → Bytes → ℤ → Unit {0} → Sys (Round (Unit {0}))
serve_client fuel stack server_fd u = do
  client_fd ← ask_int (accept server_fd)
  give_up_if (is_neg client_fd) "Could not accept client\n"
  act (print "Client connected\n")
  interpret fuel stack client_fd
  act (close client_fd)
  pure (again tt)

-- `running` stays true: the loop has no end of its own.
unfoldable pub main : ℕ → Bytes → List Bytes → Sys (Unit {0})
unfolding init_server start_server
main fuel stack argv = do
  give_up_if (ltb (length argv) 3) "Invalid use\n"
  port ← arg argv 2
  ip_address ← arg argv 1
  let address : SockAddr = record {
    sin_family = af_inet;
    sin_port = htons (atoi port);
    sin_addr = ip_address;
  }
  server_fd ← init_server address
  start_server address server_fd
  loop fuel (serve_client fuel stack server_fd) tt
