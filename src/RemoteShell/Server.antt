-- ===== src/RemoteShell/Server.antt =====
-- op_systems/remoteShell/server.cpp, with the classes of server.h and main.cpp.
pub mod Pipe
pub mod Command
pub mod Room
use osy_materials.Prelude.{
  ℕ, zero, suc, ◌+◌, ◌<◌, ℤ, pos, negsuc, is_neg, is_minus_one, Bool, List, [], ◌∷◌, ltb,
  if◌then◌else◌, length,
}
use osy_materials.Libc.Strings.{Bytes, codes, c_str, str_eq, zero_fill}
use osy_materials.Libc.Numbers.{atoi}
use osy_materials.Argv.{parse_args}
use osy_materials.Sys.{
  Answer, fail, gives, SockAddr, read, write, close, dup2, pipe, inet_pton, socket, bind, listen,
  accept, fork, wait, pthread_create, print, print_str, print_int, warn, exits, thread_exits,
  crashes, World, Sys, ◌>>=◌, ◌>>◌, pure, stop, act, ask, ask_int, failed, ask_read, store, arg,
  first, give_up, give_up_if, exec_argv, ends_of, Ends, stdout_fd, af_inet, bufsiz, somaxconn,
  htons, exit_failure,
}
use osy_materials.Sys.Loop.{Round, again, leave, loop}

-- The variables of `handle_shell_client`.
pub record State : Type 0 where
  pub buffer : Bytes
  pub read_bytes : ℤ

-- printf("command[%d]= %s\n", index - 1, tkn) for each word, from this index on.
pub print_words : ℕ → List Bytes → Sys (Unit {0})
print_words i [] = pure tt
print_words i (t ∷ ts) = do
  act (print_int "command[%d]" i)
  act (print_str "= %s\n" t)
  print_words (i + 1) ts

-- The child behind its loop over the words.
pub run_words : Ends → List Bytes → Sys State
unfolding print_words
run_words ends argv = do
  print_words 0 argv
  program ← first argv
  act (print_str "Command after parsing %s\n" program)
  act (dup2 ends.write_end stdout_fd)
  exec_argv argv
  act (warn "Error occured while executing command\n")
  stop (exits exit_failure)

-- The words are printed while they are stored; where they overflow the array, what was printed before
-- is left out.
unfoldable pub run_child : Ends → Bytes → Sys State
unfolding run_words
run_child ends buffer = do
  act (close ends.read_end)
  act (print "Child was created\n")
  act (print_str "Command to execute is: %s\n" buffer)
  argv ← parse_args bufsiz b' ' buffer
  run_words ends argv

next_read : ℤ → Bytes → Sys State
next_read client buf = do
  f ← ask_read client bufsiz buf
  pure (record { buffer = f.buffer; read_bytes = f.bytes_read })

-- The reply, by what `read` returned from the pipe.
reply : ℤ → ℤ → Bytes → Sys State
unfolding next_read
reply client (negsuc n) buffer = do
  act (warn "Could not read output from child proccess\n")
  stop thread_exits
reply client (pos n) buffer = do
  buf ← store buffer n 0
  act (print_str "Read from child: %s" (c_str buf))
  act (write client (c_str buf))
  act wait
  next_read client buf

-- The parent behind `fork`. The pipe was made before the loop: its write end is closed in every round.
unfoldable pub run_parent : ℤ → Ends → Bytes → Sys State
unfolding reply
run_parent client ends buffer = do
  act (close ends.write_end)
  f ← ask_read ends.read_end bufsiz (zero_fill (bufsiz + 1) buffer)
  reply client f.bytes_read f.buffer

by_fork : ℤ → Ends → Bytes → Answer → Sys State
by_fork client ends buffer fail = give_up "Could not create child process\n"
by_fork client ends buffer (gives zero xs) = run_child ends (c_str buffer)
by_fork client ends buffer (gives (suc pid) xs) = run_parent client ends buffer

-- `exit` ends the thread, and leaves the socket open.
exit_client : Sys State
exit_client = do act (print "Client exiting via exit\n"); stop thread_exits

unfoldable pub run_command : ℤ → Ends → Bytes → Sys State
unfolding by_fork
run_command client ends buffer = do pid ← ask fork; by_fork client ends buffer pid

handle_message : ℤ → Ends → Bytes → ℕ → Sys (Round State)
unfolding exit_client
handle_message client ends buffer n = do
  buf ← store buffer n 0
  s ← if str_eq (c_str buf) (codes "exit") then exit_client else run_command client ends buf
  pure (again s)

unfoldable pub shell_round : ℤ → Ends → State → Sys (Round State)
unfolding handle_message
shell_round client ends s = elim s.read_bytes [
  | pos (suc n) ↦ handle_message client ends s.buffer (suc n)
  | _ ↦ pure (leave s)
]

-- Without a pipe the client is deleted, which closes its socket.
no_pipe : Bool → ℤ → Sys (Unit {0})
no_pipe bad client =
    if bad
    then (act (warn "Could not create pipe existing client thread\n")
        >> act (close client)
        >> stop thread_exits)
    else pure tt

leave_client : ℤ → Sys State
leave_client (negsuc n) = act (warn "Could not read from the client\n") >> stop thread_exits
leave_client (pos n) = act (print "Client disconnected\n") >> stop thread_exits

-- `stack` is what the stack holds where `BUFFER` lies.
unfoldable pub handle_shell_client : ℕ → Bytes → ℤ → Sys State
unfolding next_read no_pipe leave_client
handle_shell_client fuel stack client = do
  s₀ ← next_read client stack
  p ← ask pipe
  no_pipe (failed p) client
  s ← loop fuel (shell_round client (ends_of p)) s₀
  leave_client s.read_bytes

-- `Server::init`
pub init : Bytes → ℕ → Sys SockAddr
init ip port = do
  r ← ask (inet_pton ip)
  give_up_if (failed r) "Error occured while writing address to struct\n"
  pure (record { sin_family = af_inet; sin_port = htons port; sin_addr = ip })

-- `Server::start`
pub start_listening : SockAddr → Sys ℤ
start_listening address = do
  fd ← ask_int socket
  give_up_if (is_minus_one fd) "Error occured while creating a socket\n"
  b ← ask (bind fd address)
  give_up_if (failed b) "Could not bind socket\n"
  l ← ask (listen fd somaxconn)
  give_up_if (failed l) "Could not start listening\n"
  pure fd

-- `strcpy(IP, ip_address)` into `char IP[INET_ADDRSTRLEN]`.
copy_ip : Bytes → Sys Bytes
copy_ip ip = if ltb (length ip) 16 then pure ip else stop crashes

-- The constructor of `Server`: the listening socket.
unfoldable pub new_server : Bytes → ℕ → Sys ℤ
unfolding copy_ip init start_listening
new_server ip_address port = do
  ip ← copy_ip ip_address
  address ← init ip port
  start_listening address

abbrev pub max_clients : ℕ
max_clients = 10

-- `&this->th_ids[i]`, which the call stores to.
thread_place : ℕ → Sys (Unit {0})
thread_place i = if ltb i max_clients then pure tt else stop crashes

-- A thread that could not be made keeps its number, and its client is deleted.
unfoldable pub by_create : ℤ → ℕ → Answer → Sys (Round ℕ)
by_create client n fail = do
  act (warn "Could not create a new thread\n")
  act (close client)
  pure (again n)
by_create client n (gives m xs) = pure (again n)

-- Behind `accept`, with the number of clients before it. A client without a socket is deleted, with
-- the descriptor -1 that it was made with.
unfoldable pub by_accept : ℕ → ℤ → Sys (Round ℕ)
unfolding thread_place
by_accept n (negsuc k) = do
  act (warn "Could not accept client\n")
  act (close (negsuc 0))
  pure (again n)
by_accept n (pos client) = do
  act (print "Client was accepted\n")
  thread_place n
  r ← ask (pthread_create n (pos client))
  by_create (pos client) (n + 1) r

-- A round of `RemoteShellServer::run`.
unfoldable pub accept_client : ℤ → ℕ → Sys (Round ℕ)
accept_client server n = do
  act (print "Server is waiting for client\n")
  client_fd ← ask_int (accept server)
  by_accept n client_fd

-- `is_running` stays true, so the code behind the loop is not reached.
unfoldable pub main : ℕ → List Bytes → Sys ℕ
main fuel argv = do
  port ← arg argv 2
  ip ← arg argv 1
  server ← new_server ip (atoi port)
  loop fuel (accept_client server) 0
