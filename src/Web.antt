-- ===== src/Web.antt =====
-- op_systems/webServer.cpp
pub mod Command
pub mod Request
pub mod Answered
pub mod Session
pub mod Responses
pub mod Room
mod Tests
use osy_materials.Prelude.{
  ℕ, zero, suc, ◌+◌, ◌-◌, ◌<◌, ℤ, pos, negsuc, is_neg, Bool, true, false, Option, none, some, List,
  [], ◌∷◌, ◌++◌, ◌==◌, ltb, if◌then◌else◌, length, replicate,
}
use osy_materials.Libc.Strings.{Bytes, codes, c_str, sprintf_into}
use osy_materials.Libc.Tokens.{strtok}
use osy_materials.Libc.Numbers.{atoi, decimal}
use osy_materials.Argv.{parse_args}
use osy_materials.Sys.{
  Answer, fail, gives, SockAddr, write, close, dup2, pipe, inet_pton, socket, bind, listen, accept,
  fork, wait, gethostname, pthread_create, pthread_join, print, print_str, print_int, warn, exits,
  thread_exits, crashes, World, Sys, ◌>>=◌, ◌>>◌, pure, stop, act, ask, ask_int, failed, ask_read,
  store, arg, not_null, first, give_up, give_up_if, exec_argv, ends_of, Ends, stdout_fd, af_inet,
  bufsiz, htons, exit_failure, exit_success,
}
use osy_materials.Web.Command.{run_child}
use osy_materials.Sys.Loop.{Round, again, leave, loop}

abbrev pub max_cons : ℕ
max_cons = 10

pub record Server : Type 0 where
  pub sock_fd : ℤ
  pub address : SockAddr
  pub port : ℕ
  pub running : Bool
  pub no_clients : ℕ

unfoldable pub create_server : Bytes → ℕ → Sys Server
create_server address port = do
  r ← ask (inet_pton address)
  give_up_if (failed r) "Could not load address\n"
  sock_fd ← ask_int socket
  give_up_if (is_neg sock_fd) "Could not create socket\n"
  pure (record {
    sock_fd = sock_fd;
    address = record { sin_family = af_inet; sin_port = htons port; sin_addr = address };
    port = port;
    running = true;
    no_clients = 0;
  })

-- What `sprintf` makes of `response_format`.
response_format : ℕ → Bytes → Bytes → ℕ → Bytes → Bytes
response_format status reason host content_length body =
    codes "HTTP/1.1 "
    ++ decimal status
    ++ codes " "
    ++ reason
    ++ codes "\r\nServer: "
    ++ host
    ++ codes "\r\nContent-Length: "
    ++ decimal content_length
    ++ codes "\r\nContent-Type: text/html\r\nConnection: Closed\r\n\r\n"
    ++ body

not_found_response : Bytes → Bytes
unfolding response_format
not_found_response host =
    response_format 404 (codes "Not Found") host 20 (codes "<h1>Not found</h1>")

-- `output[read_bytes] = '\0'`, where -1 is in front of the array.
end_text : Bytes → ℤ → Sys Bytes
end_text output (pos n) = store output n 0
end_text output (negsuc n) = stop crashes

-- if(read_bytes < 0) { memset(...); sprintf(...); write(...); }
write_not_found : ℤ → Bytes → Bytes → ℤ → Sys Bytes
unfolding not_found_response
write_not_found fd host output (pos n) = pure output
write_not_found fd host output (negsuc n) = do
  act (write fd (not_found_response host))
  pure (sprintf_into (replicate bufsiz 0) (not_found_response host))

end_output : ℤ → Bytes → Bytes → ℤ → Sys Bytes
unfolding end_text write_not_found
end_output fd host output n = do out ← end_text output n; write_not_found fd host out n

-- What `strtok(s, d)` does to its string: a NUL over the delimiter behind the token.
cut_word : ℕ → Bytes → Bytes
cut_word d [] = []
cut_word d (zero ∷ cs) = zero ∷ cs
cut_word d (suc c ∷ cs) = if suc c == d then 0 ∷ cs else suc c ∷ cut_word d cs

cut_token : ℕ → Bytes → Bytes
unfolding cut_word
cut_token d [] = []
cut_token d (c ∷ cs) = if c == d then c ∷ cut_token d cs else cut_word d (c ∷ cs)

-- The variables of `handle_client`.
pub record State : Type 0 where
  pub buffer : Bytes
  pub read_bytes : ℤ

pub next_read : ℤ → Bytes → Sys State
next_read fd buf = do
  f ← ask_read fd (bufsiz - 1) buf
  pure (record { buffer = f.buffer; read_bytes = f.bytes_read })

pub leave_client : ℤ → Sys (Unit {0})
leave_client (negsuc n) = give_up "Could not read from the client\n"
leave_client (pos n) = act (print "Client disconnected\n") >> stop thread_exits

-- `formatted host output` is what the `sprintf` of the response leaves in `output`. The array is both
-- the destination and an argument of the call, which C leaves undefined; `none` is the end of the
-- process. `stack` is what the stack holds where the arrays lie.
module _ (formatted : Bytes → Bytes → Option Bytes) (stack : Bytes) where
  pub respond : ℤ → Ends → Bytes → Bytes → Sys (Unit {0})
  respond fd ends host output = do
    response ← not_null (formatted host output)
    act (print "Response sent\n\n")
    act (write fd (c_str response))
    act wait
    act (close ends.read_end)

  -- The parent behind `fork`.
  pub run_parent : ℤ → Ends → Bytes → Sys (Unit {0})
  unfolding respond end_output
  run_parent fd ends host = do
    act (close ends.write_end)
    f ← ask_read ends.read_end (bufsiz - 1) stack
    output ← end_output fd host f.buffer f.bytes_read
    respond fd ends host output

  pub by_fork : ℤ → Ends → Bytes → Bytes → Answer → Sys (Unit {0})
  unfolding run_parent
  by_fork fd ends host header fail = give_up "Could not fork parent\n"
  by_fork fd ends host header (gives zero xs) = run_child ends header
  by_fork fd ends host header (gives (suc pid) xs) = run_parent fd ends host

  pub make_pipe : ℤ → Bytes → Bytes → Sys (Unit {0})
  unfolding by_fork
  make_pipe fd request host = do
    p ← ask pipe
    give_up_if (failed p) "Could not create pipe channel\n"
    header ← not_null (strtok b'\n' request)
    act (print_str "%s\n" header.0)
    pid ← ask fork
    by_fork fd (ends_of p) host header.0 pid

  by_host : ℤ → Bytes → Answer → Sys (Unit {0})
  unfolding make_pipe
  by_host fd request fail = give_up "Could not get host name\n"
  by_host fd request (gives n host) = make_pipe fd request host

  unfoldable pub handle_request : ℤ → Bytes → Sys (Unit {0})
  unfolding by_host
  handle_request fd request = do h ← ask gethostname; by_host fd request h

  handle_message : ℤ → Bytes → ℕ → Sys (Round State)
  unfolding handle_request cut_token next_read
  handle_message fd buffer n = do
    buf ← store buffer n 0
    handle_request fd (c_str buf)
    s ← next_read fd (cut_token b'\n' buf)
    pure (again s)

  pub client_round : ℤ → State → Sys (Round State)
  unfolding handle_message
  client_round fd s = elim s.read_bytes [
    | pos (suc n) ↦ handle_message fd s.buffer (suc n)
    | _ ↦ pure (leave s)
  ]

  unfoldable pub handle_client : ℕ → ℤ → Sys (Unit {0})
  unfolding client_round next_read leave_client
  handle_client fuel fd = do
    s₀ ← next_read fd stack
    s ← loop fuel (client_round fd) s₀
    leave_client s.read_bytes

-- `&ids[i]`, which the call stores to.
thread_place : ℕ → Sys (Unit {0})
thread_place i = if ltb i max_cons then pure tt else stop crashes

-- What `start_server` changes: the number of clients, and the vector of all of them.
pub record Clients : Type 0 where
  pub no_clients : ℕ
  pub clients : List ℤ

pub start_thread : ℤ → Clients → Sys (Round Clients)
start_thread client_fd s = do
  r ← ask (pthread_create s.no_clients client_fd)
  give_up_if (failed r) "Could not create a new thread\n"
  pure (again (record { no_clients = s.no_clients + 1; clients = s.clients ++ client_fd ∷ [] }))

pub accept_client : ℤ → Clients → Sys (Round Clients)
unfolding thread_place start_thread
accept_client sock_fd s = do
  client_fd ← ask_int (accept sock_fd)
  give_up_if (is_neg client_fd) "Could not accept the client\n"
  act (print "Client was accepted\n\n")
  thread_place s.no_clients
  start_thread client_fd s

full_house : Sys (Round Clients)
full_house = do act (print "Could not acept more clients\n\n"); stop (exits exit_failure)

-- A round of the loop.
pub accept_round : Server → Clients → Sys (Round Clients)
unfolding accept_client full_house
accept_round server s =
    if server.running
    then (if ltb max_cons s.no_clients then full_house else accept_client server.sock_fd s)
    else pure (leave s)

-- The threads from the one with this index on.
join_threads : ℕ → ℕ → Sys (Unit {0})
join_threads i zero = pure tt
join_threads i (suc k) = do
  r ← ask (pthread_join i)
  give_up_if (failed r) "Could not join main thread with other threads\n"
  join_threads (i + 1) k

close_clients : List ℤ → Sys (Unit {0})
close_clients [] = pure tt
close_clients (fd ∷ fds) = do act (close fd); close_clients fds

pub open_socket : Server → Sys (Unit {0})
open_socket server = do
  b ← ask (bind server.sock_fd server.address)
  give_up_if (failed b) "Could not bind the socket\n"
  l ← ask (listen server.sock_fd max_cons)
  give_up_if (failed l) "Could not listen\n"
  act (print_int "Web server is listening on port: %d\n" server.port)

unfoldable pub start_server : ℕ → Server → Sys (Unit {0})
unfolding open_socket join_threads close_clients
start_server fuel server = do
  open_socket server
  s ← loop fuel (accept_round server) (record { no_clients = server.no_clients; clients = [] })
  join_threads 0 s.no_clients
  close_clients s.clients

unfoldable pub main : ℕ → List Bytes → Sys ℕ
main fuel argv = do
  port ← arg argv 2
  address ← arg argv 1
  server ← create_server address (atoi port)
  start_server fuel server
  stop (exits exit_success)
