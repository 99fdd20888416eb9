-- ===== src/Messages/Server.antt =====
-- op_systems/server.c
pub mod Service
pub mod Printed
use osy_materials.Prelude.{
  ℕ, String, ◌-◌, ℤ, pos, negsuc, is_neg, is_minus_one, Bool, true, false, ◌||◌, List, ◌==◌,
  if◌then◌else◌, replicate,
}
use osy_materials.Libc.Strings.{Bytes, codes, c_str, str_eq}
use osy_materials.Libc.Numbers.{atoi}
use osy_materials.Sys.{
  Answer, SockAddr, close, socket, bind, listen, accept, warn, print, print_str, print_int, Sys,
  ◌>>=◌, ◌>>◌, pure, act, ask, ask_int, failed, ask_read, store, arg, af_inet, htons,
}
use osy_materials.Sys.Loop.{Round, again, loop}

abbrev pub buffer_len : ℕ
buffer_len = 1024

-- The variables of the loop.
pub record State : Type 0 where
  pub input_buffer : Bytes
  pub client_sock_fd : ℤ

-- The failure is reported, and the program goes on.
warn_if : Bool → String → Sys (Unit {0})
warn_if bad text = if bad then act (warn text) else pure tt

-- The next client, and the message behind it if there is one.
next_client : ℤ → State → Sys (Round State)
next_client server s = do
  act (close s.client_sock_fd)
  act (print "waiting for another client\n")
  fd ← ask_int (accept server)
  if is_minus_one fd then act (warn "could not accept\n") else act (print "New client accepted\n")
  pure (again (record s { client_sock_fd = fd }))

-- `!strcmp(input_buffer, "exit") || !result`
print_message : ℤ → ℤ → Bytes → ℕ → Sys (Round State)
unfolding next_client
print_message server client buffer n = do
  buf ← store buffer n 0
  act (print_str "Recieved from the client: \t%s\n" (c_str buf))
  let s : State = record { input_buffer = buf; client_sock_fd = client }
  if str_eq (c_str buf) (codes "exit") || n == 0 then next_client server s else pure (again s)

by_read : ℤ → ℤ → ℤ → Bytes → Sys (Round State)
unfolding print_message
by_read server client (pos n) buffer = print_message server client buffer n
by_read server client (negsuc n) buffer = do
  act (print "Could not read message\n")
  pure (again (record { input_buffer = buffer; client_sock_fd = client }))

unfoldable pub message_round : ℤ → State → Sys (Round State)
unfolding by_read
message_round server s = do
  f ← ask_read s.client_sock_fd (buffer_len - 1) s.input_buffer
  by_read server s.client_sock_fd f.bytes_read f.buffer

-- `htonl(INADDR_LOOPBACK)`
abbrev loopback : ℕ → SockAddr
loopback port = record { sin_family = af_inet; sin_port = htons port; sin_addr = codes "127.0.0.1" }

unfoldable pub open_server : List Bytes → Sys ℤ
unfolding warn_if
open_server argv = do
  port ← arg argv 1
  act (print_int "You are using port: %d\n" (atoi port))
  server ← ask_int socket
  warn_if (is_neg server) "Could not create socket\n"
  b ← ask (bind server (loopback (atoi port)))
  warn_if (failed b) "Could not bind\n"
  act (listen server 5)
  act (print "Server is listening\n")
  pure server

unfoldable pub first_client : ℤ → Sys ℤ
unfolding warn_if
first_client server = do
  client ← ask_int (accept server)
  warn_if (is_minus_one client) "could not accept\n"
  act (print "New client accepted\n")
  pure client

unfoldable pub main : ℕ → List Bytes → Sys State
main fuel argv = do
  server ← open_server argv
  client ← first_client server
  loop fuel (message_round server)
      (record { input_buffer = replicate buffer_len 0; client_sock_fd = client })
