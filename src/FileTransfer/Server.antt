-- ===== src/FileTransfer/Server.antt =====
-- op_systems/file_transfer/server.cpp
pub mod Saved
pub mod Clients
pub mod Safety
use osy_materials.Prelude.{
  ℕ, suc, ◌+◌, ◌-◌, ◌%◌, ◌^◌, ℤ, pos, minus_one, is_minus_one, Bool, true, false, List, [], ◌∷◌,
  ◌==◌, if◌then◌else◌,
}
use osy_materials.Libc.Strings.{Bytes, codes, c_str}
use osy_materials.Libc.Numbers.{is_digit, atoi}
use osy_materials.Sys.{
  Answer, fail, gives, SockAddr, write, close, open_file, inet_pton, socket, bind, listen, accept,
  print, print_str, Sys, ◌>>=◌, ◌>>◌, pure, act, ask, ask_int, failed, ask_read, store, arg,
  give_up_if, give_up_errno_if, af_inet, bufsiz, somaxconn,
}
use osy_materials.Sys.Loop.{Round, again, leave, loop}

-- `inet_pton(...) != 1`: 0 means a malformed address.
abbrev pub refused : Answer → Bool
refused fail = true
refused (gives n xs) = if n == 1 then false else true

-- The port goes into the structure without `htons`.
unfoldable pub prepare_address : Bytes → ℕ → ℕ → Sys SockAddr
prepare_address ip_address port domain = do
  r ← ask (inet_pton ip_address)
  give_up_if (refused r) "Could not setup address\n"
  pure (record { sin_family = domain; sin_port = port % 2 ^ 16; sin_addr = ip_address })

-- `input[i] == 0` as the `int` that `isdigit` is called with.
abbrev is_zero : ℕ → ℕ
is_zero c = if c == 0 then 1 else 0

pub check_len : Bytes → ℕ
check_len [] = 1
check_len (c ∷ cs) = if is_digit (is_zero c) then 0 else check_len cs

-- The variables of the two loops of `main`.
pub record State : Type 0 where
  pub input_buffer : Bytes
  pub init : ℕ
  pub bytes_read : ℤ

next_read : ℤ → State → Sys State
next_read client s = do
  f ← ask_read (client) (bufsiz - 1) s.input_buffer
  pure (record s { input_buffer = f.buffer; bytes_read = f.bytes_read })

-- `continue` goes back to the test with the same `bytes_read`.
refuse_length : ℤ → State → Sys (Round State)
refuse_length client s = do
  act (print "Recieved invalid file\n")
  act (write client (codes "Invalid file length\n"))
  act (close client)
  pure (again s)

accept_length : ℤ → State → Sys (Round State)
unfolding next_read
accept_length client s = do
  act (write client (codes "OK"))
  act (print "OK SENT\n")
  s' ← next_read client (record s { init = s.init + 1 })
  pure (again s')

save_line : ℤ → ℤ → State → Sys (Round State)
unfolding next_read
save_line client save s = do
  act (write save (c_str s.input_buffer))
  act (print "Line written on the server\n")
  s' ← next_read client s
  pure (again s')

-- One round of `while (bytes_read > 0)`, behind the test.
serve_message : ℤ → ℤ → State → ℕ → Sys (Round State)
unfolding refuse_length accept_length save_line
serve_message client save s n = do
  buf ← store s.input_buffer n 0
  act (print_str "Recieved from the client%s\n" (c_str buf))
  let s' = record s { input_buffer = buf }
  if s.init == 0
      then (if check_len (c_str buf) == 0 then refuse_length client s' else accept_length client s')
      else save_line client save s'

-- The test of the loop and its round.
unfoldable pub session_round : ℤ → ℤ → State → Sys (Round State)
unfolding serve_message
session_round client save s = elim s.bytes_read [
  | pos (suc n) ↦ serve_message client save s (suc n)
  | _ ↦ pure (leave s)
]

abbrev pub disconnect : ℤ → ℤ → State → Sys (Round State)
disconnect client save s = do
  act (print "Client disconnected\n")
  act (close client)
  act (close save)
  pure (again s)

-- One round of `while (1)`: a client from `accept` to `close`.
unfoldable pub serve_client : ℕ → ℤ → State → Sys (Round State)
unfolding next_read
serve_client fuel server s = do
  act (print "Server is waiting for client\n")
  client ← ask_int (accept server)
  act (print "New client accepted\n")
  save ← ask_int (open_file (codes "output.txt"))
  s₁ ← next_read client s
  s₂ ← loop fuel (session_round client save) s₁
  disconnect client save s₂

-- `main` up to its loop: the listening socket.
unfoldable pub open_server : List Bytes → Sys ℤ
unfolding prepare_address
open_server argv = do
  port ← arg argv 2
  address ← arg argv 1
  server_address ← prepare_address address (atoi port) af_inet
  server ← ask_int socket
  give_up_errno_if (is_minus_one server)
  bound ← ask (bind server server_address)
  give_up_errno_if (failed bound)
  act (print "Server is listening\n")
  act (listen server somaxconn)
  pure server

-- The stack holds `stack` where `input_buffer` lies. Each of the two loops has `fuel` rounds.
unfoldable pub main : ℕ → Bytes → List Bytes → Sys State
unfolding open_server
main fuel stack argv = do
  server ← open_server argv
  loop fuel (serve_client fuel server)
      (record { input_buffer = stack; init = 0; bytes_read = minus_one })
