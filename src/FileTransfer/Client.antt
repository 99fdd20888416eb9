-- ===== src/FileTransfer/Client.antt =====
-- op_systems/file_transfer/client.cpp. Its `prepare_address` is the server's, word for word.
pub mod Handshake
pub mod Sending
pub mod Run
use osy_materials.Prelude.{
  ℕ, suc, ◌-◌, ◌++◌, ℤ, pos, minus_one, is_minus_one, is_neg, Bool, true, false, List, [], ◌∷◌,
  ◌==◌, if◌then◌else◌,
}
use osy_materials.Libc.Strings.{Bytes, codes, c_str, str_eq, sprintf_into}
use osy_materials.Libc.Numbers.{atoi, decimal}
use osy_materials.Sys.{
  Answer, fail, gives, SockAddr, write, close, open_file, access, stat, inet_pton, socket, connect,
  print, print_str, exits, World, Sys, ◌>>=◌, ◌>>◌, pure, stop, act, ask, ask_int, failed, ask_read,
  store, arg, give_up_if, give_up_errno_if, af_inet, bufsiz, exit_success, exit_failure,
}
use osy_materials.Sys.Loop.{Round, again, leave, loop}
use osy_materials.FileTransfer.Server.{prepare_address}

-- The variables of the loop of `send_file`.
pub record FilePart : Type 0 where
  pub buffer : Bytes
  pub bytes_read : ℤ

next_part : ℤ → Bytes → Sys FilePart
next_part fd buf = do
  f ← ask_read fd (bufsiz - 1) buf
  pure (record { buffer = f.buffer; bytes_read = f.bytes_read })

-- if(write(...) == -1) { printf(...); exit(EXIT_FAILURE); }
send_failed : Bool → Sys (Unit {0})
send_failed bad =
    if bad then act (print "Could not send line\n") >> stop (exits exit_failure) else pure tt

send_part : ℤ → ℤ → Bytes → ℕ → Sys (Round FilePart)
unfolding next_part send_failed
send_part client_fd fd buffer n = do
  buf ← store buffer n 0
  act (print_str "Line to sent: %s\n" (c_str buf))
  sent ← ask (write client_fd (c_str buf))
  send_failed (failed sent)
  s ← next_part fd buf
  pure (again s)

unfoldable pub send_round : ℤ → ℤ → FilePart → Sys (Round FilePart)
unfolding send_part
send_round client_fd fd s = elim s.bytes_read [
  | pos (suc n) ↦ send_part client_fd fd s.buffer (suc n)
  | _ ↦ pure (leave s)
]

-- `stack` is what the stack holds where the buffer of `send_file` lies.
unfoldable pub send_file : ℕ → Bytes → ℤ → Bytes → Sys (Unit {0})
unfolding next_part
send_file fuel stack client_fd path = do
  there ← ask (access path)
  give_up_if (failed there) "File doesnt exist\n"
  fd ← ask_int (open_file path)
  give_up_if (is_neg fd) "Could not open a file\n"
  s ← next_part fd stack
  s' ← loop fuel (send_round client_fd fd) s
  act (write client_fd (codes "DONE"))

-- The variables of the loop of `main`.
pub record Exchange : Type 0 where
  pub output_buffer : Bytes
  pub valid : ℕ

refuse_file : ℤ → Sys (Round Exchange)
refuse_file client_fd = do
  act (print "Invalid file\n")
  act (close client_fd)
  stop (exits exit_failure)

accept_file : Bytes → Sys (Round Exchange)
accept_file buf = do
  act (print_str "Recieved back from the server:%s\n" (c_str buf))
  pure (again (record { output_buffer = buf; valid = 1 }))

-- The reply is read over the text that was sent, and is not terminated.
unfoldable pub ask_server : ℤ → Bytes → Sys (Round Exchange)
unfolding refuse_file accept_file
ask_server client_fd buf = do
  act (write client_fd (c_str buf))
  act (print_str "Wrote to server:%s\n" (c_str buf))
  f ← ask_read client_fd (bufsiz - 1) buf
  act (print_str "Recieved:%s\n" (c_str f.buffer))
  if str_eq (c_str f.buffer) (codes "OK") then accept_file f.buffer else refuse_file client_fd

send_and_exit : ℕ → Bytes → ℤ → Bytes → Sys (Round Exchange)
send_and_exit fuel stack client_fd path = do
  send_file fuel stack client_fd path
  act (print "File sent\n")
  act (close client_fd)
  stop (exits exit_success)

unfoldable pub exchange_round : ℕ → Bytes → ℤ → Bytes → Exchange → Sys (Round Exchange)
unfolding send_and_exit
exchange_round fuel stack client_fd path s =
    if s.valid == 0
    then ask_server client_fd s.output_buffer
    else send_and_exit fuel stack client_fd path

-- `st_size` after `stat`: what the structure held before, if the call failed.
abbrev size_of : ℕ → Answer → ℕ
size_of stale fail = stale
size_of stale (gives n xs) = n

abbrev pub connected : List Bytes → Sys ℤ
connected argv = do
  port ← arg argv 2
  address ← arg argv 1
  server_address ← prepare_address address (atoi port) af_inet
  client_fd ← ask_int socket
  give_up_errno_if (is_minus_one client_fd)
  r ← ask (connect client_fd server_address)
  give_up_errno_if (failed r)
  pure client_fd

-- The stack holds `stack` where `output_buffer` lies and `inner` where the buffer of `send_file` will
-- lie; `stale` is the uninitialised `st_size`.
unfoldable pub main : ℕ → Bytes → Bytes → ℕ → List Bytes → Sys Exchange
unfolding exchange_round
main fuel stack inner stale argv = do
  client_fd ← connected argv
  path ← arg argv 3
  st ← ask (stat path)
  loop fuel (exchange_round fuel inner client_fd path)
      (record { output_buffer = sprintf_into stack (decimal (size_of stale st)); valid = 0 })
