-- ===== src/RemoteShell/Client.antt =====
-- op_systems/remoteShell/client_side/client.cpp
pub mod Lines
use osy_materials.Prelude.{
  ℕ, zero, suc, ◌-◌, ℤ, pos, negsuc, is_neg, minus_one, Bool, true, false, List, ◌==◌,
  if◌then◌else◌, length, replicate,
}
use osy_materials.Libc.Strings.{Bytes, codes, c_str, strlen, str_eq}
use osy_materials.Libc.Numbers.{atoi}
use osy_materials.Sys.{
  Answer, SockAddr, write, close, open_file, inet_pton, socket, connect, fgets, print, print_str,
  exits, crashes, Sys, ◌>>=◌, ◌>>◌, pure, stop, act, ask, ask_int, failed, ask_read, store,
  line_into, arg, give_up_if, af_inet, bufsiz, htons, exit_success,
}
use osy_materials.Sys.Loop.{Round, again, leave, loop}

pub init_client_side : Bytes → ℕ → Sys SockAddr
init_client_side ip port = do
  r ← ask (inet_pton ip)
  give_up_if (failed r) "Erro while loading address\n"
  pure (record { sin_family = af_inet; sin_port = htons port; sin_addr = ip })

-- `buffer[n - 1] = '\0'`, where 0 is in front of the buffer.
cut_before : Bytes → ℕ → Sys Bytes
cut_before buffer zero = stop crashes
cut_before buffer (suc n) = store buffer n 0

-- `buffer[n] = '\0'`, where -1 is in front of the buffer.
cut_at : Bytes → ℤ → Sys Bytes
cut_at buffer (pos n) = store buffer n 0
cut_at buffer (negsuc n) = stop crashes

-- Without a file the reply is printed.
show_reply : Bool → ℤ → Bytes → Sys (Unit {0})
show_reply to_file fd reply = if to_file then act (write fd reply) else act (print_str "%s\n" reply)

send_line : Bool → ℤ → ℤ → Bytes → Sys (Round Bytes)
unfolding cut_before cut_at show_reply
send_line to_file sock_fd fd buffer = do
  line ← cut_before buffer (strlen buffer)
  act (print_str "read: %s\n" (c_str line))
  act (write sock_fd (c_str line))
  f ← ask_read sock_fd (bufsiz - 1) line
  buf ← cut_at f.buffer f.bytes_read
  show_reply to_file fd (c_str buf)
  act (print "Done writing\n")
  pure (again buf)

-- A round of the loop: at the end of the input `fgets` leaves the buffer as it was.
unfoldable pub line_round : Bool → ℤ → ℤ → Bytes → Sys (Round Bytes)
unfolding send_line
line_round to_file sock_fd fd buffer = do
  a ← ask (fgets (bufsiz - 1))
  let buf = line_into (bufsiz - 1) buffer a
  if str_eq (c_str buf) (codes "exit") then pure (leave buf) else send_line to_file sock_fd fd buf

-- `filename` is NULL or "output.txt".
open_output : Bool → Sys ℤ
open_output to_file = if to_file then ask_int (open_file (codes "output.txt")) else pure minus_one

unfoldable pub start_run : ℕ → SockAddr → Bool → Sys (Unit {0})
unfolding open_output
start_run fuel address to_file = do
  sock_fd ← ask_int socket
  give_up_if (is_neg sock_fd) "error occured while creating socket\n"
  c ← ask (connect sock_fd address)
  give_up_if (failed c) "Could not connect to the server\n"
  fd ← open_output to_file
  buf ← loop fuel (line_round to_file sock_fd fd) (replicate bufsiz 0)
  act (close fd)

-- if(argc != 4) { perror("Wrong usage\n"); exit(EXIT_FAILURE); }
abbrev check_usage : List Bytes → Sys (Unit {0})
check_usage argv = if length argv == 4 then pure tt else give_up_if true "Wrong usage\n"

unfoldable pub main : ℕ → List Bytes → Sys ℕ
unfolding init_client_side
main fuel argv = do
  check_usage argv
  port ← arg argv 2
  ip ← arg argv 1
  address ← init_client_side ip (atoi port)
  mode ← arg argv 3
  start_run fuel address (if str_eq mode (codes "-stdin") then false else true)
  stop (exits exit_success)
