-- ===== src/Messages/Client.antt =====
-- op_systems/client.c
pub mod Sent
use osy_materials.Prelude.{ℕ, zero, ℤ, is_neg, Bool, true, false, List, if◌then◌else◌, replicate}
use osy_materials.Libc.Strings.{Bytes, c_str}
use osy_materials.Libc.Numbers.{atoi}
use osy_materials.Sys.{
  Answer, fail, gives, SockAddr, write, close, inet_pton, socket, connect, warn, print, print_str,
  print_int, print_errno, exits, Sys, ◌>>=◌, ◌>>◌, pure, stop, act, ask, ask_int, failed, ask_read,
  arg, give_up_if, af_inet, htons, stdin_fd, exit_success, exit_failure,
}

-- `inet_pton(...) <= 0`
abbrev pub refused : Answer → Bool
refused fail = true
refused (gives zero xs) = true
refused (gives n xs) = false

not_connected : Bool → Sys (Unit {0})
not_connected bad =
    if bad
    then (act print_errno
        >> act (warn "Could not connect to the server\n")
        >> stop (exits exit_failure))
    else pure tt

-- The message: at most 1023 bytes into a buffer of 1024 zeros.
unfoldable pub send_message : ℤ → Sys ℕ
send_message sock_fd = do
  act (print "Write a message to the server: ")
  f ← ask_read stdin_fd 1023 (replicate 1024 0)
  act (write sock_fd (c_str f.buffer))
  act (close sock_fd)
  pure exit_success

abbrev address_of : Bytes → ℕ → SockAddr
address_of address port = record { sin_family = af_inet; sin_port = htons port; sin_addr = address }

-- The program returns `EXIT_FAILURE` where the address is malformed, as `exit` does.
unfoldable pub main : List Bytes → Sys ℕ
unfolding not_connected
main argv = do
  port ← arg argv 2
  address ← arg argv 1
  act (print_str "Address for connection is: %s\t port number is: " address)
  act (print_int "%d\n" (atoi port))
  r ← ask (inet_pton address)
  give_up_if (refused r) "Invalid address/ Address not supported \n"
  sock_fd ← ask_int socket
  give_up_if (is_neg sock_fd) "Could not create socket\n"
  c ← ask (connect sock_fd (address_of address (atoi port)))
  not_connected (failed c)
  send_message sock_fd
