-- ===== src/ShellClient.antt =====
-- op_systems/shellInterpreter/ShellClient/client.cpp
pub mod Saved
pub mod Exchange
pub mod Session
mod Tests
use osy_materials.Prelude.{
  ℕ, zero, suc, ◌-◌, ℤ, pos, negsuc, is_neg, is_minus_one, Bool, true, false, List, ◌==◌,
  if◌then◌else◌, length, replicate,
}
use osy_materials.Libc.Strings.{Bytes, codes, c_str, str_eq}
use osy_materials.Libc.Numbers.{atoi}
use osy_materials.Sys.{
  Answer, SockAddr, write, close, open_file, inet_pton, socket, connect, print, print_str, warn,
  warn_errno, exits, Sys, ◌>>=◌, ◌>>◌, pure, stop, act, ask, ask_int, failed, ask_read, store, arg,
  give_up, give_up_if, give_up_errno_if, stdin_fd, af_inet, bufsiz, htons, exit_success,
  exit_failure,
}
use osy_materials.Sys.Loop.{Round, again, leave, loop}

-- What `init_client` makes: the socket, and the address that it fills in.
pub record Socket : Type 0 where
  pub client_fd : ℤ
  pub address : SockAddr

-- fprintf(stderr, "Invalid address: %s\n", strerror(errno)), and the end of the program.
refuse_address : Bool → Sys (Unit {0})
refuse_address bad =
    if bad
    then (act (warn "Invalid address: ") >> act warn_errno >> stop (exits exit_failure))
    else pure tt

pub init_client : ℕ → Bytes → Sys Socket
unfolding refuse_address
init_client port ip_address = do
  r ← ask (inet_pton ip_address)
  refuse_address (failed r)
  client_fd ← ask_int socket
  give_up_errno_if (is_neg client_fd)
  pure (record {
    client_fd = client_fd;
    address = record { sin_family = af_inet; sin_port = htons port; sin_addr = ip_address };
  })

-- The variables of `handle_response`, and of `main`.
pub record State : Type 0 where
  pub buffer : Bytes
  pub bytes_read : ℤ

pub next_read : ℤ → Bytes → Sys State
next_read fd buf = do
  f ← ask_read fd (bufsiz - 1) buf
  pure (record { buffer = f.buffer; bytes_read = f.bytes_read })

-- A round with these many bytes and one more: the NUL is stored over the last of them.
pub save_piece : ℤ → ℤ → Bytes → ℕ → Sys (Round State)
save_piece client_fd fd buffer n = do
  buf ← store buffer n 0
  act (write fd (c_str buf))
  s ← next_read client_fd buf
  pure (again s)

pub save_round : ℤ → ℤ → State → Sys (Round State)
unfolding save_piece next_read
save_round client_fd fd s = elim s.bytes_read [
  | pos (suc n) ↦ save_piece client_fd fd s.buffer n
  | _ ↦ pure (leave s)
]

pub save_response : ℕ → ℤ → Sys (Unit {0})
unfolding save_round next_read
save_response fuel client_fd = do
  s₀ ← next_read client_fd (replicate bufsiz 0)
  fd ← ask_int (open_file (codes "response.txt"))
  give_up_if (is_neg fd) "Could not open a file\n"
  s ← loop fuel (save_round client_fd fd) s₀
  give_up_if (is_minus_one s.bytes_read) "Could not read back response\n"
  act (close fd)

unfoldable pub handle_response : ℕ → ℤ → Bytes → Sys (Unit {0})
unfolding save_response
handle_response fuel client_fd flag =
    if str_eq flag (codes "-f") then save_response fuel client_fd else pure tt

-- A line of so many bytes and one more.
send_line : ℕ → ℤ → Bytes → Bytes → ℕ → Sys (Round Bytes)
unfolding handle_response
send_line fuel client_fd flag buffer n = do
  buf ← store buffer n 0
  act (print_str "%s\n" (c_str buf))
  r ← ask (write client_fd (c_str buf))
  give_up_if (failed r) "Could not write into the socket\n"
  handle_response fuel client_fd flag
  pure (again buf)

unfoldable pub line_round : ℕ → ℤ → Bytes → Bytes → Sys (Round Bytes)
unfolding send_line
line_round fuel client_fd flag buffer = do
  f ← ask_read stdin_fd (bufsiz - 1) buffer
  elim f.bytes_read [
    | pos (suc n) ↦ send_line fuel client_fd flag f.buffer n
    | _ ↦ give_up "Could not read from stdin\n"
  ]

-- `client_running` stays true, so the code behind the loop is not reached.
unfoldable pub main : ℕ → List Bytes → Sys Bytes
unfolding init_client
main fuel argv = do
  give_up_if (if length argv == 4 then false else true) "Invalid use\n"
  ip_address ← arg argv 1
  port ← arg argv 2
  s ← init_client (atoi port) ip_address
  act (print "Waiting for connection\n")
  c ← ask (connect s.client_fd s.address)
  give_up_if (failed c) "Could not connect\n"
  act (print "Connected\n")
  flag ← arg argv 3
  loop fuel (line_round fuel s.client_fd flag) (replicate bufsiz 0)
