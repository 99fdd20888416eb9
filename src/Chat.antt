-- ===== src/Chat.antt =====
-- op_systems/telnet_com/server.cpp: a server that passes every message on to the other clients.
pub mod Broadcast
pub mod Session
pub mod Room
mod Tests
use osy_materials.Prelude.{
  ℕ, zero, suc, ◌+◌, ◌-◌, ℤ, pos, minus_one, is_minus_one, Bool, List, [], ◌∷◌, ltb, if◌then◌else◌,
  length, set,
}
use osy_materials.Libc.Strings.{Bytes, c_str}
use osy_materials.Libc.Numbers.{atoi}
use osy_materials.Sys.{
  Answer, fail, gives, SockAddr, write, inet_pton, socket, bind, listen, accept, pthread_create,
  warn, print, print_str, crashes, thread_exits, Sys, ◌>>=◌, ◌>>◌, pure, stop, act, ask, ask_int,
  failed, ask_read, store, arg, give_up_errno_if, warn_errno, af_inet, bufsiz, somaxconn, htons,
}
use osy_materials.Sys.Log.{same_fd}
use osy_materials.Sys.Loop.{Round, again, leave, loop}

-- `struct Sock_desc`; `fds` has `MAX_CON` places.
pub record SockDesc : Type 0 where
  pub current_num : ℕ
  pub fds : List ℤ
  pub current_active : ℤ

-- A malformed address is reported, and the program goes on with what the structure held.
report_address : Bool → Sys (Unit {0})
report_address bad = if bad then act (warn "Please enter valid address\n") else pure tt

pub init_address : Bytes → ℕ → Sys SockAddr
unfolding report_address
init_address address port = do
  r ← ask (inet_pton address)
  report_address (failed r)
  pure (record { sin_family = af_inet; sin_port = htons port; sin_addr = address })

-- One descriptor of the loop in `broad_cast`.
pass_on : ℤ → ℤ → Bytes → Sys (Unit {0})
pass_on fd excluded message =
    if same_fd fd excluded then pure tt else act (write fd (c_str message))

-- The loop from `fds[0]` for so many places; a place behind the array is `crashes`.
pub broad_to : ℕ → List ℤ → ℤ → Bytes → Sys (Unit {0})
unfolding pass_on
broad_to zero fds excluded message = pure tt
broad_to (suc n) [] excluded message = stop crashes
broad_to (suc n) (fd ∷ fds) excluded message =
    pass_on fd excluded message >> broad_to n fds excluded message

unfoldable pub broad_cast : SockDesc → ℤ → Bytes → Sys (Unit {0})
unfolding broad_to
broad_cast descs excluded message = broad_to descs.current_num descs.fds excluded message

-- The variables of `handle_client`: the buffer, and how many messages there were.
pub record State : Type 0 where
  pub buffer : Bytes
  pub handled : ℕ

take_message : SockDesc → ℤ → State → ℕ → Bytes → Sys (Round State)
take_message descs active s n buffer = do
  buf ← store buffer n 0
  act (print_str "Response from the client:%s\n" (c_str buf))
  broad_cast descs active buf
  pure (again (record { buffer = buf; handled = s.handled + 1 }))

-- One round of `while (1)`, by what `read` returned. The structure is shared with the other threads:
-- `descs` is what it holds when this message is passed on.
by_read : SockDesc → ℤ → State → ℤ → Bytes → Sys (Round State)
unfolding take_message
by_read descs active s (pos (suc n)) buffer = take_message descs active s (suc n) buffer
by_read descs active s _ buffer = stop thread_exits

unfoldable pub client_round : (ℕ → SockDesc) → ℤ → State → Sys (Round State)
unfolding by_read
client_round shared active s = do
  f ← ask_read active (bufsiz - 1) s.buffer
  by_read (shared s.handled) active s f.bytes_read f.buffer

-- `first` is what the shared structure holds when the thread starts, `shared n` what it holds at the
-- message with the number `n`.
unfoldable pub handle_client : ℕ → SockDesc → (ℕ → SockDesc) → Bytes → Sys State
handle_client fuel first shared stack =
    loop fuel (client_round shared first.current_active) (record { buffer = stack; handled = 0 })

-- `sock_desc.fds[i] = fd`
store_fd : List ℤ → ℕ → ℤ → Sys (List ℤ)
store_fd fds i fd = if ltb i (length fds) then pure (set fds i fd) else stop crashes

report_thread : Bool → Sys (Unit {0})
report_thread bad = if bad then act warn_errno else pure tt

-- A new client, behind the test of the number of clients.
admit : ℤ → SockDesc → Sys (Round SockDesc)
unfolding store_fd report_thread
admit server_fd s = do
  client_fd ← ask_int (accept server_fd)
  give_up_errno_if (is_minus_one client_fd)
  fds ← store_fd s.fds s.current_num client_fd
  let s' : SockDesc = record {
    current_num = s.current_num + 1;
    fds = fds;
    current_active = client_fd;
  }
  act (print "Client is accepted\n")
  r ← ask (pthread_create s.current_num client_fd)
  report_thread (failed r)
  pure (again s')

refuse : SockDesc → Sys (Round SockDesc)
refuse s = do act (print "Cannot accept more clients\n"); pure (again s)

-- One round of the loop of `main`.
unfoldable pub accept_round : ℤ → SockDesc → Sys (Round SockDesc)
unfolding admit refuse
accept_round server_fd s = if ltb 3 s.current_num then refuse s else admit server_fd s

pub open_server : List Bytes → Sys ℤ
unfolding init_address
open_server argv = do
  port ← arg argv 2
  address ← arg argv 1
  server_address ← init_address address (atoi port)
  server_fd ← ask_int socket
  give_up_errno_if (is_minus_one server_fd)
  bound ← ask (bind server_fd server_address)
  give_up_errno_if (failed bound)
  l ← ask (listen server_fd somaxconn)
  give_up_errno_if (failed l)
  pure server_fd

-- `fds` is what the stack holds in the array of the structure. The loop has no end of its own.
unfoldable pub main : ℕ → List ℤ → ℤ → List Bytes → Sys SockDesc
unfolding open_server
main fuel fds active argv = do
  server_fd ← open_server argv
  loop fuel (accept_round server_fd)
      (record { current_num = 0; fds = fds; current_active = active })
