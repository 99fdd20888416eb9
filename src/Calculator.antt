-- ===== src/Calculator.antt =====
-- op_systems/zk1/server.cpp: a server that multiplies, with a semaphore that its clients share.
pub mod Product
pub mod Session
pub mod Calls
pub mod Semaphore
pub mod Clients
pub mod Exclusion
mod Tests
use osy_materials.Prelude.{
  ℕ, ◌-◌, suc, ◌+◌, ◌*◌, ◌%◌, ◌^◌, ℤ, pos, is_neg, is_minus_one, Bool, Option, none, some, List, [],
  ◌∷◌, ltb, leb, ◌==◌, if◌then◌else◌, length,
}
use osy_materials.Libc.Strings.{Bytes, c_str, contains, zero_fill, sprintf_into}
use osy_materials.Libc.Tokens.{strtok}
use osy_materials.Libc.Numbers.{atoi, decimal_int}
use osy_materials.Sys.{
  SockAddr, write, inet_pton, socket, bind, listen, accept, pthread_create, sem_wait, sem_post,
  print, print_str, print_int, crashes, thread_exits, Sys, ◌>>=◌, ◌>>◌, pure, stop, act, ask,
  ask_int, failed, ask_read, store, arg, give_up_if, af_inet, bufsiz, somaxconn, htons,
}
use osy_materials.Sys.Loop.{Round, again, leave, loop}

abbrev pub max_clients : ℕ
max_clients = 15

-- The variables of `handle_client`.
pub record State : Type 0 where
  pub buffer : Bytes
  pub read_bytes : ℤ
  pub counter : ℕ

abbrev operators : List ℕ
operators = b'*' ∷ b'+' ∷ b'-' ∷ 92 ∷ []

-- The first operator that the message contains.
pick_operator : List ℕ → Bytes → Option ℕ
pick_operator [] s = none
pick_operator (op ∷ ops) s =
    let later = pick_operator ops s in if contains s (op ∷ []) then some op else later

-- An operand that `strtok` did not find is NULL, which `atoi` reads.
or_null : Option (Bytes × Bytes) → Sys (Bytes × Bytes)
or_null none = stop crashes
or_null (some r) = pure r

-- The distance from 0 of the `int` with this pattern.
abbrev magnitude : ℕ → ℕ
magnitude p = if ltb p (2 ^ 31) then p else 2 ^ 32 - p

-- What the magnitude of a product stays below: -2 ^ 31 is an `int`, 2 ^ 31 is none.
abbrev product_limit : ℕ → ℕ → ℕ
product_limit a b =
    if ltb a (2 ^ 31)
    then (if ltb b (2 ^ 31) then 2 ^ 31 else 2 ^ 31 + 1)
    else (if ltb b (2 ^ 31) then 2 ^ 31 + 1 else 2 ^ 31)

-- Whether the product of two `int`s, by their patterns, is an `int`.
abbrev pub fits_int : ℕ → ℕ → Bool
fits_int a b = ltb (magnitude a * magnitude b) (product_limit a b)

-- The product of two `int`s; an overflow is undefined in C.
int_product : ℕ → ℕ → Sys ℕ
int_product a b = if fits_int a b then pure (a * b % 2 ^ 32) else stop crashes

-- The branch of "*". The NULs that `strtok` writes into the buffer lie
-- behind what `sprintf` and the next `read` store.
multiply : ℤ → Bytes → Sys Bytes
unfolding or_null int_product
multiply client buf = do
  l ← or_null (strtok b'*' (c_str buf))
  r ← or_null (strtok b'*' l.1)
  result ← int_product (atoi l.0) (atoi r.0)
  let out = sprintf_into buf (decimal_int result)
  act (print_int "Interpred as: %d\n" result)
  act (write client (c_str out))
  pure out

-- Messages with another operator first, or with none, get no reply.
reply : ℤ → Bytes → Option ℕ → Sys Bytes
unfolding multiply
reply client buf none = pure buf
reply client buf (some op) = if op == b'*' then multiply client buf else pure buf

-- The loop over the operators.
unfoldable pub calculate : ℤ → Bytes → Sys Bytes
unfolding pick_operator reply
calculate client buf = reply client buf (pick_operator operators (c_str buf))

next_read : ℤ → State → Sys State
next_read client s = do
  f ← ask_read client bufsiz s.buffer
  pure (record s { buffer = f.buffer; read_bytes = f.bytes_read })

take_mutex : ℕ → Sys ℕ
take_mutex counter = if counter == 0 then (ask sem_wait >> pure counter) else pure counter

give_mutex : ℕ → Sys ℕ
give_mutex counter = if leb 10 counter then (act sem_post >> pure 0) else pure counter

-- The two tests of the counter at the start of a round.
unfoldable pub use_mutex : ℕ → Sys ℕ
unfolding take_mutex give_mutex
use_mutex counter = do c ← take_mutex counter; give_mutex c

handle_message : ℤ → State → ℕ → Sys (Round State)
unfolding next_read
handle_message client s n = do
  counter ← use_mutex s.counter
  buf ← store s.buffer n 0
  act (print_str "Read from client %s\n" (c_str buf))
  out ← calculate client buf
  s' ← next_read client (record s { buffer = out; counter = counter + 1 })
  pure (again s')

unfoldable pub client_round : ℤ → State → Sys (Round State)
unfolding handle_message
client_round client s = elim s.read_bytes [
  | pos (suc n) ↦ handle_message client s (suc n)
  | _ ↦ pure (leave s)
]

-- `stack` is what the stack holds where `BUFFER` lies. The `Client` that gets the socket -1 in the end
-- is not looked at again.
unfoldable pub handle_client : ℕ → Bytes → ℤ → Sys State
unfolding next_read
handle_client fuel stack client = do
  s₀ ←
      next_read client (record { buffer = zero_fill bufsiz stack; read_bytes = pos 0; counter = 0 })
  s ← loop fuel (client_round client) s₀
  give_up_if (is_minus_one s.read_bytes) "Error while reading\n"
  act (print "Client disconnected\n")
  stop thread_exits

-- `strcpy(IP, ip_address)` into `char IP[INET_ADDRSTRLEN + 1]`.
copy_ip : Bytes → Sys Bytes
copy_ip ip = if ltb (length ip) 17 then pure ip else stop crashes

pub init_server : Bytes → ℕ → Sys SockAddr
init_server ip port = do
  r ← ask (inet_pton ip)
  give_up_if (failed r) "Could not write address\n"
  pure (record { sin_family = af_inet; sin_port = htons port; sin_addr = ip })

-- `this->clients[this->no_clients] = new Client(-1)`
room_for : ℕ → Sys (Unit {0})
room_for no_clients = if ltb no_clients max_clients then pure tt else stop crashes

-- A round of `start`, by the number of the clients so far.
unfoldable pub accept_client : ℤ → ℕ → Sys (Round ℕ)
unfolding room_for
accept_client server no_clients = do
  act (print "Server is waiting for client\n")
  room_for no_clients
  new_sock ← ask_int (accept server)
  give_up_if (is_neg new_sock) "Could not accept the client\n"
  act (print "Client connected\n")
  r ← ask_int (pthread_create no_clients new_sock)
  give_up_if (is_minus_one r) "Could not create thread\n"
  pure (again (no_clients + 1))

-- `running` stays true, so the code behind the loop is not reached.
unfoldable pub start : ℕ → SockAddr → Sys ℕ
start fuel address = do
  server ← ask_int socket
  give_up_if (is_neg server) "Could not create socket\n"
  b ← ask (bind server address)
  give_up_if (failed b) "Could not bind\n"
  l ← ask (listen server somaxconn)
  give_up_if (failed l) "Could not listen\n"
  act (print "Server started listening\n")
  loop fuel (accept_client server) 0

unfoldable pub main : ℕ → List Bytes → Sys ℕ
unfolding copy_ip init_server
main fuel argv = do
  port ← arg argv 2
  ip_address ← arg argv 1
  ip ← copy_ip ip_address
  address ← init_server ip (atoi port)
  start fuel address
