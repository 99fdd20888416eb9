-- ===== src/Sys.antt =====
-- The operating system as the programs see it. A run takes the kernel's answers from a list, one for
-- each system call that returns a value, in the order of the calls, and logs what the process does.
-- Every sequence of answers is a kernel's behaviour; where the list ends the process is left waiting.
pub mod Loop
pub mod Log
pub mod Progress
pub mod Places
pub mod Pieces
pub mod Lines
pub mod Keeps
pub mod Stream
use osy_materials.Prelude.{
  ℕ, ◌+◌, ◌<◌, ◌≤◌, arith, ◌*◌, ◌/◌, ◌%◌, String, ℤ, pos, minus_one, Bool, true, false, List, [],
  ◌∷◌, ◌++◌, ◌-◌, Option, none, some, ltb, if◌then◌else◌, take, length, set, get_elem?,
}
use osy_materials.Libc.Strings.{Bytes, read_into}
use osy_materials.Graphics.Calls.{GlCall}

-- A call returned -1 (or NULL), or a number and the bytes that it stores.
pub data Answer : Type 0 where
  fail : Answer
  gives : ℕ → Bytes → Answer

-- `struct sockaddr_in`: the port as it lies in memory, and the address that `inet_pton` stored, as text.
pub record SockAddr : Type 0 where
  pub sin_family : ℕ
  pub sin_port : ℕ
  pub sin_addr : Bytes

pub data Call : Type 0 where
  -- input and output on descriptors
  read : ℤ → ℕ → Call
  write : ℤ → Bytes → Call
  close : ℤ → Call
  dup2 : ℤ → ℕ → Call
  open_file : Bytes → Call
  access : Bytes → Call
  stat : Bytes → Call
  opendir : Bytes → Call
  readdir closedir : Call
  mkfifo : Bytes → Call
  pipe : Call
  -- sockets
  inet_pton : Bytes → Call
  socket : Call
  bind : ℤ → SockAddr → Call
  listen : ℤ → ℕ → Call
  accept : ℤ → Call
  connect : ℤ → SockAddr → Call
  -- processes and threads
  fork : Call
  execvp : List Bytes → Call
  wait : Call
  popen : Bytes → Call
  pclose : Call
  fgets : ℕ → Call
  fread : ℕ → Call
  sleep : ℕ → Call
  getopt : Call
  gethostname : Call
  pthread_create : ℕ → ℤ → Call
  pthread_join : ℕ → Call
  sem_wait sem_post : Call
  -- a call of the graphics libraries
  graphics : GlCall → Call
  -- `printf` to the standard output, and messages to the standard error
  print : String → Call
  print_str : String → Bytes → Call
  print_int : String → ℕ → Call
  warn : String → Call
  -- fprintf(stderr, "%s\n", strerror(errno))
  warn_errno : Call
  -- printf("%s\n", strerror(errno))
  print_errno : Call

-- How a process stops: by `exit`, by `pthread_exit`, as another program, in undefined behaviour,
-- waiting for the kernel, or still in a loop after all its rounds.
pub data Stop : Type 0 where
  exits : ℕ → Stop
  thread_exits : Stop
  execs : List Bytes → Stop
  crashes : Stop
  waits : Stop
  runs_on : Stop

pub data Outcome {ℓ} (A : Type ℓ) : Type ℓ where
  returns : A → Outcome A
  stops : Stop → Outcome A

-- The log has the latest call first.
pub record World : Type 0 where
  pub answers : List Answer
  pub log : List Call

abbrev pub Sys {ℓ} : Type ℓ → Type ℓ
Sys A = World → Outcome A × World

abbrev pub continue {ℓ κ} :
    {A : Type ℓ} {B : Type κ} → Outcome A → (A → Sys B) → World → Outcome B × World
continue (returns a) f w = f a w
continue (stops e) f w = (stops e, w)

infixl 5 ◌>>=◌ ◌>>◌
abbrev pub ◌>>=◌ {ℓ κ} : {A : Type ℓ} {B : Type κ} → Sys A → (A → Sys B) → Sys B
◌>>=◌ m f w = let r = m w in continue r.0 f r.1

abbrev pub ◌>>◌ {ℓ κ} : {A : Type ℓ} {B : Type κ} → Sys A → Sys B → Sys B
m >> k = m >>= λ _. k

abbrev pub pure {ℓ} : {A : Type ℓ} → A → Sys A
pure a w = (returns a, w)

abbrev pub stop {ℓ} : {A : Type ℓ} → Stop → Sys A
stop e w = (stops e, w)

-- A call whose result the program drops, or that cannot fail.
abbrev pub act : Call → Sys (Unit {0})
act c w = (returns tt, record w { log = c ∷ w.log })

-- A call whose answer the program looks at.
abbrev answer_of : Call → List Answer → World → Outcome Answer × World
answer_of c [] w = (stops waits, record w { log = c ∷ w.log })
answer_of c (a ∷ rest) w = (returns a, record { answers = rest; log = c ∷ w.log })

abbrev pub ask : Call → Sys Answer
ask c w = answer_of c w.answers w

-- The `int` that a call returned.
abbrev pub int_of : Answer → ℤ
int_of fail = minus_one
int_of (gives n xs) = pos n

-- `x == -1` for calls that return -1 or a result.
abbrev pub failed : Answer → Bool
failed fail = true
failed (gives n xs) = false

abbrev pub ask_int : Call → Sys ℤ
ask_int c = ask c >>= λ a. pure (int_of a)

-- What `read(fd, buffer, count)` leaves: the result and the buffer.
pub record Fetched : Type 0 where
  pub bytes_read : ℤ
  pub buffer : Bytes

-- The call stores at most `count` bytes and returns their number, 0 at the end of the input.
abbrev pub fetched : ℕ → Bytes → Answer → Fetched
fetched count buf fail = record { bytes_read = minus_one; buffer = buf }
fetched count buf (gives n xs) = record {
  bytes_read = pos (length (take count xs));
  buffer = read_into buf (take count xs);
}

abbrev pub ask_read : ℤ → ℕ → Bytes → Sys Fetched
ask_read fd count buf = ask (read fd count) >>= λ a. pure (fetched count buf a)

-- What `fgets(buffer, size, file)` leaves in the buffer: at most `size - 1` bytes of a line, and a NUL.
abbrev pub line_into : ℕ → Bytes → Answer → Bytes
line_into size buf fail = buf
line_into size buf (gives n xs) = read_into buf (take (size - 1) xs ++ 0 ∷ [])

-- A pointer that must not be NULL.
abbrev pub not_null {ℓ} : {A : Type ℓ} → Option A → Sys A
not_null none = stop crashes
not_null (some a) = pure a

-- `argv[0]`, which `%s` prints.
abbrev pub first : List Bytes → Sys Bytes
first [] = stop crashes
first (s ∷ ss) = pure s

-- `buffer[i] = b`, which must stay inside the array.
abbrev pub store : Bytes → ℕ → ℕ → Sys Bytes
store buf i b w = if ltb i (length buf) then (returns (set buf i b), w) else (stops crashes, w)

-- `argv[i]` where the program uses the string.
abbrev pub arg : List Bytes → ℕ → Sys Bytes
arg argv i w = elim (get_elem? argv i) [ none ↦ (stops crashes, w) | some s ↦ (returns s, w) ]

abbrev pub exit_success : ℕ
exit_success = 0

abbrev pub exit_failure : ℕ
exit_failure = 1

-- A message on the standard error, then `exit(EXIT_FAILURE)`.
abbrev pub give_up {ℓ} : {A : Type ℓ} → String → Sys A
give_up text = act (warn text) >> stop (exits exit_failure)

-- if(bad) { fprintf(stderr, text); exit(EXIT_FAILURE); }
abbrev pub give_up_if : Bool → String → Sys (Unit {0})
give_up_if bad text = if bad then give_up text else pure tt

abbrev pub give_up_errno_if : Bool → Sys (Unit {0})
give_up_errno_if bad = if bad then act warn_errno >> stop (exits exit_failure) else pure tt

-- `pipe(ends)` stores two descriptors: `ends[i]`.
abbrev end_at : ℕ → Bytes → ℤ
end_at i xs = elim (get_elem? xs i) [ none ↦ minus_one | some n ↦ pos n ]

pub record Ends : Type 0 where
  pub read_end : ℤ
  pub write_end : ℤ

abbrev pub ends_of : Answer → Ends
ends_of fail = record { read_end = minus_one; write_end = minus_one }
ends_of (gives n xs) = record { read_end = end_at 0 xs; write_end = end_at 1 xs }

abbrev pub stdin_fd : ℤ
stdin_fd = pos 0

abbrev pub stdout_fd : ℕ
stdout_fd = 1

-- `execvp(argv[0], argv)` comes back only if it fails; `argv[0]` must not be NULL.
abbrev exec_result : List Bytes → Answer → Sys (Unit {0})
exec_result argv fail = pure tt
exec_result argv (gives n xs) = stop (execs argv)

abbrev pub exec_argv : List Bytes → Sys (Unit {0})
exec_argv [] = stop crashes
exec_argv (file ∷ args) = ask (execvp (file ∷ args)) >>= exec_result (file ∷ args)

-- `AF_INET`, `BUFSIZ` and `SOMAXCONN` of the C library on Linux.
abbrev pub af_inet : ℕ
af_inet = 2

unfoldable pub bufsiz : ℕ
bufsiz = 8192

pub bufsiz_pos : 0 < bufsiz
unfolding bufsiz
bufsiz_pos = omega arith

pub bufsiz_room : 256 ≤ bufsiz
unfolding bufsiz
bufsiz_room = omega arith

abbrev pub somaxconn : ℕ
somaxconn = 4096

-- `htons` on a machine that stores the low byte first.
unfoldable pub htons : ℕ → ℕ
htons p = p % 256 * 256 + p / 256 % 256

-- A run from these answers, with nothing logged yet.
abbrev pub start : List Answer → World
start answers = record { answers = answers; log = [] }
