-- ===== src/Examples/Pipes.antt =====
-- op_systems/pipe.cpp, pipeF.cpp, fifo1.cpp, popen.c and exec.cpp.
pub mod Printed
use osy_materials.Prelude.{
  ℕ, zero, suc, ◌+◌, ℤ, pos, negsuc, Bool, List, [], ◌∷◌, ltb, if◌then◌else◌, length, replicate,
}
use osy_materials.Libc.Strings.{Bytes, codes, c_str}
use osy_materials.Sys.{
  Answer, fail, gives, crashes, write, close, open_file, access, mkfifo, pipe, fork, popen, pclose,
  fread, print_str, warn, exits, Sys, ◌>>=◌, ◌>>◌, pure, stop, act, ask, ask_int, failed, ask_read,
  Fetched, fetched, store, give_up, give_up_if, give_up_errno_if, exec_argv, ends_of, Ends, bufsiz,
  exit_success, exit_failure,
}

-- `main` of pipe.cpp: without the FIFO there is only a message.
unfoldable pub pipe_main : Sys ℕ
pipe_main = do
  r ← ask (mkfifo (codes "myfifo"))
  if failed r then act (warn "Could not create fifo file\n") else pure tt
  fd ← ask_int (open_file (codes "myfifo"))
  n ← ask (write fd (codes "ahoj"))
  give_up_errno_if (failed n)
  act (close fd)
  pure exit_success

-- `buffer[data_processed] = '\0'`, where -1 is in front of the buffer.
pub end_data : Bytes → ℤ → Sys Bytes
end_data buffer (pos n) = store buffer n 0
end_data buffer (negsuc n) = stop crashes

-- The child of pipeF.cpp.
pub read_data : Ends → Sys ℕ
unfolding end_data
read_data ends = do
  f ← ask_read ends.read_end bufsiz (replicate (bufsiz + 1) 0)
  buffer ← end_data f.buffer f.bytes_read
  act (print_str "Data read: %s\n" (c_str buffer))
  stop (exits exit_success)

pub by_fork : Ends → Answer → Sys ℕ
unfolding read_data
by_fork ends fail = give_up "Fork failed\n"
by_fork ends (gives zero xs) = read_data ends
by_fork ends (gives (suc pid) xs) = do
  n ← ask (write ends.write_end (codes "ahoj bro"))
  pure exit_success

pub by_pipe : Answer → Sys ℕ
unfolding by_fork
by_pipe fail = pure exit_success
by_pipe (gives n xs) = do pid ← ask fork; by_fork (ends_of (gives n xs)) pid

-- `main` of pipeF.cpp, in the parent and in the child.
unfoldable pub forked_main : Sys ℕ
unfolding by_pipe
forked_main = do p ← ask pipe; by_pipe p

make_fifo : Sys (Unit {0})
make_fifo = do
  r ← ask (mkfifo (codes "myfifo"))
  give_up_if (failed r) "Nelze vytvorit FIFO soubor\n"

-- `main` of fifo1.cpp.
unfoldable pub fifo_main : Sys ℕ
unfolding make_fifo
fifo_main = do
  a ← ask (access (codes "myfifo"))
  if failed a then make_fifo else pure tt
  pure exit_success

-- `fread` of at most `BUFSIZ` bytes into the zeros.
pub print_output : Fetched → Sys (Unit {0})
print_output f = elim f.bytes_read [
  | pos (suc n) ↦ act (print_str "Vystup byl: %s\n" (c_str f.buffer))
  | _ ↦ pure tt
]

pub by_popen : Answer → Sys ℕ
unfolding print_output
by_popen fail = do act (write (pos 2) (codes "popen failed")); stop (exits exit_failure)
by_popen (gives p xs) = do
  a ← ask (fread bufsiz)
  print_output (fetched bufsiz (replicate (bufsiz + 1) 0) a)
  act pclose
  stop (exits exit_success)

-- `main` of popen.c.
unfoldable pub popen_main : Sys ℕ
unfolding by_popen
popen_main = do p ← ask (popen (codes "uname -a")); by_popen p

-- `main` of exec.cpp.
unfoldable pub exec_main : Sys ℕ
exec_main = do
  exec_argv (codes "grep" ∷ codes "-E" ∷ codes "c$" ∷ codes "-" ∷ [])
  pure exit_success
