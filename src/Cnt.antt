-- ===== src/Cnt.antt =====
-- op_systems/cv1/cnt2.cpp: counting the characters, words or lines of the standard input.
pub mod Counts
mod Tests
use osy_materials.Prelude.{
  ℕ, suc, ◌+◌, ◌-◌, ◌%◌, ◌^◌, ℤ, pos, negsuc, is_minus_one, Bool, List, ◌==◌, if◌then◌else◌, length,
}
use osy_materials.Libc.Strings.{Bytes, c_str, strlen}
use osy_materials.Libc.Tokens.{tokens}
use osy_materials.Sys.{
  Answer, fail, gives, getopt, print_int, warn_errno, exits, Sys, ◌>>=◌, ◌>>◌, pure, stop, act, ask,
  ask_read, store, stdin_fd, bufsiz, exit_success, exit_failure,
}
use osy_materials.Sys.Loop.{Round, again, leave, loop}

-- The global buffer and the variables of a counting function; `count` is the pattern of an `int`.
pub record State : Type 0 where
  pub buffer : Bytes
  pub read_bytes : ℤ
  pub count : ℕ

pub next_read : State → Sys State
next_read s = do
  f ← ask_read stdin_fd (bufsiz - 1) s.buffer
  pure (record s { buffer = f.buffer; read_bytes = f.bytes_read })

-- `count += n` in 32 bits.
abbrev pub add_int : ℕ → ℕ → ℕ
add_int count n = (count + n) % 2 ^ 32

-- The loop of the three functions, with what a piece of the input adds to the count.
count_piece : (Bytes → ℕ) → State → ℕ → Sys (Round State)
unfolding next_read
count_piece amount s n = do
  buf ← store s.buffer n 0
  s' ← next_read (record s { buffer = buf; count = add_int s.count (amount (c_str buf)) })
  pure (again s')

unfoldable pub count_round : (Bytes → ℕ) → State → Sys (Round State)
unfolding count_piece
count_round amount s = elim s.read_bytes [
  | pos (suc n) ↦ count_piece amount s (suc n)
  | _ ↦ pure (leave s)
]

-- `perror`, then `exit(EXIT_FAILURE)`.
perror_if : Bool → Sys (Unit {0})
perror_if bad = if bad then act warn_errno >> stop (exits exit_failure) else pure tt

unfoldable pub count_input : (Bytes → ℕ) → ℕ → Bytes → Sys State
unfolding next_read perror_if
count_input amount fuel buf = do
  s₀ ← next_read (record { buffer = buf; read_bytes = pos 0; count = 0 })
  s ← loop fuel (count_round amount) s₀
  perror_if (is_minus_one s.read_bytes)
  pure s

unfoldable pub count_chars : ℕ → Bytes → Sys State
count_chars = count_input strlen

-- `while(tkn) { count++; tkn = strtok(NULL, " "); }`; the NULs that `strtok` writes into the buffer lie
-- where the next `read` stores its bytes or behind its end.
abbrev pub no_tokens : Bytes → ℕ
no_tokens s = length (tokens b' ' s)

unfoldable pub count_words : ℕ → Bytes → Sys State
count_words = count_input no_tokens

abbrev pub one : Bytes → ℕ
one s = 1

unfoldable pub count_lines : ℕ → Bytes → Sys State
count_lines = count_input one

-- The `case` for an option: `?` stands for every letter that is not in "cwl".
unfoldable pub by_option : ℕ → ℕ → Bytes → Sys State
unfolding count_chars count_words count_lines
by_option c fuel buf =
    if c == b'c'
    then count_chars fuel buf
    else if c == b'w'
    then count_words fuel buf
    else if c == b'l'
    then count_lines fuel buf
    else (act warn_errno >> stop (exits exit_failure))

-- One round of the loop over the options, by what `getopt` returned.
option_round : ℕ → State → Answer → Sys (Round State)
unfolding by_option
option_round fuel s fail = pure (leave s)
option_round fuel s (gives c xs) = do s' ← by_option c fuel s.buffer; pure (again s')

unfoldable pub next_option : ℕ → State → Sys (Round State)
unfolding option_round
next_option fuel s = do c ← ask getopt; option_round fuel s c

-- Without an option the count is the -1 that it starts with.
unfoldable pub main : ℕ → Bytes → Sys State
main fuel buf = do
  s ← loop fuel (next_option fuel) (record { buffer = buf; read_bytes = pos 0; count = 2 ^ 32 - 1 })
  act (print_int "%d\n" s.count)
  stop (exits exit_success)
