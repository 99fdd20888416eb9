-- ===== src/Argv.antt =====
-- Splitting a command into the array that `execvp` takes. The same loop stands in the interpreter, in
-- the shell servers and, with another delimiter, in the web server.
use osy_materials.Prelude.{
  ℕ, zero, suc, ◌<◌, ◌≡◌, Option, none, some, List, [], ◌∷◌, ◌++◌, ltb, if◌then◌else◌, length,
  length-append, arith, append-nil, append_assoc, inl, inr,
}
use osy_materials.Libc.Strings.{Bytes}
use osy_materials.Libc.Tokens.{strtok, words, strtok_cases}
use osy_materials.Sys.{Sys, crashes, pure, stop}

-- tkn = strtok(s, d); while(tkn) { argv[counter++] = tkn; tkn = strtok(NULL, d); } argv[counter] = NULL;
-- in an array of `cap` pointers; `none` is a write behind its end.
collect : ℕ → ℕ → ℕ → Bytes → List Bytes → Option (List Bytes)
collect zero cap d s argv = none
collect (suc fuel) cap d s argv = elim (strtok d s) [
  | none ↦ if ltb (length argv) cap then some argv else none
  | some (t, rest) ↦
      let later = collect fuel cap d rest (argv ++ t ∷ []) in
      if ltb (length argv) cap then later else none
]

-- Each round takes a byte of the string, so these rounds are enough.
pub split_args : ℕ → ℕ → Bytes → Option (List Bytes)
unfolding collect
split_args cap d s = collect (suc (length s)) cap d s []

-- Fewer words than the array has places, since the NULL takes one.
abbrev pub bounded : ℕ → List Bytes → Option (List Bytes)
bounded cap ws = if ltb (length ws) cap then some ws else none

collect-words :
    (fuel cap d : ℕ) (s : Bytes) (argv : List Bytes)
    → length s < fuel
    → collect fuel cap d s argv ≡ bounded cap (argv ++ words d s)
unfolding collect
collect-words zero cap d s argv h = absurd (omega arith)
collect-words (suc fuel) cap d s argv h = elim (strtok_cases d s) [
  | inl (e, w) ↦ rw (e, collect) (rw w (rw append-nil))
  | inr (t, rest, cut) ↦
      rw (cut.result, collect)
        (rw cut.others (
          rw (collect-words fuel cap d rest (argv ++ t ∷ []) (omega (arith, cut.shorter)))
            (rw append_assoc (ground (arith, length-append argv (t ∷ words d rest))))))
]

-- The array holds the nonempty fields of the command in order, and there is room exactly for fewer
-- than `cap` of them.
pub split_args-words : (cap d : ℕ) (s : Bytes) → split_args cap d s ≡ bounded cap (words d s)
unfolding split_args
split_args-words cap d s = collect-words (suc (length s)) cap d s [] (omega arith)

abbrev or_crash : Option (List Bytes) → Sys (List Bytes)
or_crash none = stop crashes
or_crash (some argv) = pure argv

unfoldable pub parse_args : ℕ → ℕ → Bytes → Sys (List Bytes)
parse_args cap d s = or_crash (split_args cap d s)
