-- ===== src/Listing/Looked.antt =====
-- Which entries are looked at.
use osy_materials.Prelude.{
  ℕ, zero, suc, ◌<◌, ◌≡◌, refl, sym, ap, ◌∙◌, Bool, true, false, ◌||◌, List, [], ◌∷◌, ◌++◌,
  if◌then◌else◌, length, ltb, arith, append_assoc, append-nil, Bool-cases, inl, inr,
}
use osy_materials.Libc.Strings.{Bytes, codes, str_eq, contains}
use osy_materials.Sys.{
  Answer, fail, gives, Call, stat, opendir, readdir, returns, exit_success, start,
}
use osy_materials.Sys.Loop.{again, leave, loop, loop_again, loop_leave}
use osy_materials.Listing.{
  OutputFormat, is_valid, init_format, set_format, no_format, check_dir, entry_round, main,
}

-- The answers while a directory with these entries is read.
abbrev pub entries_answers : List Bytes → List Answer → List Answer
entries_answers [] rest = fail ∷ rest
entries_answers (e ∷ es) rest = gives 0 e ∷ entries_answers es rest

-- The names that `stat` was called with, in order.
abbrev pub looked : List Call → List Bytes
looked [] = []
looked (stat name ∷ log) = looked log ++ name ∷ []
looked (_ ∷ log) = looked log

-- One of the strings is this one.
abbrev pub has_option : Bytes → List Bytes → Bool
has_option option [] = false
has_option option (s ∷ input) = str_eq s option || has_option option input

-- The arguments with a '.' in them.
abbrev pub dotted : List Bytes → List Bytes
dotted [] = []
dotted (s ∷ argv) = if contains s (codes ".") then s ∷ dotted argv else dotted argv

-- The entries that equal one of these names, or all of them.
abbrev pub selected : Bool → List Bytes → List Bytes → List Bytes
selected all names [] = []
selected all names (e ∷ es) =
    if has_option e names || all then e ∷ selected all names es else selected all names es

-- The program's test finds the dotted arguments.
is_valid-has_option : (e : Bytes) (argv : List Bytes) → is_valid e argv ≡ has_option e (dotted argv)
unfolding is_valid
is_valid-has_option e [] = refl
is_valid-has_option e (s ∷ argv) = elim (Bool-cases (contains s (codes "."))) [
  | inl h ↦ rw h (ap (λ b. str_eq s e || b) (is_valid-has_option e argv))
  | inr h ↦ rw h (is_valid-has_option e argv)
]

module _ (argv : List Bytes) (format : OutputFormat) (rest : List Answer) where
  entry_log : Bytes → List Call → List Call
  entry_log e log =
      if is_valid e argv || format.print_all then stat e ∷ readdir ∷ log else readdir ∷ log

  entry_round_lem :
      (e : Bytes) (answers : List Answer) (log : List Call)
      → entry_round argv format tt (record { answers = gives 0 e ∷ answers; log = log })
        ≡ (returns (again tt), record { answers = answers; log = entry_log e log })
  unfolding entry_round entry_log
  entry_round_lem e answers log = elim (Bool-cases (is_valid e argv || format.print_all)) [
    | inl h ↦ rw h
    | inr h ↦ rw h
  ]

  entry_round_leaves :
      (log : List Call)
      → entry_round argv format tt (record { answers = fail ∷ rest; log = log })
        ≡ (returns (leave tt), record { answers = rest; log = readdir ∷ log })
  unfolding entry_round
  entry_round_leaves log = refl

  entry_looked :
      (e : Bytes) (es : List Bytes) (log : List Call)
      → looked (entry_log e log) ++ selected format.print_all (dotted argv) es
        ≡ looked log ++ selected format.print_all (dotted argv) (e ∷ es)
  unfolding entry_log
  entry_looked e es log =
      rw (is_valid-has_option e argv)
        (elim (Bool-cases (has_option e (dotted argv) || format.print_all)) [
          | inl h ↦ rw h (append_assoc (looked log) (e ∷ []) _)
          | inr h ↦ rw h
        ])

  entries_looked :
      (es : List Bytes) (fuel : ℕ) (log : List Call)
      → length es < fuel
      → (log' : List Call) × (loop fuel
            (entry_round argv format)
            tt
            (record { answers = entries_answers es rest; log = log })
          ≡ (returns tt, record { answers = rest; log = log' }))
        × (looked log' ≡ looked log ++ selected format.print_all (dotted argv) es)
  entries_looked es zero log h = absurd (omega arith)
  entries_looked [] (suc fuel) log h = (
    readdir ∷ log,
    loop_leave fuel (entry_round argv format) (entry_round_leaves log),
    sym (append-nil _),
  )
  entries_looked (e ∷ es) (suc fuel) log h =
      let (log', run, l) = entries_looked es fuel (entry_log e log) (omega arith) in
      (
        log',
        loop_again fuel (entry_round argv format) (entry_round_lem e (entries_answers es rest) log)
            ∙ run,
        l ∙ entry_looked e es log,
      )

or_false : (b : Bool) → b ≡ b || false
or_false true = refl
or_false false = refl

or_swap : (a b c : Bool) → (b || a) || c ≡ a || (b || c)
or_swap true true c = refl
or_swap true false c = refl
or_swap false true c = refl
or_swap false false c = refl

-- `print_all` is set by the option "-a" anywhere.
init_format-all :
    (input : List Bytes) (f : OutputFormat)
    → (init_format input f).print_all ≡ f.print_all || has_option (codes "-a") input
unfolding init_format
init_format-all [] f = or_false f.print_all
init_format-all (s ∷ input) f =
    init_format-all input (set_format s f)
    ∙ or_swap f.print_all (str_eq s (codes "-a")) (has_option (codes "-a") input)

-- In a directory that can be opened the program looks at the entries that equal an argument with a
-- '.' in it, or at all entries if "-a" is among the arguments, in their order, and succeeds.
pub main-looked :
    (fuel n : ℕ) (program name xs : Bytes) (args es : List Bytes) (rest : List Answer)
    → length es < fuel
    → let argv = program ∷ name ∷ args in
      let r = main fuel argv (start (gives n xs ∷ entries_answers es rest)) in
      (r.0 ≡ returns exit_success)
      × (looked r.1.log ≡ selected (has_option (codes "-a") argv) (dotted argv) es)
unfolding main
main-looked fuel n program name xs args es rest h =
    let argv = program ∷ name ∷ args in
    let e : ltb (length argv) 2 ≡ false = ground arith in
    let (log, run, l) =
      entries_looked argv (init_format argv no_format) rest es fuel (opendir (check_dir name) ∷ [])
        h in
    rw e (
      rw run (refl, l ∙ ap (λ all. selected all (dotted argv) es) (init_format-all argv no_format)))
