-- ===== src/Cat/Printed.antt =====
-- What op_systems/cv1/cat2.cpp prints.
use osy_materials.Prelude.{
  ℕ, suc, ◌-◌, ◌<◌, ◌≡◌, refl, sym, ap, ◌∙◌, pos, ℤ, List, [], ◌∷◌, ◌++◌, length, take-eq_of_le,
  arith, append_assoc, append-nil, lt→ltb, All, ◌==◌, false,
}
use osy_materials.Libc.Strings.{
  terminated, length-terminated, Bytes, c_str, read_into, length-read_into, c_str-terminated,
}
use osy_materials.Sys.{
  Answer, gives, Call, read, close, open_file, access, print_str, World, Outcome, returns, stops,
  exits, exit_failure, bufsiz, start,
}
use osy_materials.Sys.Log.{IsPiece, pieces_answers, payload, printed}
use osy_materials.Sys.Loop.{again, leave}
use osy_materials.Sys.Pieces.{
  piece, pieces_answers-item_answers, payload-outputs, first_text, first_text-short, Shows, Holds,
  GoesOn, loop-Shows,
}
use osy_materials.Cat.{State, print_round, print_file, run_command, main}

abbrev state : Bytes → ℤ → State
state buf n = record { buffer = buf; bytes_read = n }

-- A run returns with this printed behind what the log shows, and the buffer's length kept.
abbrev Prints : List Answer → List Call → Outcome Bytes × World → Bytes → Type 0
Prints = Shows (λ buf. length buf ≡ bufsiz) printed

module _ (fd : ℤ) where
  print_round_lem :
      (x : ℕ) (buf xs ys : Bytes) (n : ℕ) (answers : List Answer) (log : List Call)
      → length (x ∷ xs) < length buf
      → length ys < bufsiz
      → print_round fd
          (state (read_into buf (x ∷ xs)) (pos (length (x ∷ xs))))
          (record { answers = gives n ys ∷ answers; log = log })
        ≡ (
          returns (again (state (read_into (terminated buf (x ∷ xs)) ys) (pos (length ys)))),
          record {
            answers = answers;
            log = read fd (bufsiz - 1) ∷ print_str "%s" (c_str (x ∷ xs)) ∷ log;
          },
        )
  unfolding print_round
  print_round_lem x buf xs ys n answers log h k = rw (length-read_into buf (x ∷ xs)) (
      rw (lt→ltb _ _ h)
        (rw (take-eq_of_le (bufsiz - 1) ys (omega arith)) (rw (c_str-terminated buf (x ∷ xs) h))))

  print_round-leaves :
      (s : State) (w : World) → Holds state [] s → print_round fd s w ≡ (returns (leave s), w)
  unfolding print_round
  print_round-leaves s w (buf, b, e) = rw e refl

  print_round-GoesOn :
      (p : Bytes) → IsPiece p → GoesOn (print_round fd) printed (Holds state) (piece p) (c_str p)
  print_round-GoesOn [] i s n next answers log k q = absurd (omega (arith, i.0))
  print_round-GoesOn (x ∷ xs) i s n next answers log (buf, b, e) q = (
    state (read_into (terminated buf (x ∷ xs)) next) (pos (length next)),
    read fd (bufsiz - 1) ∷ print_str "%s" (c_str (x ∷ xs)) ∷ log,
    rw e (print_round_lem x buf xs next n answers log (omega (arith, i.1)) q),
    refl,
    (terminated buf (x ∷ xs), length-terminated buf (x ∷ xs) ∙ b, refl),
  )

-- The answers while these files are there and are read in these pieces, all at the same descriptor.
abbrev pub files_answers : ℕ → List (Bytes × List Bytes) → List Answer → List Answer
files_answers fd [] rest = rest
files_answers fd ((name, ps) ∷ fs) rest =
    gives 0 [] ∷ gives fd [] ∷ pieces_answers ps (files_answers fd fs rest)

abbrev pub names : List (Bytes × List Bytes) → List Bytes
names [] = []
names ((name, ps) ∷ fs) = name ∷ names fs

-- The strings in the pieces of all files.
abbrev pub contents : List (Bytes × List Bytes) → Bytes
contents [] = []
contents ((name, ps) ∷ fs) = payload ps ++ contents fs

-- There are rounds for the pieces of the file, and they fit the buffer.
abbrev pub IsReadable : ℕ → Bytes × List Bytes → Type 0
IsReadable fuel f = (length f.1 < fuel) × All IsPiece f.1

-- A file prints its pieces.
print_file-Prints :
    (fd fuel : ℕ) (ps : List Bytes) (name buf : Bytes) (rest : List Answer) (log : List Call)
    → length ps < fuel
    → length buf ≡ bufsiz
    → All IsPiece ps
    → Prints rest log
        (print_file fuel name buf
          (record { answers = gives 0 [] ∷ gives fd [] ∷ pieces_answers ps rest; log = log }))
        (payload ps)
unfolding print_file
print_file-Prints fd fuel ps name buf rest log h b i =
    let first = first_text piece ps in
    let (s, log', run, p, (buf', b', f)) =
      loop-Shows IsPiece piece (print_round (pos fd)) printed (Holds state) c_str rest
        (print_round-leaves (pos fd)) (λ p i. i.1) (print_round-GoesOn (pos fd)) ps i fuel
        (state (read_into buf first) (pos (length first)))
        (read (pos fd) (bufsiz - 1) ∷ open_file name ∷ access name ∷ log) h (buf, b, refl) in
    let short = first_text-short IsPiece piece (λ p i. i.1) ps i in
    (
      s.buffer,
      close (pos fd) ∷ log',
      rw (pieces_answers-item_answers ps rest)
          (rw (take-eq_of_le (bufsiz - 1) first (omega (arith, short))) (rw run)),
      p ∙ ap (λ t. printed log ++ t) (payload-outputs ps),
      rw f b',
    )

run_command_step :
    (fuel : ℕ) (file : Bytes) (files : List Bytes) (buf buf' : Bytes) (w w' : World)
    → print_file fuel file buf w ≡ (returns buf', w')
    → run_command fuel (file ∷ files) buf w ≡ run_command fuel files buf' w'
unfolding run_command
run_command_step fuel file files buf buf' w w' e = rw (e, run_command)

run_command-Prints :
    (fd fuel : ℕ) (fs : List (Bytes × List Bytes)) (buf : Bytes) (rest : List Answer)
    (log : List Call)
    → length buf ≡ bufsiz
    → All (IsReadable fuel) fs
    → Prints rest log
        (run_command
          (suc fuel)
          (names fs)
          buf
          (record { answers = files_answers fd fs rest; log = log }))
        (contents fs)
run_command-Prints fd fuel [] buf rest log b h =
    (buf, log, unfold run_command in refl, sym (append-nil _), b)
run_command-Prints fd fuel ((name, ps) ∷ fs) buf rest log b (h, hs) =
    let (buf₁, log₁, run₁, p₁, l₁) =
      print_file-Prints fd (suc fuel) ps name buf (files_answers fd fs rest) log
        (omega (arith, h.0)) b h.1 in
    let (buf₂, log₂, run₂, p₂, l₂) = run_command-Prints fd fuel fs buf₁ rest log₁ l₁ hs in
    (
      buf₂,
      log₂,
      run_command_step (suc fuel) name (names fs) buf buf₁ _ _ run₁ ∙ run₂,
      p₂ ∙ ap (λ t. t ++ contents fs) p₁ ∙ append_assoc (printed log) (payload ps) (contents fs),
      l₂,
    )

-- The files that are named are printed one after the other, each piece up to its first NUL, and then
-- the program exits with `EXIT_FAILURE`, though nothing has failed.
pub main-printed :
    (fd fuel : ℕ) (name : Bytes) (f : Bytes × List Bytes) (fs : List (Bytes × List Bytes))
    (stack : Bytes) (rest : List Answer)
    → length stack ≡ bufsiz
    → All (IsReadable fuel) (f ∷ fs)
    → let r =
        main (suc fuel) stack (name ∷ names (f ∷ fs)) (start (files_answers fd (f ∷ fs) rest)) in
      (r.0 ≡ stops (exits exit_failure)) × (printed r.1.log ≡ contents (f ∷ fs))
unfolding main
main-printed fd fuel name f fs stack rest b h =
    let (buf, log, run, p, l) = run_command-Prints fd fuel (f ∷ fs) stack rest [] b h in
    let e : (length (name ∷ names (f ∷ fs)) == 1) ≡ false = ground arith in rw e (rw run (refl, p))
