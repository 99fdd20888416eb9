-- ===== src/Interpreter/Pipeline.antt =====
-- A pipeline refines the composition of its programs.
use osy_materials.Prelude.{
  ℕ, zero, suc, ◌+◌, ◌-◌, ◌<◌, ◌≡◌, refl, sym, ap, ◌∙◌, pos, some, none, false, List, [], ◌∷◌, ◌++◌,
  length, replicate, length-replicate, take-eq_of_le, arith, append_assoc, append-nil, ◌==◌, inl,
  inr,
}
use osy_materials.Libc.Strings.{
  Bytes, c_str, HasNoNul, read_into, zero_fill, length-read_into, length-zero_fill, c_str-zero_fill,
  c_str-replicate, c_str-zeros,
}
use osy_materials.Libc.Tokens.{strtok, words, strtok_cases}
use osy_materials.Sys.{
  Answer, gives, Call, write, read, close, pipe, fork, wait, print, print_str, World, returns,
}
use osy_materials.Interpreter.{
  handle_command, handle_command_read, run_stages, interpret, piping_size, bar,
}

-- The specification: each command reads what the one before it has written.
abbrev pub pipeline : (Bytes → Bytes → Bytes) → List Bytes → Bytes → Bytes
pipeline f [] input = input
pipeline f (c ∷ cs) input = pipeline f cs (f c input)

-- The kernel's answers while the children compute `f`: two pipes and a write where the command is not
-- the first.
abbrev stage_answers : ℕ → Bytes → List Answer → List Answer
stage_answers zero out rest = gives 0 (3 ∷ 4 ∷ []) ∷ gives 9 [] ∷ gives (length out) out ∷ rest
stage_answers (suc k) out rest =
    gives 0 (3 ∷ 4 ∷ [])
    ∷ gives 0 (5 ∷ 6 ∷ [])
    ∷ gives 9 []
    ∷ gives 0 []
    ∷ gives (length out) out
    ∷ rest

abbrev pub pipeline_answers :
    (Bytes → Bytes → Bytes) → ℕ → List Bytes → Bytes → List Answer → List Answer
pipeline_answers f k [] input rest = rest
pipeline_answers f k (c ∷ cs) input rest =
    stage_answers k (f c input) (pipeline_answers f 1 cs (f c input) rest)

-- What the shell moves through the pipes: the output of the first command from its pipe; to every
-- other command the output before it, into the first of its pipes, and its output from the second.
abbrev pub fed : (Bytes → Bytes → Bytes) → ℕ → List Bytes → Bytes → List Call
fed f k [] input = []
fed f zero (c ∷ cs) input = read (pos 3) (piping_size - 1) ∷ fed f 1 cs (f c input)
fed f (suc k) (c ∷ cs) input =
    write (pos 4) input ∷ read (pos 5) (piping_size - 1) ∷ fed f 1 cs (f c input)

-- The calls of `read` and `write` that a log shows, in order.
abbrev pub transfers : List Call → List Call
transfers [] = []
transfers (write fd xs ∷ log) = transfers log ++ write fd xs ∷ []
transfers (read fd count ∷ log) = transfers log ++ read fd count ∷ []
transfers (_ ∷ log) = transfers log

-- An output that is a string and leaves room in the buffer.
abbrev pub IsText : Bytes → Type 0
IsText out = HasNoNul out × (length out + 1 < piping_size)

abbrev pub AllText : (Bytes → Bytes → Bytes) → List Bytes → Bytes → Type 0
AllText f [] input = Unit
AllText f (c ∷ cs) input = IsText (f c input) × AllText f cs (f c input)

-- What the parent logs for a stage, the latest call first.
abbrev first_log : List Call → List Call
first_log log =
    print "Child exit\n"
    ∷ close (pos 3)
    ∷ wait
    ∷ read (pos 3) (piping_size - 1)
    ∷ close (pos 4)
    ∷ fork
    ∷ pipe
    ∷ log

abbrev later_log : Bytes → List Call → List Call
later_log input log =
    print "Child from piping exited\n"
    ∷ close (pos 5)
    ∷ wait
    ∷ read (pos 5) (piping_size - 1)
    ∷ close (pos 4)
    ∷ write (pos 4) input
    ∷ close (pos 6)
    ∷ close (pos 3)
    ∷ fork
    ∷ pipe
    ∷ pipe
    ∷ log

first_stage :
    (stale c buf out : Bytes) (rest : List Answer) (log : List Call)
    → IsText out
    → handle_command stale c buf (record { answers = stage_answers 0 out rest; log = log })
      ≡ (returns (read_into buf out), record { answers = rest; log = first_log log })
unfolding handle_command
first_stage stale c buf out rest log t = rw (take-eq_of_le (piping_size - 1) out (omega arith))

later_stage :
    (c buf out : Bytes) (rest : List Answer) (log : List Call)
    → IsText out
    → handle_command_read c buf (record { answers = stage_answers 1 out rest; log = log }) ≡ (
      returns (read_into (zero_fill (piping_size - 1) buf) out),
      record { answers = rest; log = later_log (c_str buf) log },
    )
unfolding handle_command_read
later_stage c buf out rest log t = rw (take-eq_of_le (piping_size - 1) out (omega arith))

module _ (f : Bytes → Bytes → Bytes) (stale : Bytes) (rest : List Answer) where
  -- The stages for the string `s` end with the pipeline's output in the buffer.
  abbrev Computes : ℕ → ℕ → ℕ → Bytes → Bytes → Bytes → List Call → Type 0
  Computes fuel j k s buf input log =
      (b : Bytes) × (log' : List Call) × (run_stages fuel stale j s buf
          (record { answers = pipeline_answers f k (words bar s) input rest; log = log })
        ≡ (returns b, record { answers = rest; log = log' }))
      × (c_str b ≡ pipeline f (words bar s) input)
      × (transfers log' ≡ transfers log ++ fed f k (words bar s) input)

  first_step :
      (fuel : ℕ) (s c s' buf out : Bytes) (rest' : List Answer) (log : List Call)
      → strtok bar s ≡ some (c, s')
      → IsText out
      → run_stages
          (suc fuel)
          stale
          0
          s
          buf
          (record { answers = stage_answers 0 out rest'; log = log })
        ≡ run_stages fuel stale 1 s'
            (read_into buf out)
            (record { answers = rest'; log = first_log log })
  unfolding run_stages
  first_step fuel s c s' buf out rest' log r t =
      rw (r, run_stages) (rw (first_stage stale c buf out rest' log t))

  later_step :
      (fuel j : ℕ) (s c s' buf out : Bytes) (rest' : List Answer) (log : List Call)
      → strtok bar s ≡ some (c, s')
      → (j == 0) ≡ false
      → IsText out
      → run_stages
          (suc fuel)
          stale
          j
          s
          buf
          (record { answers = stage_answers 1 out rest'; log = log })
        ≡ run_stages fuel stale
            (j + 1)
            s'
            (read_into (zero_fill (piping_size - 1) buf) out)
            (record { answers = rest'; log = later_log (c_str buf) log })
  unfolding run_stages
  later_step fuel j s c s' buf out rest' log r z t =
      rw (r, run_stages) (rw z (rw (later_stage c buf out rest' log t)))

  no_stage :
      (fuel j : ℕ) (s buf : Bytes) (w : World)
      → strtok bar s ≡ none
      → run_stages (suc fuel) stale j s buf w ≡ (returns buf, w)
  unfolding run_stages
  no_stage fuel j s buf w r = rw (r, run_stages)

  fed_cons :
      (buf input : Bytes) (log calls : List Call)
      → c_str buf ≡ input
      → transfers (later_log (c_str buf) log) ++ calls
        ≡ transfers log ++ write (pos 4) input ∷ read (pos 5) (piping_size - 1) ∷ calls
  fed_cons buf input log calls e =
      append_assoc (transfers log ++ write (pos 4) (c_str buf) ∷ [])
        (read (pos 5) (piping_size - 1) ∷ []) calls
      ∙ append_assoc (transfers log) (write (pos 4) (c_str buf) ∷ [])
          (read (pos 5) (piping_size - 1) ∷ calls)
      ∙ ap (λ t. transfers log ++ write (pos 4) t ∷ read (pos 5) (piping_size - 1) ∷ calls) e

  later_stages :
      (fuel j : ℕ) (s buf input : Bytes) (log : List Call)
      → length s < fuel
      → (j == 0) ≡ false
      → c_str buf ≡ input
      → length buf ≡ piping_size
      → AllText f (words bar s) input
      → Computes fuel j 1 s buf input log
  later_stages zero j s buf input log h z e l t = absurd (omega arith)
  later_stages (suc fuel) j s buf input log h z e l t = elim (strtok_cases bar s) [
    | inl (r, w) ↦ rw w (buf, log, no_stage fuel j s buf _ r, e, sym (append-nil _))
    | inr (c, s', cut) ↦ rw cut.others (
        let t' : AllText f (c ∷ words bar s') input = rw cut.others at t in
        let next : Bytes = zero_fill (piping_size - 1) buf in
        let (b, log', run, out, sent) =
          later_stages fuel (j + 1) s' (read_into next (f c input)) (f c input)
            (later_log (c_str buf) log) (omega (arith, cut.shorter)) (ground arith)
            (c_str-zero_fill (piping_size - 1) buf (f c input) t'.0.0 (omega arith) (omega arith))
            (length-read_into next (f c input) ∙ length-zero_fill (piping_size - 1) buf ∙ l) t'.1 in
        (
          b,
          log',
          later_step fuel j s c s' buf (f c input) _ log cut.result z t'.0 ∙ run,
          out,
          sent ∙ fed_cons buf input log (fed f 1 (words bar s') (f c input)) e,
        ))
  ]

  -- With more rounds than bytes, the stages of a line leave the pipeline's output in a buffer that
  -- was all zero.
  all_stages :
      (fuel : ℕ) (s : Bytes) (log : List Call)
      → length s < fuel
      → AllText f (words bar s) []
      → Computes fuel 0 0 s (replicate piping_size 0) [] log
  all_stages zero s log h t = absurd (omega arith)
  all_stages (suc fuel) s log h t = elim (strtok_cases bar s) [
    | inl (r, w) ↦ rw w (
      replicate piping_size 0,
      log,
      no_stage fuel 0 s _ _ r,
      c_str-zeros piping_size,
      sym (append-nil _),
    )
    | inr (c, s', cut) ↦ rw cut.others (
        let t' : AllText f (c ∷ words bar s') [] = rw cut.others at t in
        let zeros : Bytes = replicate piping_size 0 in
        let (b, log', run, out, sent) =
          later_stages fuel 1 s' (read_into zeros (f c [])) (f c []) (first_log log)
            (omega (arith, cut.shorter)) refl
            (c_str-replicate piping_size (f c []) t'.0.0 (omega arith))
            (length-read_into zeros (f c []) ∙ length-replicate piping_size 0) t'.1 in
        (
          b,
          log',
          first_step fuel s c s' zeros (f c []) _ log cut.result t'.0 ∙ run,
          out,
          sent ∙ append_assoc (transfers log) (read (pos 3) (piping_size - 1) ∷ []) _,
        ))
  ]

-- While the children compute `f`, with texts that leave room in the buffer, a line prints what the
-- composition of its commands yields. The output of the first command is read from its pipe; for each
-- other command the output before it is written to the first of its two pipes and its own is read from
-- the second; nothing else is read or written, and the shell takes one answer for each call. The
-- kernel numbers the ends of the first pipe 3 and 4, and those of the second 5 and 6.
pub interpret-pipeline :
    (f : Bytes → Bytes → Bytes) (stale line : Bytes) (rest : List Answer)
    → AllText f (words bar line) []
    → (log' : List Call) × (interpret stale line
          (record { answers = pipeline_answers f 0 (words bar line) [] rest; log = [] })
        ≡ (
          returns tt,
          record { answers = rest; log = print_str "%s" (pipeline f (words bar line) []) ∷ log' },
        ))
      × (transfers log' ≡ fed f 0 (words bar line) [])
unfolding interpret
interpret-pipeline f stale line rest t =
    let (b, log', run, out, sent) =
      all_stages f stale rest (suc (length line)) line [] (omega arith) t in
    (log', rw run (rw out), sent)
