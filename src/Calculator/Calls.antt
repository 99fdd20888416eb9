-- ===== src/Calculator/Calls.antt =====
-- The calls of a client's thread that a log counts.
use osy_materials.Prelude.{
  ℕ, zero, suc, ◌-◌, ◌*◌, ◌/◌, ◌≤◌, ◌≡◌, refl, inl, inr, ℤ, Option, none, some, List, arith, ◌==◌,
  Bool-cases, Option-cases,
}
use osy_materials.Libc.Strings.{Bytes, c_str}
use osy_materials.Libc.Tokens.{strtok}
use osy_materials.Sys.{
  Call, read, sem_wait, sem_post, World, Stop, exits, thread_exits, execs, crashes, waits, runs_on,
}
use osy_materials.Sys.Log.{count_calls}
use osy_materials.Sys.Loop.{Ensures}
use osy_materials.Libc.Numbers.{atoi}
use osy_materials.Calculator.{pick_operator, operators, fits_int, multiply, reply, calculate}

abbrev pub is_wait : Call → ℕ
is_wait sem_wait = 1
is_wait _ = 0

abbrev pub is_post : Call → ℕ
is_post sem_post = 1
is_post _ = 0

abbrev pub is_read : Call → ℕ
is_read (read fd n) = 1
is_read _ = 0

abbrev pub wait_calls : List Call → ℕ
wait_calls = count_calls is_wait

abbrev pub post_calls : List Call → ℕ
post_calls = count_calls is_post

abbrev pub read_calls : List Call → ℕ
read_calls = count_calls is_read

-- Behind the `n`-th message: one wait, and a post for every ten messages before.
abbrev pub AfterMessages : ℕ → List Call → Type 0
AfterMessages zero log = (wait_calls log ≡ 0) × (post_calls log ≡ 0)
AfterMessages (suc n) log = (wait_calls log ≡ 1) × (post_calls log ≡ n / 10)

-- The bounds that hold at any other point.
abbrev pub Bounded : List Call → Type 0
Bounded log = (wait_calls log ≤ 1) × (10 * post_calls log ≤ read_calls log)

-- How a thread ends: after its client has left or a `read` has failed, or elsewhere.
abbrev pub HandlerEnd : Stop → World → Type 0
HandlerEnd thread_exits w = AfterMessages (read_calls w.log - 1) w.log
HandlerEnd (exits n) w = AfterMessages (read_calls w.log - 1) w.log
HandlerEnd (execs argv) w = Bounded w.log
HandlerEnd crashes w = Bounded w.log
HandlerEnd waits w = Bounded w.log
HandlerEnd runs_on w = Bounded w.log

abbrev pub Same : List Call → List Call → Type 0
Same a b =
    (wait_calls b ≡ wait_calls a) × (post_calls b ≡ post_calls a) × (read_calls b ≡ read_calls a)

-- The reply does not touch the semaphore.
multiply-Same :
    (client : ℤ) (buf : Bytes) (w : World)
    → Bounded w.log
    → Ensures
        (λ _ w'. Same w.log w'.log)
        HandlerEnd
        (multiply client buf w).0
        (multiply client buf w).1
unfolding multiply
multiply-Same client buf w h = elim (Option-cases (strtok b'*' (c_str buf))) [
  | inl e ↦ rw (e, multiply) h
  | inr ((a, r), e) ↦ elim (Option-cases (strtok b'*' r)) [
    | inl k ↦ rw (e, multiply) (rw k h)
    | inr ((b, r'), k) ↦
        rw (e, multiply)
          (rw k (elim (Bool-cases (fits_int (atoi a) (atoi b))) [
            | inl f ↦ rw f (omega arith, omega arith, omega arith)
            | inr f ↦ rw f h
          ]))
  ]
]

reply-Same :
    (client : ℤ) (buf : Bytes) (op : Option ℕ) (w : World)
    → Bounded w.log
    → Ensures
        (λ _ w'. Same w.log w'.log)
        HandlerEnd
        (reply client buf op w).0
        (reply client buf op w).1
unfolding reply
reply-Same client buf none w h = (refl, refl, refl)
reply-Same client buf (some op) w h = elim (Bool-cases (op == b'*')) [
  | inl e ↦ rw e (multiply-Same client buf w h)
  | inr e ↦ rw e (refl, refl, refl)
]

pub calculate-Same :
    (client : ℤ) (buf : Bytes) (w : World)
    → Bounded w.log
    → Ensures
        (λ _ w'. Same w.log w'.log)
        HandlerEnd
        (calculate client buf w).0
        (calculate client buf w).1
unfolding calculate
calculate-Same client buf w h = reply-Same client buf (pick_operator operators (c_str buf)) w h
