-- ===== src/Sys/Keeps.antt =====
-- What holds of every run of a program: of each call that it makes, of the way it stops and of the
-- value that it returns. There is a rule for each construct, and `search keeps_rules` goes through
-- the `do` blocks.
use osy_materials.Prelude.{
  ℕ, zero, suc, ℤ, Bool, true, false, Option, none, some, List, [], ◌∷◌, All, String, if◌then◌else◌,
  ltb, length, Bool-cases, inl, inr,
}
use osy_materials.Libc.Strings.{Bytes}
use osy_materials.Argv.{split_args-words, parse_args}
use osy_materials.Libc.Tokens.{words}
use osy_materials.Sys.{
  Answer, fail, gives, Call, read, warn, warn_errno, execvp, World, Outcome, returns, stops, Stop,
  exits, execs, crashes, waits, runs_on, Sys, continue, pure, stop, act, ask, ask_int, ask_read,
  ◌>>=◌, ◌>>◌, store, arg, not_null, first, give_up, give_up_if, give_up_errno_if, exec_argv,
  exec_result, exit_failure,
}
use osy_materials.Sys.Loop.{Round, again, leave, loop, after_round, Ensures}

-- A round that leaves its loop only with such a state.
abbrev pub Leaves : {S : Type 0} → (S → Type 0) → Round S → Type 0
Leaves Q (again s) = Unit {0}
Leaves Q (leave s) = Q s

module _ (P : Call → Type 0) (E : Stop → Type 0) where
  -- From a log of calls with `P`, a run ends with such a log, and with `Q` of its value or with `E`
  -- of the way that it stops.
  pub record Obeys {A : Type 0} (Q : A → Type 0) (m : Sys A) : Type 0 where
    pub at :
        (w : World)
        → All P w.log
        → Ensures (λ a w'. Q a × All P w'.log) (λ e w'. E e × All P w'.log) (m w).0 (m w).1

  abbrev pub Keeps : {A : Type 0} → Sys A → Type 0
  Keeps = Obeys (λ _. Unit {0})

  -- It never comes back.
  abbrev pub NeverReturns : {A : Type 0} → Sys A → Type 0
  NeverReturns = Obeys (λ _. ⊥)

  pub Obeys-pure : {A : Type 0} (Q : A → Type 0) (a : A) → Q a → Obeys Q (pure a)
  Obeys-pure Q a q = record { at = λ w h. (q, h) }

  pub Obeys-stop : {A : Type 0} (Q : A → Type 0) (e : Stop) → E e → Obeys Q (stop e)
  Obeys-stop Q e p = record { at = λ w h. (p, h) }

  continued :
      {A B : Type 0} (Q : B → Type 0) (f : A → Sys B) (r : Outcome A) (w : World)
      → ((a : A) → Obeys Q (f a))
      → Ensures (λ a w'. Unit {0} × All P w'.log) (λ e w'. E e × All P w'.log) r w
      → Ensures
          (λ b w'. Q b × All P w'.log)
          (λ e w'. E e × All P w'.log)
          (continue r f w).0
          (continue r f w).1
  continued Q f (returns a) w k h = (k a).at w h.1
  continued Q f (stops e) w k h = h

  pub Obeys-bind :
      {A B : Type 0} (Q : B → Type 0) (m : Sys A) (f : A → Sys B)
      → Keeps m
      → ((a : A) → Obeys Q (f a))
      → Obeys Q (m >>= f)
  Obeys-bind Q m f k l = record { at = λ w h. continued Q f (m w).0 (m w).1 l (k.at w h) }

  pub Obeys-then :
      {A B : Type 0} (Q : B → Type 0) (m : Sys A) (n : Sys B)
      → Keeps m
      → Obeys Q n
      → Obeys Q (m >> n)
  Obeys-then Q m n k l = Obeys-bind Q m (λ _. n) k (λ _. l)

  pub Obeys-if :
      {A : Type 0} (Q : A → Type 0) (b : Bool) (m n : Sys A)
      → Obeys Q m
      → Obeys Q n
      → Obeys Q (if b then m else n)
  Obeys-if Q true m n k l = k
  Obeys-if Q false m n k l = l

  pub Keeps-act : (c : Call) → P c → Keeps (act c)
  Keeps-act c p = record { at = λ w h. (tt, (p, h)) }

  pub Keeps-ask : (c : Call) → P c → E waits → Keeps (ask c)
  Keeps-ask c p e = record { at = λ w h. asked w.answers w.log h }
    where
      asked :
          (answers : List Answer) (log : List Call)
          → All P log
          → let r = ask c (record { answers = answers; log = log }) in
            Ensures (λ a w'. Unit {0} × All P w'.log) (λ e w'. E e × All P w'.log) r.0 r.1
      asked [] log h = (e, (p, h))
      asked (a ∷ answers) log h = (tt, (p, h))

  pub Keeps-ask_int : (c : Call) → P c → E waits → Keeps (ask_int c)
  Keeps-ask_int c p e = Obeys-bind _ (ask c) _ (Keeps-ask c p e) (λ a. Obeys-pure _ _ tt)

  pub Keeps-ask_read :
      (fd : ℤ) (count : ℕ) (buf : Bytes)
      → P (read fd count)
      → E waits
      → Keeps (ask_read fd count buf)
  Keeps-ask_read fd count buf p e =
      Obeys-bind _ (ask (read fd count)) _ (Keeps-ask (read fd count) p e) (λ a. Obeys-pure _ _ tt)

  pub Keeps-store : (buf : Bytes) (i b : ℕ) → E crashes → Keeps (store buf i b)
  Keeps-store buf i b e = record {
    at = λ w h. elim (Bool-cases (ltb i (length buf))) [
      | inl t ↦ rw t (tt, h)
      | inr t ↦ rw t (e, h)
    ];
  }

  pub Keeps-not_null : {A : Type 0} (o : Option A) → E crashes → Keeps (not_null o)
  Keeps-not_null none e = Obeys-stop _ crashes e
  Keeps-not_null (some a) e = Obeys-pure _ a tt

  pub Keeps-arg : (argv : List Bytes) (i : ℕ) → E crashes → Keeps (arg argv i)
  Keeps-arg [] i e = Obeys-stop _ crashes e
  Keeps-arg (s ∷ argv) zero e = Obeys-pure _ s tt
  Keeps-arg (s ∷ argv) (suc i) e = record { at = λ w h. (Keeps-arg argv i e).at w h }

  pub Keeps-first : (argv : List Bytes) → E crashes → Keeps (first argv)
  Keeps-first [] e = Obeys-stop _ crashes e
  Keeps-first (s ∷ argv) e = Obeys-pure _ s tt

  pub Obeys-give_up :
      {A : Type 0} (Q : A → Type 0) (text : String)
      → P (warn text)
      → E (exits exit_failure)
      → Obeys Q (give_up text)
  Obeys-give_up Q text p e = record { at = λ w h. (e, (p, h)) }

  pub Keeps-give_up_if :
      (bad : Bool) (text : String)
      → P (warn text)
      → E (exits exit_failure)
      → Keeps (give_up_if bad text)
  Keeps-give_up_if bad text p e = Obeys-if _ bad _ _ (Obeys-give_up _ text p e) (Obeys-pure _ tt tt)

  pub Keeps-give_up_errno_if :
      (bad : Bool) → P warn_errno → E (exits exit_failure) → Keeps (give_up_errno_if bad)
  Keeps-give_up_errno_if bad p e =
      Obeys-if _ bad _ _ (record { at = λ w h. (e, (p, h)) }) (Obeys-pure _ tt tt)

  Keeps-exec_result : (argv : List Bytes) (a : Answer) → E (execs argv) → Keeps (exec_result argv a)
  Keeps-exec_result argv fail x = Obeys-pure _ tt tt
  Keeps-exec_result argv (gives n xs) x = Obeys-stop _ (execs argv) x

  pub Keeps-exec_argv :
      (argv : List Bytes)
      → P (execvp argv)
      → E (execs argv)
      → E crashes
      → E waits
      → Keeps (exec_argv argv)
  Keeps-exec_argv [] p x c e = Obeys-stop _ crashes c
  Keeps-exec_argv (s ∷ argv) p x c e =
      Obeys-bind _ (ask (execvp (s ∷ argv))) _ (Keeps-ask (execvp (s ∷ argv)) p e)
        (λ a. Keeps-exec_result (s ∷ argv) a x)

  pub Keeps-parse_args : (cap d : ℕ) (s : Bytes) → E crashes → Keeps (parse_args cap d s)
  unfolding parse_args
  Keeps-parse_args cap d s e = rw (split_args-words cap d s) (record {
    at = λ w h. elim (Bool-cases (ltb (length (words d s)) cap)) [
      | inl t ↦ rw t (tt, h)
      | inr t ↦ rw t (e, h)
    ];
  })

  Obeys-mono :
      {A : Type 0} (Q R : A → Type 0) (m : Sys A) → ((a : A) → Q a → R a) → Obeys Q m → Obeys R m
  Obeys-mono {A} Q R m f k = record { at = λ w h. weaker (m w).0 (m w).1 (k.at w h) }
    where
      weaker :
          (r : Outcome A) (w : World)
          → Ensures (λ a w'. Q a × All P w'.log) (λ e w'. E e × All P w'.log) r w
          → Ensures (λ a w'. R a × All P w'.log) (λ e w'. E e × All P w'.log) r w
      weaker (returns a) w h = (f a h.0, h.1)
      weaker (stops e) w h = h

  module _ {S : Type 0} (Q : S → Type 0) where
    rounds :
        (rest : S → Sys S) (r : Outcome (Round S)) (w : World)
        → ((s : S) → Obeys Q (rest s))
        → Ensures (λ a w'. Leaves Q a × All P w'.log) (λ e w'. E e × All P w'.log) r w
        → Ensures
            (λ s w'. Q s × All P w'.log)
            (λ e w'. E e × All P w'.log)
            (after_round rest r w).0
            (after_round rest r w).1
    rounds rest (returns (again s)) w k h = (k s).at w h.1
    rounds rest (returns (leave s)) w k h = h
    rounds rest (stops e) w k h = h

    pub Obeys-loop :
        (fuel : ℕ) (body : S → Sys (Round S)) (s : S)
        → E runs_on
        → ((s : S) → Obeys (Leaves Q) (body s))
        → Obeys Q (loop fuel body s)
    unfolding loop
    Obeys-loop zero body s e k = record { at = λ w h. (e, h) }
    Obeys-loop (suc fuel) body s e k = record {
      at = λ w h.
          rounds (loop fuel body) (body s w).0 (body s w).1 (λ s. Obeys-loop fuel body s e k)
            ((k s).at w h);
    }

-- The rules for `search`.
pub ruleset keeps_rules = (
  Obeys-pure, Obeys-stop, Obeys-bind, Obeys-then, Obeys-if, Keeps-act, Keeps-ask, Keeps-ask_int,
  Keeps-ask_read, Keeps-store, Keeps-not_null, Keeps-arg, Keeps-first, Obeys-give_up,
  Keeps-give_up_if, Keeps-give_up_errno_if, Keeps-exec_argv, Keeps-parse_args,
)
