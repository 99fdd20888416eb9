-- ===== src/Graphics/Phases.antt =====
-- The order that the libraries ask for in their documentation: GLFW's functions between `glfwInit` and
-- `glfwTerminate`, its hints before the window, a current context before the functions are loaded, and
-- OpenGL's functions only when they are loaded.
use osy_materials.Prelude.{
  ℕ, ◌≡◌, refl, ap, ◌∙◌, Option, none, some, List, [], ◌∷◌, Bool, true, false, if◌then◌else◌,
}
use osy_materials.Sys.{
  Answer, Call, graphics, World, Outcome, returns, stops, Sys, continue, pure, act, ask, ◌>>=◌,
  ◌>>◌,
}
use osy_materials.Sys.Loop.{Round, again, leave, loop, Ensures, RoundEnd, loop_inv}
use osy_materials.Graphics.Calls.{
  GlCall, glfw_init, glfw_terminate, glfw_poll_events, glfw_window_hint, glfw_create_window,
  glfw_destroy_window, glfw_make_context_current, glfw_set_framebuffer_size_callback,
  glfw_get_framebuffer_size, glfw_window_should_close, glfw_set_window_should_close, glfw_get_key,
  glad_load_gl_loader, glew_init,
}

pub data Phase : Type 0 where
  unstarted started windowed current loaded terminated : Phase

-- What a call asks for: to start or to end the library, a started library, no window yet, a window, a
-- current context, or loaded functions.
pub data Kind : Type 0 where
  starts ends hints makes_window uses_window makes_current loads draws : Kind

abbrev pub kind_of : GlCall → Kind
kind_of glfw_init = starts
kind_of glfw_terminate = ends
kind_of (glfw_window_hint hint value) = hints
kind_of (glfw_create_window width height title) = makes_window
kind_of (glfw_make_context_current window) = makes_current
kind_of (glfw_set_framebuffer_size_callback window) = uses_window
kind_of (glfw_get_framebuffer_size window) = uses_window
kind_of (glfw_window_should_close window) = uses_window
kind_of (glfw_set_window_should_close window value) = uses_window
kind_of (glfw_get_key window key) = uses_window
kind_of (glfw_destroy_window window) = uses_window
kind_of glfw_poll_events = uses_window
kind_of glad_load_gl_loader = loads
kind_of glew_init = loads
kind_of _ = draws

abbrev pub move : Kind → Phase → Option Phase
move starts unstarted = some started
move hints started = some started
move makes_window started = some windowed
move makes_current windowed = some current
move uses_window windowed = some windowed
move uses_window current = some current
move uses_window loaded = some loaded
move loads current = some loaded
move draws loaded = some loaded
move ends started = some terminated
move ends windowed = some terminated
move ends current = some terminated
move ends loaded = some terminated
move _ _ = none

-- The phase behind a call; none if the call must not be made.
abbrev pub advance : Call → Phase → Option Phase
advance (graphics c) p = move (kind_of c) p
advance _ p = some p

abbrev pub then_advance : Call → Option Phase → Option Phase
then_advance c none = none
then_advance c (some p) = advance c p

-- The phase behind all calls of a log, the latest call first.
abbrev pub phase : List Call → Option Phase
phase [] = some unstarted
phase (c ∷ log) = then_advance c (phase log)

-- No call of the log has come out of order.
abbrev pub InOrder : List Call → Type 0
InOrder log = (p : Phase) × (phase log ≡ some p)

-- From such a phase a run makes no call out of order, and it is in a phase with `Q` when it returns.
pub record Moves {A : Type 0} (p : Phase) (Q : A → Phase → Type 0) (m : Sys A) : Type 0 where
  pub at :
      (w : World)
      → phase w.log ≡ some p
      → Ensures
          (λ a w'. (q : Phase) × (phase w'.log ≡ some q) × Q a q)
          (λ e w'. InOrder w'.log)
          (m w).0
          (m w).1

-- It returns in the phase `q`.
abbrev pub To : {A : Type 0} → Phase → A → Phase → Type 0
To q a p = p ≡ q

abbrev pub Stays : {A : Type 0} → Phase → Sys A → Type 0
Stays p = Moves p (To p)

pub Moves-pure :
    {A : Type 0} (p : Phase) (Q : A → Phase → Type 0) (a : A) → Q a p → Moves p Q (pure a)
Moves-pure p Q a h = record { at = λ w e. (p, e, h) }

pub Moves-act : (p q : Phase) (c : Call) → advance c p ≡ some q → Moves p (To q) (act c)
Moves-act p q c h = record { at = λ w e. (q, rw e h, refl) }

pub Moves-ask : (p q : Phase) (c : Call) → advance c p ≡ some q → Moves p (To q) (ask c)
Moves-ask p q c h = record { at = λ w e. asked w.answers w.log e }
  where
    asked :
        (answers : List Answer) (log : List Call)
        → phase log ≡ some p
        → let r = ask c (record { answers = answers; log = log }) in
          Ensures
            (λ a w'. (q' : Phase) × (phase w'.log ≡ some q') × (q' ≡ q))
            (λ e w'. InOrder w'.log)
            r.0
            r.1
    asked [] log e = (q, rw e h)
    asked (a ∷ answers) log e = (q, rw e h, refl)

continued :
    {A B : Type 0} (q : Phase) (Q : B → Phase → Type 0) (f : A → Sys B) (r : Outcome A) (w : World)
    → ((a : A) → Moves q Q (f a))
    → Ensures
        (λ a w'. (q' : Phase) × (phase w'.log ≡ some q') × (q' ≡ q))
        (λ e w'. InOrder w'.log)
        r
        w
    → Ensures
        (λ b w'. (q' : Phase) × (phase w'.log ≡ some q') × Q b q')
        (λ e w'. InOrder w'.log)
        (continue r f w).0
        (continue r f w).1
continued q Q f (returns a) w k h = (k a).at w (h.1 ∙ ap some h.2)
continued q Q f (stops e) w k h = h

pub Moves-bind :
    {A B : Type 0} (p q : Phase) (Q : B → Phase → Type 0) (m : Sys A) (f : A → Sys B)
    → Moves p (To q) m
    → ((a : A) → Moves q Q (f a))
    → Moves p Q (m >>= f)
Moves-bind p q Q m f k l = record { at = λ w e. continued q Q f (m w).0 (m w).1 l (k.at w e) }

pub Moves-then :
    {A B : Type 0} (p q : Phase) (Q : B → Phase → Type 0) (m : Sys A) (n : Sys B)
    → Moves p (To q) m
    → Moves q Q n
    → Moves p Q (m >> n)
Moves-then p q Q m n k l = Moves-bind p q Q m (λ _. n) k (λ _. l)

pub Moves-if :
    {A : Type 0} (p : Phase) (Q : A → Phase → Type 0) (b : Bool) (m n : Sys A)
    → Moves p Q m
    → Moves p Q n
    → Moves p Q (if b then m else n)
Moves-if p Q true m n k l = k
Moves-if p Q false m n k l = l

at_round :
    {S : Type 0} (p : Phase) (r : Outcome (Round S)) (w : World)
    → Ensures
        (λ a w'. (q' : Phase) × (phase w'.log ≡ some q') × (q' ≡ p))
        (λ e w'. InOrder w'.log)
        r
        w
    → Ensures
        (RoundEnd
          (λ s w'. phase w'.log ≡ some p)
          (λ s w'. (q' : Phase) × (phase w'.log ≡ some q') × (q' ≡ p)))
        (λ e w'. InOrder w'.log)
        r
        w
at_round p (returns (again s)) w h = h.1 ∙ ap some h.2
at_round p (returns (leave s)) w h = h
at_round p (stops e) w h = h

pub Stays-loop :
    {S : Type 0} (p : Phase) (fuel : ℕ) (body : S → Sys (Round S)) (s : S)
    → ((s : S) → Stays p (body s))
    → Stays p (loop fuel body s)
Stays-loop p fuel body s k = record {
  at = λ w e.
      loop_inv (λ s w'. phase w'.log ≡ some p)
        (λ s w'. (q' : Phase) × (phase w'.log ≡ some q') × (q' ≡ p)) (λ e w'. InOrder w'.log) body
        (λ s w' h. at_round p (body s w').0 (body s w').1 ((k s).at w' h)) (λ s w' h. (p, h)) fuel s
        w e;
}

module _ (p : Phase) where
  pub Stays-act : (c : Call) → advance c p ≡ some p → Stays p (act c)
  Stays-act c h = Moves-act p p c h

  pub Stays-ask : (c : Call) → advance c p ≡ some p → Stays p (ask c)
  Stays-ask c h = Moves-ask p p c h

  pub Stays-bind :
      {A B : Type 0} (Q : B → Phase → Type 0) (m : Sys A) (f : A → Sys B)
      → Stays p m
      → ((a : A) → Moves p Q (f a))
      → Moves p Q (m >>= f)
  Stays-bind Q m f = Moves-bind p p Q m f

  pub Stays-then :
      {A B : Type 0} (Q : B → Phase → Type 0) (m : Sys A) (n : Sys B)
      → Stays p m
      → Moves p Q n
      → Moves p Q (m >> n)
  Stays-then Q m n = Moves-then p p Q m n

-- For the runs that stay in one phase.
pub ruleset stay_rules = (Moves-pure, Stays-act, Stays-ask, Stays-bind, Moves-if)
