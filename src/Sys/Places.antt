-- ===== src/Sys/Places.antt =====
-- Arrays of so many places for threads.
use osy_materials.Prelude.{ℕ, ◌≤◌, ◌≡◌, List, [], ◌∷◌}
use osy_materials.Sys.{
  Answer, gives, Call, pthread_create, World, Stop, exits, thread_exits, execs, crashes, waits,
  runs_on,
}
use osy_materials.Sys.Log.{count_calls}

abbrev pub is_create : Call → ℕ
is_create (pthread_create n fd) = 1
is_create _ = 0

-- The calls of `pthread_create` that a log shows.
abbrev pub threads : List Call → ℕ
threads = count_calls is_create

-- The answers while an address, a socket and its two calls are fine.
abbrev pub opening_answers : ℕ → List Answer → List Answer
opening_answers server rest = gives 1 [] ∷ gives server [] ∷ gives 0 [] ∷ gives 0 [] ∷ rest

-- The answers while these clients come one after the other, and every thread can be made.
abbrev pub clients_answers : List ℕ → List Answer → List Answer
clients_answers [] rest = rest
clients_answers (fd ∷ fds) rest = gives fd [] ∷ gives 0 [] ∷ clients_answers fds rest

-- An accepting loop ends with a thread in each place at most, and stores behind the array only when
-- there is one in each.
abbrev pub PlacesEnd : ℕ → Stop → World → Type 0
PlacesEnd cap crashes w = threads w.log ≡ cap
PlacesEnd cap (exits n) w = threads w.log ≤ cap
PlacesEnd cap thread_exits w = ⊥
PlacesEnd cap (execs argv) w = ⊥
PlacesEnd cap waits w = threads w.log ≤ cap
PlacesEnd cap runs_on w = threads w.log ≤ cap
