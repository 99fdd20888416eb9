-- ===== src/Calculator/Clients.antt =====
-- The clients of op_systems/zk1/server.cpp and the semaphore that they share, as steps of the whole
-- server: what the two tests of the counter in `handle_client` do to it.
use osy_materials.Prelude.{
  ℕ, zero, suc, ◌+◌, ◌<◌, ◌≡◌, Option, none, some, List, [], ◌∷◌, ◌++◌, leb, ◌==◌, if◌then◌else◌,
}
use osy_materials.Calculator.{max_clients}

-- The semaphore's value, the number of clients accepted so far, and the counters of the threads that
-- run.
pub record Hub : Type 0 where
  pub sem : ℕ
  pub no_clients : ℕ
  pub counters : List ℕ

-- `sem_init(&mutex, 0, 1)`
abbrev pub initial : Hub
initial = record { sem = 1; no_clients = 0; counters = [] }

-- `sem_wait` goes on only with a positive value.
down : ℕ → Option ℕ
down zero = none
down (suc v) = some v

-- if(!counter) { sem_wait(&mutex); }
wait_first : ℕ → ℕ → Option ℕ
unfolding down
wait_first counter sem = if counter == 0 then down sem else some sem

-- if(counter >= 10) { sem_post(&mutex); counter = 0; } and counter++ behind the reply.
abbrev post_tenth : ℕ → ℕ → ℕ × ℕ
post_tenth counter sem = if leb 10 counter then (1, sem + 1) else (counter + 1, sem)

gate_with : ℕ → Option ℕ → Option (ℕ × ℕ)
gate_with counter none = none
gate_with counter (some sem) = some (post_tenth counter sem)

-- A message to a thread with this counter: the new counter and semaphore, unless the thread waits.
unfoldable pub gate : ℕ → ℕ → Option (ℕ × ℕ)
unfolding wait_first gate_with
gate counter sem = gate_with counter (wait_first counter sem)

-- A client connects while the array has room, a message of one is handled, or one leaves, which posts
-- nothing. A thread that waits may leave too, which the program cannot do: there are more steps here.
pub data Step : Hub → Hub → Type 0 where
  connects :
      {h h' : Hub}
      → h.no_clients < max_clients
      → h' ≡ record h { no_clients = h.no_clients + 1; counters = h.counters ++ 0 ∷ [] }
      → Step h h'
  handles :
      {h h' : Hub} (before later : List ℕ) (c c' sem' : ℕ)
      → h.counters ≡ before ++ c ∷ later
      → gate c h.sem ≡ some (c', sem')
      → h' ≡ record h { sem = sem'; counters = before ++ c' ∷ later }
      → Step h h'
  departs :
      {h h' : Hub} (before later : List ℕ) (c : ℕ)
      → h.counters ≡ before ++ c ∷ later
      → h' ≡ record h { counters = before ++ later }
      → Step h h'

pub data Steps : Hub → Hub → Type 0 where
  stays : {h : Hub} → Steps h h
  goes : {h h' h'' : Hub} → Steps h h' → Step h' h'' → Steps h h''
