-- ===== src/Calculator/Tests.antt =====
-- Runs of op_systems/zk1/server.cpp, and its theorems at concrete inputs.
use osy_materials.Prelude.{◌+◌, ◌-◌, ◌^◌, ◌≡◌, refl, pos, List, [], ◌∷◌, replicate, arith, none}
use osy_materials.Libc.Strings.{codes}
use osy_materials.Libc.Numbers.{decimal, decimal_int}
use osy_materials.Sys.{Answer, gives, start, bufsiz}
use osy_materials.Sys.Pieces.{outputs}
use osy_materials.Sys.Loop.{Ensures}
use osy_materials.Calculator.{handle_client}
use osy_materials.Calculator.Session.{Factors, product}
use osy_materials.Calculator.Calls.{HandlerEnd}
use osy_materials.Calculator.Semaphore.{handle_client-semaphore}
use osy_materials.Calculator.Clients.{initial, gate, Step, Steps, stays}
use osy_materials.Calculator.Exclusion.{
  IsStarved, served, gone, short_visit-IsStarved, many_clients-Steps,
}

-- Two products, one of them of -1 and 2.
abbrev first_factors : Factors
first_factors = record { left = 12; right = 3 }

abbrev more_factors : List Factors
more_factors = record { left = 2 ^ 32 - 1; right = 2 } ∷ []

products_test : outputs product (first_factors ∷ more_factors) ≡ codes "36-2"
unfolding decimal_int decimal
products_test = refl

-- Two messages, and the client leaves.
abbrev visit : List Answer
visit = gives 3 (codes "2*3") ∷ gives 0 [] ∷ gives 3 (codes "4*5") ∷ gives 0 [] ∷ []

handle_client-semaphore_example :
    Ensures
      (λ _ _. ⊥)
      HandlerEnd
      (handle_client 4 (replicate (bufsiz + 1) 0) (pos 4) (start visit)).0
      (handle_client 4 (replicate (bufsiz + 1) 0) (pos 4) (start visit)).1
handle_client-semaphore_example = handle_client-semaphore 4 (replicate (bufsiz + 1) 0) (pos 4) visit

short_visit-IsStarved_example : Steps initial (served 3) × Steps (served 3) gone × IsStarved gone
short_visit-IsStarved_example = short_visit-IsStarved 3 gone (omega arith) (omega arith) stays

many_clients-Steps_example :
    Steps initial (record { sem = 1; no_clients = 2; counters = 1 ∷ 1 ∷ [] })
    × Steps
        (record { sem = 1; no_clients = 2; counters = 1 ∷ 1 ∷ [] })
        (record { sem = 0; no_clients = 3; counters = 1 ∷ 1 ∷ 4 ∷ [] })
    × (gate 0 0 ≡ none)
    × Step
        (record { sem = 0; no_clients = 3; counters = 1 ∷ 1 ∷ 10 ∷ [] })
        (record { sem = 1; no_clients = 3; counters = 1 ∷ 1 ∷ 1 ∷ [] })
many_clients-Steps_example = many_clients-Steps 2 3 (omega arith) (omega arith)
