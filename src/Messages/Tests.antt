-- ===== src/Messages/Tests.antt =====
-- Runs of op_systems/server.c and op_systems/client.c, and their theorems at concrete inputs.
use osy_materials.Prelude.{ℕ, ◌+◌, ◌≡◌, refl, ap, List, [], ◌∷◌, length, All, arith}
use osy_materials.Libc.Strings.{Bytes, codes, str_eq, c_str-HasNoNul}
use osy_materials.Sys.{Answer, gives, stops, waits, start, bufsiz}
use osy_materials.Sys.Log.{printed}
use osy_materials.Sys.Loop.{Ensures}
use osy_materials.Messages.Server.{main}
use osy_materials.Messages.Server.Service.{IsWaiting, main-IsWaiting}
use osy_materials.Messages.Server.Printed.{visits_answers, rounds}
use osy_materials.Messages.Delivery.{arrivals, IsText, IsNotExit, client_writes_lem, main-delivered}
use osy_materials.Sys.Stream.{full_reads, cut}

-- A client that says "hi" and "exit", and one that says nothing.
abbrev visits : List Answer
visits =
    gives 3 []
    ∷ gives 0 []
    ∷ gives 4 []
    ∷ gives 2 (codes "hi")
    ∷ gives 4 (codes "exit")
    ∷ gives 5 []
    ∷ gives 0 []
    ∷ gives 6 []
    ∷ []

main-IsWaiting_example :
    Ensures
      (λ _ _. ⊥)
      (λ e _. IsWaiting e)
      (main 9 (codes "server" ∷ codes "8080" ∷ []) (start visits)).0
      (main 9 (codes "server" ∷ codes "8080" ∷ []) (start visits)).1
main-IsWaiting_example = main-IsWaiting 9 (codes "server") (codes "8080") visits (omega arith)

abbrev arrive : Bytes → List Bytes
arrive = arrivals full_reads 3 (codes "client") (codes "127.0.0.1") (codes "8080")

hi-IsText : IsText (codes "hi")
hi-IsText = (c_str-HasNoNul (codes "hi"), omega arith)

you-IsText : IsText (codes "you")
you-IsText = (c_str-HasNoNul (codes "you"), omega arith)

arrives : (text : Bytes) → IsText text → arrive text ≡ full_reads.deliver text
arrives text t =
    ap full_reads.deliver
      (client_writes_lem 3 (codes "client") (codes "127.0.0.1") (codes "8080") text t)

hi-IsNotExit : All IsNotExit (full_reads.deliver (codes "hi"))
unfolding full_reads cut bufsiz str_eq
hi-IsNotExit = (refl, tt)

you-IsNotExit : All IsNotExit (full_reads.deliver (codes "you"))
unfolding full_reads cut bufsiz str_eq
you-IsNotExit = (refl, tt)

-- Two clients, one of which says "hi" and the other "you".
abbrev enough : ℕ
enough = length (arrive (codes "hi")) + (1 + rounds (arrive (codes "you") ∷ []))

main-delivered_example :
    let r = main enough (codes "server" ∷ codes "8080" ∷ []) (
      start (
        gives 3 []
        ∷ gives 0 []
        ∷ visits_answers 4 (arrive (codes "hi") ∷ arrive (codes "you") ∷ []))) in
    (r.0 ≡ stops waits) × (printed r.1.log ≡ codes "hiyou")
main-delivered_example =
    main-delivered full_reads 3 (codes "client") (codes "127.0.0.1") (codes "8080") enough 3 4
      (codes "server") (codes "8080") (codes "hi") (codes "you" ∷ []) (hi-IsText, (you-IsText, tt))
      (
        rw (arrives (codes "hi") hi-IsText) hi-IsNotExit,
        (rw (arrives (codes "you") you-IsText) you-IsNotExit, tt),
      )
      (omega arith)
