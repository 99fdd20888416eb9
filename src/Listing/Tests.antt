-- ===== src/Listing/Tests.antt =====
-- Runs of op_systems/ls2.cpp, and its theorem at a concrete input.
use osy_materials.Prelude.{◌≡◌, refl, List, [], ◌∷◌, arith}
use osy_materials.Libc.Strings.{Bytes, codes}
use osy_materials.Sys.{gives, returns, exit_success, start}
use osy_materials.Listing.{main}
use osy_materials.Listing.Directory.{of_list, listed, main-listed}
use osy_materials.Listing.Looked.{
  entries_answers, looked, has_option, dotted, selected, main-looked,
}

abbrev arguments : List Bytes
arguments = codes "ls2" ∷ codes "a.c" ∷ codes "b" ∷ []

abbrev entries : List Bytes
entries = codes "." ∷ codes "b" ∷ codes "a.c" ∷ []

main-looked_example :
    ((main 4 arguments (start (gives 3 [] ∷ entries_answers entries []))).0 ≡ returns exit_success)
    × (looked (main 4 arguments (start (gives 3 [] ∷ entries_answers entries []))).1.log
        ≡ selected (has_option (codes "-a") arguments) (dotted arguments) entries)
main-looked_example =
    main-looked 4 3 (codes "ls2") (codes "a.c") [] (codes "b" ∷ []) entries [] (omega arith)

main-listed_example :
    ((main 4 arguments (start (gives 3 [] ∷ entries_answers entries []))).0 ≡ returns exit_success)
    × (of_list (looked (main 4 arguments (start (gives 3 [] ∷ entries_answers entries []))).1.log)
        ≡ listed (has_option (codes "-a") arguments) (dotted arguments) (of_list entries))
main-listed_example =
    main-listed 4 3 (codes "ls2") (codes "a.c") [] (codes "b" ∷ []) entries (of_list entries) []
      refl (omega arith)
