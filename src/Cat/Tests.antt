-- ===== src/Cat/Tests.antt =====
-- Runs of op_systems/cv1/cat2.cpp, and its theorem at a concrete input.
use osy_materials.Prelude.{◌≡◌, List, [], ◌∷◌, length-replicate, replicate, arith}
use osy_materials.Libc.Strings.{Bytes, codes}
use osy_materials.Sys.{stops, exits, exit_failure, bufsiz, bufsiz_room, start}
use osy_materials.Sys.Log.{printed}
use osy_materials.Cat.{main}
use osy_materials.Cat.Printed.{files_answers, names, contents, main-printed}

abbrev zeros : Bytes
zeros = replicate bufsiz 0

-- A file that is read in two pieces, and an empty one.
abbrev files : List (Bytes × List Bytes)
files = (codes "one", codes "ab" ∷ codes "c" ∷ []) ∷ (codes "two", []) ∷ []

main-printed_example :
    ((main 4 zeros (codes "cat" ∷ names files) (start (files_answers 3 files []))).0
      ≡ stops (exits exit_failure))
    × (printed (main 4 zeros (codes "cat" ∷ names files) (start (files_answers 3 files []))).1.log
        ≡ contents files)
main-printed_example =
    main-printed 3 3 (codes "cat") (codes "one", codes "ab" ∷ codes "c" ∷ [])
      ((codes "two", []) ∷ []) zeros [] (length-replicate bufsiz 0)
      (
        (
          omega arith,
          (
            (omega arith, omega (arith, bufsiz_room)),
            ((omega arith, omega (arith, bufsiz_room)), tt),
          ),
        ),
        ((omega arith, tt), tt),
      )
