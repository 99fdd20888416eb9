-- ===== src/Cnt/Tests.antt =====
-- Runs of op_systems/cv1/cnt2.cpp, and its theorems at concrete inputs.
use osy_materials.Prelude.{◌%◌, ◌^◌, List, [], ◌∷◌, length, length-replicate, replicate, arith, All}
use osy_materials.Libc.Strings.{Bytes, codes, HasNoNul}
use osy_materials.Sys.{bufsiz, bufsiz_room}
use osy_materials.Sys.Log.{IsPiece, pieces_answers}
use osy_materials.Cnt.{count_chars, count_words, count_lines}
use osy_materials.Cnt.Counts.{
  Counts, concat, no_words, count_chars-length, count_words-words, count_lines-reads,
}

-- A word that two reads share, and no line's end.
abbrev pieces : List Bytes
pieces = codes "a b" ∷ codes "c" ∷ []

abbrev zeros : Bytes
zeros = replicate bufsiz 0

pieces-IsPiece : All IsPiece pieces
pieces-IsPiece =
    ((omega arith, omega (arith, bufsiz_room)), ((omega arith, omega (arith, bufsiz_room)), tt))

pieces-HasNoNul : All HasNoNul pieces
pieces-HasNoNul = ((omega arith, (omega arith, (omega arith, tt))), ((omega arith, tt), tt))

count_chars-length_example :
    Counts []
      (count_chars 4 zeros (record { answers = pieces_answers pieces []; log = [] }))
      (length (concat pieces) % 2 ^ 32)
count_chars-length_example =
    count_chars-length [] pieces 3 zeros [] (omega arith) (length-replicate bufsiz 0) pieces-IsPiece
      pieces-HasNoNul

count_words-words_example :
    Counts []
      (count_words 4 zeros (record { answers = pieces_answers pieces []; log = [] }))
      (no_words pieces % 2 ^ 32)
count_words-words_example =
    count_words-words [] pieces 3 zeros [] (omega arith) (length-replicate bufsiz 0) pieces-IsPiece
      pieces-HasNoNul

count_lines-reads_example :
    Counts []
      (count_lines 4 zeros (record { answers = pieces_answers pieces []; log = [] }))
      (length pieces % 2 ^ 32)
count_lines-reads_example =
    count_lines-reads [] pieces 3 zeros [] (omega arith) (length-replicate bufsiz 0) pieces-IsPiece
