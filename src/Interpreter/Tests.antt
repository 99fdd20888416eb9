-- ===== src/Interpreter/Tests.antt =====
-- Runs of op_systems/shellInterpreter/interpreter.cpp, and its theorems at concrete inputs.
use osy_materials.Prelude.{◌≡◌, refl, List, [], ◌∷◌, ◌++◌, length, arith, ltb, if◌then◌else◌}
use osy_materials.Libc.Strings.{Bytes, codes, contains}
use osy_materials.Libc.Tokens.{words}
use osy_materials.Sys.{gives, Call, print_str, crashes, returns, stops, start}
use osy_materials.Interpreter.{
  handle_command, interpret, split_redirect, space, bar, max_command_len, piping_room,
}
use osy_materials.Interpreter.Redirect.{split_redirect-words, before_mark, behind_mark, redirected}
use osy_materials.Interpreter.Child.{child_end, handle_command-plain}
use osy_materials.Interpreter.Pipeline.{
  pipeline, pipeline_answers, fed, transfers, interpret-pipeline,
}

split_redirect-words_example :
    split_redirect (codes "ls -l > files.txt more")
    ≡ redirected
        (before_mark (words space (codes "ls -l > files.txt more")))
        (behind_mark (words space (codes "ls -l > files.txt more")))
split_redirect-words_example = split_redirect-words (codes "ls -l > files.txt more")

handle_command-plain_example :
    (handle_command []
      (codes "ls -l")
      []
      (start (gives 0 (3 ∷ 4 ∷ []) ∷ gives 0 [] ∷ gives 0 [] ∷ []))).0
    ≡ stops (
        if ltb (length (words space (codes "ls -l"))) max_command_len
        then child_end (words space (codes "ls -l")) (gives 0 [])
        else crashes)
unfolding contains
handle_command-plain_example =
    handle_command-plain [] (codes "ls -l") [] (3 ∷ 4 ∷ []) [] 0 (gives 0 []) [] [] refl

-- Children that copy their input and append their command.
abbrev appending : Bytes → Bytes → Bytes
appending c input = input ++ c

interpret-pipeline_example :
    (log' : List Call) × (interpret [] (codes "ab|c") (record {
      answers = pipeline_answers appending 0 (words bar (codes "ab|c")) [] [];
      log = [];
    })
      ≡ (
        returns tt,
        record {
          answers = [];
          log = print_str "%s" (pipeline appending (words bar (codes "ab|c")) []) ∷ log';
        },
      ))
    × (transfers log' ≡ fed appending 0 (words bar (codes "ab|c")) [])
unfolding words
interpret-pipeline_example = interpret-pipeline appending [] (codes "ab|c") [] (
  ((omega arith, (omega arith, tt)), omega (arith, piping_room)),
  (((omega arith, (omega arith, (omega arith, tt))), omega (arith, piping_room)), tt),
)
