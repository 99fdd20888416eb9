-- ===== src/Web/Request.antt =====
-- Which program a request runs.
use osy_materials.Prelude.{
  ℕ, ◌<◌, ◌≡◌, refl, List, [], ◌∷◌, ◌++◌, true, Option, none, some, ltb, lt→ltb, length, arith,
}
use osy_materials.Libc.Strings.{Bytes}
use osy_materials.Libc.Tokens.{strtok, strtok-append, IsToken, Lacks, words, length-words}
use osy_materials.Argv.{split_args-words, parse_args}
use osy_materials.Sys.{Answer, fail, gives, Call, print_str, returns, stops, Ends, ◌>>◌}
use osy_materials.Interpreter.Child.{child_end}
use osy_materials.Web.Command.{command_len, behind, show_words, run_words, warn_if_empty, run_child}

behind-append : (d : ℕ) (s t : Bytes) → Lacks d s → behind d (s ++ d ∷ t) ≡ some t
unfolding behind
behind-append d [] t h = ground arith
behind-append d (c ∷ s) t h = rw h.0 (behind-append d s t h.1)

-- What the words leave in the log.
abbrev words_log : List Bytes → List Call → List Call
words_log [] log = log
words_log (t ∷ ts) log = words_log ts (print_str "%s\n" t ∷ log)

show_words_lem :
    (ts : List Bytes) (answers : List Answer) (log : List Call)
    → show_words ts (record { answers = answers; log = log })
      ≡ (returns tt, record { answers = answers; log = words_log ts log })
unfolding show_words
show_words_lem [] answers log = refl
show_words_lem (t ∷ ts) answers log = show_words_lem ts answers _

run_words_lem :
    (ends : Ends) (ws : List Bytes) (a : Answer) (answers : List Answer) (log : List Call)
    → (run_words ends ws (record { answers = a ∷ answers; log = log })).0 ≡ stops (child_end ws a)
unfolding run_words
run_words_lem ends [] a answers log = refl
run_words_lem ends (w ∷ ws) fail answers log = rw (show_words_lem (w ∷ ws) (fail ∷ answers) log)
run_words_lem ends (w ∷ ws) (gives n xs) answers log =
    rw (show_words_lem (w ∷ ws) (gives n xs ∷ answers) log)

-- What is printed where there is no word does not change how the child ends.
warned_run_lem :
    (token : Option (Bytes × Bytes)) (ends : Ends) (ws : List Bytes) (a : Answer)
    (answers : List Answer) (log : List Call)
    → ((warn_if_empty token >> run_words ends ws) (record { answers = a ∷ answers; log = log })).0
      ≡ stops (child_end ws a)
unfolding warn_if_empty
warned_run_lem none ends ws a answers log = run_words_lem ends ws a answers _
warned_run_lem (some t) ends ws a answers log = run_words_lem ends ws a answers log

-- The child of a request "METHOD DIRECTORY/COMMAND ..." becomes the program of the words between the
-- '*' of its command, if the command has less than 511 bytes: then they fit the array of 256.
pub run_child-command :
    (ends : Ends) (method directory command rest : Bytes) (a : Answer) (answers : List Answer)
    (log : List Call)
    → IsToken b' ' method
    → IsToken b' ' (directory ++ b'/' ∷ command)
    → Lacks b'/' directory
    → length command < 511
    → let header = method ++ b' ' ∷ ((directory ++ b'/' ∷ command) ++ b' ' ∷ rest) in
      (run_child ends header (record { answers = a ∷ answers; log = log })).0
      ≡ stops (child_end (words b'*' command) a)
unfolding run_child parse_args
run_child-command ends method directory command rest a answers log m p d h =
    let room : ltb (length (words b'*' command)) command_len ≡ true =
      lt→ltb _ _ (omega (arith, length-words b'*' command)) in
    let path = directory ++ b'/' ∷ command in
    rw (strtok-append b' ' method (path ++ b' ' ∷ rest) m) (
      rw (strtok-append b' ' path rest p) (
        rw (behind-append b'/' directory command d) (
          rw (split_args-words command_len b'*' command) (
            rw room (warned_run_lem (strtok b'*' command) ends (words b'*' command) a answers _)))))
