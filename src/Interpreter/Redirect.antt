-- ===== src/Interpreter/Redirect.antt =====
-- What the scan of a command with a '>' stores.
use osy_materials.Prelude.{
  ℕ, zero, suc, ◌<◌, ◌≤◌, ◌≡◌, sym, true, false, Option, none, List, [], ◌∷◌, ◌++◌, ltb,
  if◌then◌else◌, length, length-append, arith, append-nil, append_assoc, inl, inr, Bool-cases,
}
use osy_materials.Libc.Strings.{Bytes, codes, str_eq}
use osy_materials.Libc.Tokens.{words, strtok_cases}
use osy_materials.Interpreter.{
  Redirection, end_args, name_file, scan_redirect, split_redirect, max_command_len, space,
}

-- The words in front of the first ">", and those behind it.
abbrev pub before_mark : List Bytes → List Bytes
before_mark [] = []
before_mark (w ∷ ws) = if str_eq w (codes ">") then [] else w ∷ before_mark ws

abbrev pub behind_mark : List Bytes → List Bytes
behind_mark [] = []
behind_mark (w ∷ ws) = if str_eq w (codes ">") then ws else behind_mark ws

-- The file is the first word behind the mark; what follows it is dropped.
abbrev pub redirected : List Bytes → List Bytes → Option Redirection
redirected args [] = end_args args none
redirected args (name ∷ ws) = name_file args name

scan_marked :
    (fuel : ℕ) (s : Bytes) (args : List Bytes)
    → length s < fuel
    → scan_redirect fuel s args true ≡ redirected args (words space s)
unfolding scan_redirect
scan_marked zero s args h = absurd (omega arith)
scan_marked (suc fuel) s args h = elim (strtok_cases space s) [
  | inl (e, w) ↦ rw (e, scan_redirect) (rw w)
  | inr (t, rest, cut) ↦ rw (cut.result, scan_redirect) (rw cut.others)
]

redirected_full : (args ws : List Bytes) → max_command_len ≤ length args → redirected args ws ≡ none
redirected_full args [] h = ground arith
redirected_full args (name ∷ ws) h = ground arith

-- The test before a word is stored is implied by the one at the end.
full_guard :
    (args : List Bytes) (t : Bytes) (xs ws : List Bytes)
    → (if ltb (length args) max_command_len then redirected (args ++ t ∷ xs) ws else none)
      ≡ redirected (args ++ t ∷ xs) ws
full_guard args t xs ws = elim (Bool-cases (ltb (length args) max_command_len)) [
  | inl room ↦ rw room
  | inr full ↦
      rw full
        (sym (redirected_full (args ++ t ∷ xs) ws (ground (arith, length-append args (t ∷ xs)))))
]

scan-words :
    (fuel : ℕ) (s : Bytes) (args : List Bytes)
    → length s < fuel
    → scan_redirect fuel s args false
      ≡ redirected (args ++ before_mark (words space s)) (behind_mark (words space s))
unfolding scan_redirect
scan-words zero s args h = absurd (omega arith)
scan-words (suc fuel) s args h = elim (strtok_cases space s) [
  | inl (e, w) ↦ rw (e, scan_redirect) (rw w (rw append-nil))
  | inr (t, rest, cut) ↦ elim (Bool-cases (str_eq t (codes ">"))) [
    | inl mark ↦
        rw (cut.result, scan_redirect)
          (rw cut.others
            (rw mark (rw append-nil (scan_marked fuel rest args (omega (arith, cut.shorter))))))
    | inr plain ↦
        rw (cut.result, scan_redirect)
          (rw cut.others (
            rw plain (
              rw (scan-words fuel rest (args ++ t ∷ []) (omega (arith, cut.shorter))) (
                rw append_assoc (
                  full_guard args t (before_mark (words space rest))
                    (behind_mark (words space rest)))))))
  ]
]

-- The command is the words in front of the first ">", the file is the first word behind it, and there
-- is room exactly for fewer words than the array has places and for a file name that fits with its NUL.
pub split_redirect-words :
    (command : Bytes)
    → split_redirect command
      ≡ redirected (before_mark (words space command)) (behind_mark (words space command))
unfolding split_redirect
split_redirect-words command = scan-words (suc (length command)) command [] (omega arith)
