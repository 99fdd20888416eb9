-- ===== src/Listing/Directory.antt =====
-- A directory without an order: `readdir` may deliver its entries in any.
use mathlib.Core.Bool.{Bool-discrete}
use mathlib.Core.Quot
use mathlib.Core.Quot.{Quot, Quot-set}
use mathlib.Core.List.{Perm, filter}
use mathlib.Core.List.Perm
use osy_materials.Prelude.{
  ℕ, ◌<◌, ◌≡◌, refl, ap, ◌∙◌, Bool, true, ◌||◌, List, [], ◌∷◌, length, Bool-cases, inl, inr,
}
use osy_materials.Libc.Strings.{Bytes, codes}
use osy_materials.Sys.{gives, returns, exit_success, start, Answer}
use osy_materials.Listing.{main}
use osy_materials.Listing.Looked.{
  entries_answers, looked, has_option, dotted, selected, main-looked,
}

-- The entries of a directory, up to their order.
abbrev pub Entries : Type 0
Entries = Quot (Perm {A = Bytes})

abbrev pub of_list : List Bytes → Entries
of_list = Quot.mk

module _ (all : Bool) (names : List Bytes) where
  -- Whether an entry is to be looked at.
  is_looked : (e : Bytes) → Dec (has_option e names || all ≡ true)
  is_looked e = Bool-discrete (has_option e names || all) true

  selected-filter : (es : List Bytes) → selected all names es ≡ filter is_looked es
  unfolding is_looked
  selected-filter [] = refl
  selected-filter (e ∷ es) = elim (Bool-cases (has_option e names || all)) [
    | inl h ↦ rw h (ap (◌∷◌ e) (selected-filter es))
    | inr h ↦ rw h (selected-filter es)
  ]

  pub selected-Perm :
      (xs ys : List Bytes) → Perm xs ys → Perm (selected all names xs) (selected all names ys)
  selected-Perm xs ys h =
      rw (selected-filter xs) (rw (selected-filter ys) (Perm.filter is_looked h))

  -- The entries of a directory that are to be looked at.
  unfoldable pub listed : Entries → Entries
  listed =
      Quot.lift Quot-set (λ es. of_list (selected all names es))
        λ xs ys h. Quot.sound (selected-Perm xs ys h)

-- Whatever the order in which `readdir` delivers the entries of a directory, the program looks at the
-- same of them, each as often as it is there: those that equal an argument with a '.' in it, or all of
-- them if "-a" is among the arguments.
pub main-listed :
    (fuel n : ℕ) (program name xs : Bytes) (args es : List Bytes) (directory : Entries)
    (rest : List Answer)
    → of_list es ≡ directory
    → length es < fuel
    → let argv = program ∷ name ∷ args in
      let r = main fuel argv (start (gives n xs ∷ entries_answers es rest)) in
      (r.0 ≡ returns exit_success)
      × (of_list (looked r.1.log) ≡ listed (has_option (codes "-a") argv) (dotted argv) directory)
unfolding listed
main-listed fuel n program name xs args es directory rest e h =
    let argv = program ∷ name ∷ args in
    let (ends, looks) = main-looked fuel n program name xs args es rest h in
    (ends, ap of_list looks ∙ ap (listed (has_option (codes "-a") argv) (dotted argv)) e)
