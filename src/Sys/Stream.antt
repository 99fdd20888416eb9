-- ===== src/Sys/Stream.antt =====
-- The stream between two processes, as the documentation of stream sockets promises it: `read`
-- delivers every byte that was written, in order, in pieces that need not be those of the writes.
use osy_materials.Prelude.{
  ℕ, zero, suc, ◌-◌, ◌≤◌, ◌≡◌, refl, ap, ◌∙◌, arith, List, [], ◌∷◌, ◌++◌, length, take, drop,
  length-take, length-drop, append-take-drop, All,
}
use osy_materials.Libc.Strings.{Bytes}
use osy_materials.Sys.{bufsiz, bufsiz_room}
use osy_materials.Sys.Log.{joined, IsPiece}

-- A kernel that cuts what was written into the pieces that reads of at most `BUFSIZ - 1` bytes deliver.
pub record Stream : Type 0 where
  pub deliver : Bytes → List Bytes
  pub delivers_all : (xs : Bytes) → joined (deliver xs) ≡ xs
  pub fits : (xs : Bytes) → All IsPiece (deliver xs)

-- Reads that take as much as they may.
unfoldable pub cut : ℕ → ℕ → Bytes → List Bytes
cut zero n xs = []
cut (suc fuel) n [] = []
cut (suc fuel) n (x ∷ xs) = take n (x ∷ xs) ∷ cut fuel n (drop n (x ∷ xs))

pub joined-cut : (fuel n : ℕ) (xs : Bytes) → 1 ≤ n → length xs ≤ fuel → joined (cut fuel n xs) ≡ xs
unfolding cut
joined-cut zero n [] p h = refl
joined-cut zero n (x ∷ xs) p h = absurd (omega arith)
joined-cut (suc fuel) n [] p h = refl
joined-cut (suc fuel) n (x ∷ xs) p h =
    ap (λ t. take n (x ∷ xs) ++ t)
      (joined-cut fuel n (drop n (x ∷ xs)) p (omega (arith, h, p, length-drop n (x ∷ xs))))
    ∙ append-take-drop n (x ∷ xs)

pub cut-IsPiece : (fuel n : ℕ) (xs : Bytes) → 1 ≤ n → suc n ≤ bufsiz → All IsPiece (cut fuel n xs)
unfolding cut
cut-IsPiece zero n xs p h = tt
cut-IsPiece (suc fuel) n [] p h = tt
cut-IsPiece (suc fuel) n (x ∷ xs) p h =
    let l = length-take n (x ∷ xs) in
    ((omega (arith, l, p), omega (arith, l, h)), cut-IsPiece fuel n (drop n (x ∷ xs)) p h)

unfoldable pub full_reads : Stream
full_reads = record {
  deliver = λ xs. cut (length xs) (bufsiz - 1) xs;
  delivers_all =
      λ xs. joined-cut (length xs) (bufsiz - 1) xs (omega (arith, bufsiz_room)) (omega arith);
  fits = λ xs.
      cut-IsPiece (length xs) (bufsiz - 1) xs (omega (arith, bufsiz_room))
        (omega (arith, bufsiz_room));
}
