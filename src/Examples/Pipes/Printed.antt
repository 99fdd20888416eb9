-- ===== src/Examples/Pipes/Printed.antt =====
-- What comes out of the pipes.
use osy_materials.Prelude.{
  ℕ, suc, ◌+◌, ◌≤◌, ◌≡◌, refl, pos, true, List, [], ◌∷◌, length, replicate, length-replicate,
  take-eq_of_le, arith, ltb, lt→ltb,
}
use osy_materials.Libc.Strings.{
  Bytes, codes, HasNoNul, read_into, length-read_into, c_str-terminated, c_str-replicate,
}
use osy_materials.Sys.{
  Answer, gives, returns, stops, exits, exit_success, start, bufsiz, bufsiz_room,
}
use osy_materials.Sys.Log.{output, printed, same_fd_self}
use osy_materials.Examples.Pipes.{
  end_data, read_data, by_fork, by_pipe, forked_main, print_output, by_popen, popen_main,
}

-- popen.c prints what the command has written, up to `BUFSIZ` bytes of it, without a NUL stored behind
-- them, and exits with success.
pub popen_main-printed :
    (p n : ℕ) (xs out : Bytes) (answers : List Answer)
    → HasNoNul out
    → length out ≤ bufsiz
    → let r = popen_main (start (gives p xs ∷ gives n out ∷ answers)) in
      (r.0 ≡ stops (exits exit_success)) × (printed r.1.log ≡ out)
unfolding popen_main by_popen print_output
popen_main-printed p n xs [] answers z h =
    rw (take-eq_of_le {A = ℕ} bufsiz [] (omega arith)) (refl, refl)
popen_main-printed p n xs (x ∷ out) answers z h =
    rw (take-eq_of_le bufsiz (x ∷ out) h)
      (refl, c_str-replicate (bufsiz + 1) (x ∷ out) z (omega arith))

-- The two sides of the fork in pipeF.cpp, for a pipe with these ends: what the parent writes is what
-- the child prints when it reads it, and both end with success.
pub forked_main-sent :
    (k r w n m pid : ℕ) (xs ys zs : Bytes)
    → let p = gives k (r ∷ w ∷ []) in
      let parent = forked_main (start (p ∷ gives (suc pid) xs ∷ gives n ys ∷ [])) in
      let child = forked_main (start (p ∷ gives 0 zs ∷ gives m (output (pos w) parent) ∷ [])) in
      (parent.0 ≡ returns exit_success)
      × (child.0 ≡ stops (exits exit_success))
      × (printed child.1.log ≡ output (pos w) parent)
      × (output (pos w) parent ≡ codes "ahoj bro")
unfolding forked_main by_pipe by_fork read_data end_data
forked_main-sent k r w n m pid xs ys zs =
    let buf : Bytes = replicate (bufsiz + 1) 0 in
    let l : length buf ≡ bufsiz + 1 = length-replicate (bufsiz + 1) 0 in
    let room : ltb 8 (length (read_into buf (codes "ahoj bro"))) ≡ true =
      lt→ltb _ _ (omega (arith, l, bufsiz_room, length-read_into buf (codes "ahoj bro"))) in
    rw (same_fd_self (pos w)) (
      rw (take-eq_of_le bufsiz (codes "ahoj bro") (omega (arith, bufsiz_room))) (
        rw room (
          refl,
          refl,
          c_str-terminated buf (codes "ahoj bro") (omega (arith, l, bufsiz_room)),
          refl,
        )))
