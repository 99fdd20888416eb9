-- ===== src/Chat/Broadcast.antt =====
-- Who gets a message.
use osy_materials.Prelude.{
  ℕ, zero, suc, ◌≤◌, ◌≡◌, refl, sym, ap, ◌∙◌, ℤ, List, [], ◌∷◌, ◌++◌, take, length, arith,
  append-nil, append_assoc, if◌then◌else◌, Bool-cases, inl, inr,
}
use osy_materials.Libc.Strings.{Bytes, c_str}
use osy_materials.Sys.{Answer, Call, write, World, returns}
use osy_materials.Sys.Log.{written, output, same_fd, for_fd}
use osy_materials.Chat.{SockDesc, broad_to, broad_cast}

-- What arrives at `fd` when a message goes to these descriptors but for one.
abbrev pub delivered : ℤ → ℤ → List ℤ → Bytes → Bytes
delivered fd excluded [] message = []
delivered fd excluded (d ∷ ds) message =
    (if same_fd d excluded then [] else for_fd fd d (c_str message))
    ++ delivered fd excluded ds message

-- The loop over the descriptors comes to its end inside the array.
module _ (fd active : ℤ) where
  pub broad_to_lem :
      (n : ℕ) (fds : List ℤ) (message : Bytes) (answers : List Answer) (log : List Call)
      → n ≤ length fds
      → (log' : List Call) × (broad_to n fds active message
            (record { answers = answers; log = log })
          ≡ (returns tt, record { answers = answers; log = log' }))
        × (written fd log' ≡ written fd log ++ delivered fd active (take n fds) message)
  unfolding broad_to
  broad_to_lem zero fds message answers log h = (log, refl, sym (append-nil _))
  broad_to_lem (suc n) [] message answers log h = absurd (omega arith)
  broad_to_lem (suc n) (d ∷ ds) message answers log h = elim (Bool-cases (same_fd d active)) [
    | inl e ↦ rw e (broad_to_lem n ds message answers log (omega arith))
    | inr e ↦ rw e (
        let (log', run, out) =
          broad_to_lem n ds message answers (write d (c_str message) ∷ log) (omega arith) in
        (log', run, out ∙ append_assoc (written fd log) _ _))
  ]

-- A message goes once to each of the clients but the one that sent it, and nowhere else, while their
-- number stays within the array.
pub broad_cast-output :
    (fd excluded : ℤ) (descs : SockDesc) (message : Bytes) (w : World)
    → descs.current_num ≤ length descs.fds
    → ((broad_cast descs excluded message w).0 ≡ returns tt)
      × (output fd (broad_cast descs excluded message w)
          ≡ written fd w.log ++ delivered fd excluded (take descs.current_num descs.fds) message)
unfolding broad_cast
broad_cast-output fd excluded descs message w h =
    let (log', run, out) =
      broad_to_lem fd excluded descs.current_num descs.fds message w.answers w.log h in
    (ap (λ t. t.0) run, ap (output fd) run ∙ out)
