-- ===== src/Messages/Client/Sent.antt =====
-- What the client of op_systems/client.c sends.
use osy_materials.Prelude.{ℕ, ◌≡◌, refl, ◌<◌, ℤ, List, ◌∷◌, ◌++◌, length, take-eq_of_le, arith}
use osy_materials.Libc.Strings.{Bytes, HasNoNul, c_str-replicate}
use osy_materials.Sys.{Answer, gives, Call, World, returns, exit_success}
use osy_materials.Sys.Log.{written, output, for_fd}
use osy_materials.Messages.Client.{send_message}

-- A message without NUL bytes that leaves room in the buffer goes to the server as it is, nothing is
-- written elsewhere, and the program succeeds.
pub send_message-output :
    (fd sock_fd : ℤ) (n : ℕ) (text : Bytes) (answers : List Answer) (log : List Call)
    → HasNoNul text
    → length text < 1024
    → let w : World = record { answers = gives n text ∷ answers; log = log } in
      ((send_message sock_fd w).0 ≡ returns exit_success)
      × (output fd (send_message sock_fd w) ≡ written fd log ++ for_fd fd sock_fd text)
unfolding send_message
send_message-output fd sock_fd n text answers log z h =
    rw (take-eq_of_le 1023 text (omega arith)) (rw (c_str-replicate 1024 text z h) (refl, refl))
