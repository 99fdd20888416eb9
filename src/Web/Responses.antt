-- ===== src/Web/Responses.antt =====
-- What the server sends.
use osy_materials.Prelude.{◌≡◌, ℤ, Option, some, All}
use osy_materials.Libc.Strings.{Bytes, c_str}
use osy_materials.Sys.{Call, write, World, Sys}
use osy_materials.Sys.Keeps.{Keeps}

-- A response: a string that the `sprintf` has made, written to the client.
abbrev pub IsResponse : (Bytes → Bytes → Option Bytes) → ℤ → Call → Type 0
IsResponse formatted client (write fd text) =
    (host : Bytes) × (output : Bytes) × (response : Bytes) × (formatted host output ≡ some response)
    × (fd ≡ client)
    × (text ≡ c_str response)
IsResponse formatted client _ = Unit {0}

-- Everything that a process has written is a response.
abbrev pub Responses : (Bytes → Bytes → Option Bytes) → ℤ → World → Type 0
Responses formatted client w = All (IsResponse formatted client) w.log

module _ (formatted : Bytes → Bytes → Option Bytes) (client : ℤ) where
  abbrev Sends : {A : Type 0} → Sys A → Type 0
  Sends = Keeps (IsResponse formatted client) (λ _. Unit {0})
