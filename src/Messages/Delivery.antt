-- ===== src/Messages/Delivery.antt =====
-- The messages of clients on their way to the server, over any stream.
use osy_materials.Prelude.{
  ℕ, ◌+◌, ◌<◌, ◌≤◌, ◌≡◌, refl, sym, ap, ◌∙◌, pos, false, List, [], ◌∷◌, ◌++◌, length, length-append,
  arith, All, subst, map, if◌then◌else◌,
}
use osy_materials.Libc.Strings.{Bytes, codes, c_str, str_eq, HasNoNul}
use osy_materials.Sys.{gives, stops, waits, start}
use osy_materials.Sys.Stream.{Stream}
use osy_materials.Sys.Log.{printed, payload, output, joined, payload-joined, IsPiece, same_fd_self}
use osy_materials.Messages.Server
use osy_materials.Messages.Server.{buffer_len}
use osy_materials.Messages.Server.Printed.{
  IsMessage, visits_answers, all_messages, rounds, payload-append, main-printed,
}
use osy_materials.Messages.Client.{main}
use osy_materials.Messages.Client.Sent.{send_message-output}

-- A text that a user can send.
abbrev pub IsText : Bytes → Type 0
IsText text = HasNoNul text × (length text < buffer_len)

-- The word that ends a visit.
abbrev pub IsNotExit : Bytes → Type 0
IsNotExit m = str_eq (c_str m) (codes "exit") ≡ false

module _ (fd : ℕ) (argv : List Bytes) where
  -- What a run of the client writes to the server, when its user types this text.
  abbrev pub client_writes : Bytes → Bytes
  client_writes text =
      output (pos fd)
        (main argv (start (gives 1 [] ∷ gives fd [] ∷ gives 0 [] ∷ gives (length text) text ∷ [])))

pub client_writes_lem :
    (fd : ℕ) (name ip port text : Bytes)
    → IsText text
    → client_writes fd (name ∷ ip ∷ port ∷ []) text ≡ text
unfolding main
client_writes_lem fd name ip port text (z, h) =
    (send_message-output (pos fd) (pos fd) (length text) text [] _ z h).1
    ∙ ap (λ t. if t then text else []) (same_fd_self (pos fd))

-- Pieces of a text that fits the buffer fit it too.
pieces-IsMessage :
    (ps : List Bytes)
    → length (joined ps) < buffer_len
    → All IsPiece ps
    → All IsNotExit ps
    → All IsMessage ps
pieces-IsMessage [] h i e = tt
pieces-IsMessage (p ∷ ps) h i e =
    let l = length-append p (joined ps) in
    ((i.0.0, omega (arith, l, h), e.0), pieces-IsMessage ps (omega (arith, l, h)) i.1 e.1)

module _ (tcp : Stream) (fd : ℕ) (name ip port : Bytes) where
  -- The messages that the server reads of a client whose user types this text.
  abbrev pub arrivals : Bytes → List Bytes
  arrivals text = tcp.deliver (client_writes fd (name ∷ ip ∷ port ∷ []) text)

  arrived : (text : Bytes) → IsText text → joined (arrivals text) ≡ text
  arrived text t = tcp.delivers_all _ ∙ client_writes_lem fd name ip port text t

  arrivals-IsMessage :
      (text : Bytes) → IsText text → All IsNotExit (arrivals text) → All IsMessage (arrivals text)
  arrivals-IsMessage text t e =
      pieces-IsMessage (arrivals text) (rw (arrived text t) t.1) (tcp.fits _) e

  all-IsMessage :
      (texts : List Bytes)
      → All IsText texts
      → All (λ text. All IsNotExit (arrivals text)) texts
      → All (All IsMessage) (map arrivals texts)
  all-IsMessage [] t e = tt
  all-IsMessage (text ∷ texts) t e = (arrivals-IsMessage text t.0 e.0, all-IsMessage texts t.1 e.1)

  payload-arrivals :
      (texts : List Bytes)
      → All IsText texts
      → payload (all_messages (map arrivals texts)) ≡ joined texts
  payload-arrivals [] t = refl
  payload-arrivals (text ∷ texts) t =
      payload-append (arrivals text) (all_messages (map arrivals texts))
      ∙ ap (λ p. p ++ payload (all_messages (map arrivals texts)))
          (payload-joined (arrivals text) (subst HasNoNul (sym (arrived text t.0)) t.0.0)
            ∙ arrived text t.0)
      ∙ ap (◌++◌ text) (payload-arrivals texts t.1)

  -- The texts of users, each with a client of its own, arrive at the server however the stream cuts
  -- them: it prints them in order and whole, and waits for another client. Every text has no NUL and
  -- fits the buffer, and no piece of it is the word that ends a visit.
  pub main-delivered :
      (fuel server client : ℕ) (program server_port text : Bytes) (texts : List Bytes)
      → All IsText (text ∷ texts)
      → All (λ t. All IsNotExit (arrivals t)) (text ∷ texts)
      → length (arrivals text) + (1 + rounds (map arrivals texts)) ≤ fuel
      → let r = Server.main fuel (program ∷ server_port ∷ []) (
          start
            (gives server [] ∷ gives 0 [] ∷ visits_answers client (map arrivals (text ∷ texts)))) in
        (r.0 ≡ stops waits) × (printed r.1.log ≡ joined (text ∷ texts))
  main-delivered fuel server client program server_port text texts t e h =
      let (stopped, prints) =
        main-printed fuel server client program server_port (arrivals text) (map arrivals texts) h
          (arrivals-IsMessage text t.0 e.0) (all-IsMessage texts t.1 e.1) in
      (stopped, prints ∙ payload-arrivals (text ∷ texts) t)
