-- ===== src/Protocol/Machine.antt =====
-- The application as its host and its user see it: a machine that waits for a command, or for the
-- answer to a question. Its state has no buffers.
use ledger_sovereign.Base.{
  ℕ, ◌/◌, ◌%◌, ◌^◌, ◌-◌, Option, none, some, List, [], ◌∷◌, ◌++◌, ◌==◌, if◌then◌else◌,
}
use ledger_sovereign.Codes.{cla}
use ledger_sovereign.Codes.Code
use ledger_sovereign.Platform.{Platform}
use ledger_sovereign.Crypto.Signing.{signature_of}
use ledger_sovereign.Device.{Moment}
use ledger_sovereign.Codes.Wire.{status}
use ledger_sovereign.Apdu.Upload.{Upload}
use ledger_sovereign.Protocol.{Verdict, reply, ask_address, ask_sign, answer}

-- A command comes in, or less than the header of one; or a button is pressed.
pub data Event : Type 0 where
  command : Moment → (class ins p1 p2 l : ℕ) (payload : List ℕ) → Event
  fragment : Moment → (class : ℕ) (rest : List ℕ) → Event
  approve reject : Moment → Event

-- Every state has the upload that the next command finds.
pub data State : Type 0 where
  waiting : Upload → State
  asking_address : Upload → List ℕ → State
  asking_sign : Upload → List ℕ → List ℕ → State

-- The two bytes of the status word for a code.
abbrev pub code_bytes : ℕ → List ℕ
code_bytes e = status e / 2 ^ 8 % 2 ^ 8 ∷ status e % 2 ^ 8 ∷ []

-- What is sent to the host at once, and the state afterwards.
abbrev pub settle : Upload × Verdict → Option (List ℕ) × State
settle (u, reply bytes e) = (some (bytes ++ code_bytes e), waiting u)
settle (u, ask_address path shown) = (none, asking_address u shown)
settle (u, ask_sign path message) = (none, asking_sign u path message)

-- The reply to an approved message.
abbrev pub signed_reply : Option (List ℕ) → List ℕ
signed_reply none = 0x6F ∷ 0x01 ∷ []
signed_reply (some s) = s ++ 0x90 ∷ 0 ∷ []

module _ {B : Type 0} (p : Platform B) where
  -- A command is received only while the machine waits for one, and a button is there only with a
  -- question.
  unfoldable pub respond : State → Event → Option (List ℕ) × State
  respond (waiting u) (command now class ins p1 p2 l payload) =
      settle (answer p now u class ins p1 payload)
  respond (waiting u) (fragment now class rest) =
      settle (u, reply [] (if class == cla then Code.wrong_length else Code.cla_not_supported))
  respond (waiting u) (approve now) = (none, waiting u)
  respond (waiting u) (reject now) = (none, waiting u)
  respond (asking_address u shown) (command now class ins p1 p2 l payload) =
      (none, asking_address u shown)
  respond (asking_address u shown) (fragment now class rest) = (none, asking_address u shown)
  respond (asking_address u shown) (approve now) = (some (shown ++ 0x90 ∷ 0 ∷ []), waiting u)
  respond (asking_address u shown) (reject now) = (some (0x69 ∷ 0x86 ∷ []), waiting u)
  respond (asking_sign u path message) (command now class ins p1 p2 l payload) =
      (none, asking_sign u path message)
  respond (asking_sign u path message) (fragment now class rest) =
      (none, asking_sign u path message)
  respond (asking_sign u path message) (approve now) =
      (some (signed_reply (signature_of p.cx path message (p.apdu_size - 3))), waiting u)
  respond (asking_sign u path message) (reject now) = (some (0x69 ∷ 0x86 ∷ []), waiting u)

  -- The replies to a sequence of events.
  unfoldable pub respond_all : State → List Event → List (Option (List ℕ))
  respond_all s [] = []
  respond_all s (e ∷ events) = let (r, s') = respond s e in r ∷ respond_all s' events
