-- ===== src/Session/Simulate/History.antt =====
-- Where the message of a review comes from: the chunks that the host has sent.
use ledger_sovereign.Base.{
  ℕ, ◌+◌, ◌<◌, ◌≤◌, ◌≡◌, Bool, true, false, not, Option, none, some, List, [], ◌∷◌, ◌++◌, ltb, ◌==◌,
  if◌then◌else◌, length, take,
}
use ledger_sovereign.Base.Memory.{words32}
use ledger_sovereign.Codes.{cla, ins_sign, ins_get_addr}
use ledger_sovereign.Platform.{Platform}
use ledger_sovereign.Codes.Path.{is_ours}
use ledger_sovereign.Protocol.Machine.{
  Event, command, fragment, approve, reject, State, waiting, asking_address, asking_sign,
}

-- Events in the order in which they come, put on those so far.
abbrev pub newest_first : List Event → List Event → List Event
newest_first past [] = past
newest_first past (e ∷ events) = newest_first (e ∷ past) events

-- The user presses a button.
abbrev pub is_press : Event → Bool
is_press (command now class ins p1 p2 l payload) = false
is_press (fragment now class rest) = false
is_press (approve now) = true
is_press (reject now) = true

-- A command that the PIN check lets in: its INS, P1 and payload.
abbrev pub unlocked : Option ℕ → ℕ → ℕ → List ℕ → Option (ℕ × ℕ × List ℕ)
unlocked none ins p1 payload = some (ins, p1, payload)
unlocked (some e) ins p1 payload = none

module _ {B : Type 0} (p : Platform B) where
  -- An event that is a sign or an address command of at least the minimal length and is let in.
  abbrev pub let_in : Event → Option (ℕ × ℕ × List ℕ)
  let_in (command now class ins p1 p2 l payload) =
      if not (class == cla)
      then none
      else (if ltb (5 + length payload) p.apdu_min_length
          then none
          else (if ins == ins_sign
              then unlocked now.pin_check ins_sign p1 payload
              else (if ins == ins_get_addr
                  then unlocked now.pin_check ins_get_addr p1 payload
                  else none)))
  let_in (fragment now class rest) = none
  let_in (approve now) = none
  let_in (reject now) = none

  -- Nothing that is let in, or a sign command with a P1 that it does not know.
  abbrev pub IsOther : Option (ℕ × ℕ × List ℕ) → Type 0
  IsOther none = Unit {0}
  IsOther (some (ins, p1, payload)) = (ins ≡ ins_sign) × (2 < p1)

  -- The events so far, the newest first, have brought a path and a part of a message: a first chunk
  -- with the path, and after it further chunks that are the part, with neither another chunk nor an
  -- address command among them.
  pub data Delivering : List Event → List ℕ → List ℕ → Type 0 where
    first :
        {past : List Event} {e : Event} (payload : List ℕ)
        → let_in e ≡ some (ins_sign, 0, payload)
        → 12 ≤ length payload
        → is_ours (words32 (take 12 payload)) ≡ true
        → Delivering (e ∷ past) (words32 (take 12 payload)) []
    next :
        {past : List Event} {e : Event} {path part : List ℕ} (payload : List ℕ)
        → Delivering past path part
        → let_in e ≡ some (ins_sign, 1, payload)
        → Delivering (e ∷ past) path (part ++ payload)
    other :
        {past : List Event} {e : Event} {path part : List ℕ}
        → Delivering past path part
        → IsOther (let_in e)
        → Delivering (e ∷ past) path part

  -- The same, with a last chunk, since which no button has been pressed.
  pub data Delivered : List Event → List ℕ → List ℕ → Type 0 where
    last :
        {past : List Event} {e : Event} {path part : List ℕ} (payload : List ℕ)
        → Delivering past path part
        → let_in e ≡ some (ins_sign, 2, payload)
        → Delivered (e ∷ past) path (part ++ payload)
    later :
        {past : List Event} {e : Event} {path message : List ℕ}
        → Delivered past path message
        → is_press e ≡ false
        → Delivered (e ∷ past) path message

  -- The state of the machine after these events.
  abbrev pub Explains : List Event → State → Type 0
  Explains past (waiting none) = Unit {0}
  Explains past (waiting (some (path, part))) = Delivering past path part
  Explains past (asking_address u shown) = u ≡ none
  Explains past (asking_sign u path message) = (u ≡ none) × Delivered past path message
