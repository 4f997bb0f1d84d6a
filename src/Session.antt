-- ===== src/Session.antt =====
-- The application between commands and button presses. While a review is on the screen no command
-- is received: after IO_ASYNCH_REPLY the SDK's io_exchange waits until a callback has answered.
pub mod Safety
pub mod Message
pub mod Command
pub mod Reviews
pub mod Approval
pub mod Replies
pub mod Host
pub mod Upload
pub mod Endings
pub mod Trace
pub mod Simulate
use ledger_sovereign.Base.{ℕ, ◌+◌, ◌≤◌, ◌<◌, ◌≡◌, none, some, List, ◌∷◌, ◌++◌, length}
use ledger_sovereign.Platform.{Platform}
use ledger_sovereign.Device.{Review, Device, Moment, returned}
use ledger_sovereign.Actions.{app_sign, app_reject, app_reply_address}
use ledger_sovereign.Apdu.{handle_apdu}

-- A command of five header bytes and a payload comes into the buffer; what lay behind stays.
abbrev pub receive : {B : Type 0} → Device B → List ℕ → Device B
receive d bytes = record d { apdu = bytes; tx = 0; flags = 0 }

-- What can happen: a command that the handler ends normally, and the review's buttons. A command
-- that is shorter than APDU_MIN_LENGTH, which is the size of a header, need not have one.
pub data Step {B : Type 0} (p : Platform B) (d : Device B) (d' : Device B) : Type 0 where
  command :
      (now : Moment) (class ins p1 p2 l : ℕ) (payload rest : List ℕ)
      → d.review ≡ none
      → length payload ≤ 255
      → handle_apdu p now
          (5 + length payload)
          (receive d (class ∷ ins ∷ p1 ∷ p2 ∷ l ∷ payload ++ rest))
        ≡ (returned tt, d')
      → Step p d d'
  short_command :
      (now : Moment) (rx class : ℕ) (rest : List ℕ)
      → d.review ≡ none
      → rx < p.apdu_min_length
      → handle_apdu p now rx (receive d (class ∷ rest)) ≡ (returned tt, d')
      → Step p d d'
  sign :
      (now : Moment) → d.review ≡ some Review.transaction → d' ≡ (app_sign p now d).1 → Step p d d'
  show_address :
      (now : Moment)
      → d.review ≡ some Review.address
      → d' ≡ (app_reply_address p now d).1
      → Step p d d'
  reject :
      (now : Moment) (r : Review) → d.review ≡ some r → d' ≡ (app_reject p now d).1 → Step p d d'

pub data Reach {B : Type 0} (p : Platform B) (start : Device B) : Device B → Type 0 where
  here : Reach p start start
  next : {d d' : Device B} → Reach p start d → Step p d d' → Reach p start d'
