-- ===== src/Session/Simulate.antt =====
-- When the device is in a state of the machine of `Protocol.Machine`, and what it means that one step
-- of the device follows one of the machine.
pub mod Commands
pub mod Buttons
pub mod Behaviour
pub mod Secrecy
pub mod Keys
pub mod Consent
pub mod Screen
pub mod Answers
pub mod Signing
pub mod Explained
pub mod History
use ledger_sovereign.Base.{ℕ, ◌+◌, ◌≡◌, ◌≤◌, ◌<◌, Option, none, some, List, length, take}
use ledger_sovereign.Platform.{Platform}
use ledger_sovereign.Tx.{tx_get_buffer}
use ledger_sovereign.Device.{Review, Device}
use ledger_sovereign.Apdu.Upload.{Upload}
use ledger_sovereign.Apdu.Refine.{upload}
use ledger_sovereign.Protocol.Laws.{IsUsual}
use ledger_sovereign.Protocol.Machine.{
  Event, command, fragment, approve, reject, State, waiting, asking_address, asking_sign,
}
use ledger_sovereign.Protocol.Reply.{Displays}
use ledger_sovereign.Session.Safety.{IsSafe}

-- What every state of the device has: the invariant, and a buffer of the build's size.
abbrev pub Steady : {B : Type 0} → Platform B → Upload → Device B → Type 0
Steady p u d = IsSafe p d × (length d.apdu ≡ p.apdu_size) × (upload p d ≡ u)

-- The device is in a state of the machine.
abbrev pub Matches : {B : Type 0} → Platform B → Device B → State → Type 0
Matches p d (waiting u) = Steady p u d × (d.review ≡ none)
Matches p d (asking_address u shown) =
    Steady p u d
    × (d.review ≡ some Review.address)
    × (d.addr_response_len ≡ length shown)
    × (take (length shown) d.apdu ≡ shown)
    × (length shown + 2 ≤ p.apdu_size)
    × Displays shown d
Matches p d (asking_sign u path message) =
    Steady p u d
    × (d.review ≡ some Review.transaction)
    × (d.hd_path ≡ path)
    × (tx_get_buffer p.buffering d.txs ≡ message)

-- The moments of an event are usual, and a payload has its length in one byte.
abbrev pub Possible : {B : Type 0} → Platform B → Event → Type 0
Possible p (command now class ins p1 p2 l payload) = (length payload ≤ 255) × IsUsual p now
Possible p (fragment now class rest) = (length rest < 4) × IsUsual p now
Possible p (approve now) = IsUsual p now
Possible p (reject now) = IsUsual p now

-- The same reply, and states that match again.
abbrev pub Follows :
    {B : Type 0} → Platform B → Option (List ℕ) × Device B → Option (List ℕ) × State → Type 0
Follows p (r, d) (r', s) = (r ≡ r') × Matches p d s
