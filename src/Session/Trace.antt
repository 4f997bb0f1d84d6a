-- ===== src/Session/Trace.antt =====
-- The device run on a sequence of events. A command is put at the front of the APDU buffer, and what
-- lay behind it stays; it is received only while no review is on the screen. Its reply, the first
-- `*tx` bytes of the buffer, is sent unless a review has been started (IO_ASYNCH_REPLY).
use ledger_sovereign.Base.{ℕ, ◌+◌, Option, none, some, List, [], ◌∷◌, length, take}
use ledger_sovereign.Base.Memory.{copy_into}
use ledger_sovereign.Platform.{Platform}
use ledger_sovereign.Device.{Review, Device, Outcome}
use ledger_sovereign.Actions.{app_sign, app_reject, app_reply_address}
use ledger_sovereign.Apdu.{handle_apdu}
use ledger_sovereign.Protocol.Machine.{Event, command, fragment, approve, reject}

module _ {B : Type 0} where
  -- What io_exchange leaves in the globals when a command comes in.
  abbrev pub receive_frame : Device B → List ℕ → Device B
  receive_frame d bytes = record d { apdu = copy_into d.apdu 0 bytes; tx = 0; flags = 0 }

  abbrev pub sent : Option Review → Device B → Option (List ℕ)
  sent none d = some (take d.tx d.apdu)
  sent (some r) d = none

  abbrev pub after : Outcome (Unit {0}) × Device B → Option (List ℕ) × Device B
  after (o, d) = (sent d.review d, d)

  abbrev pub replied : List ℕ × Device B → Option (List ℕ) × Device B
  replied (bytes, d) = (some bytes, d)

module _ {B : Type 0} (p : Platform B) where
  -- An event, by what is on the screen.
  abbrev pub perform_at : Option Review → Device B → Event → Option (List ℕ) × Device B
  perform_at none d (command now class ins p1 p2 l payload) = after (
      handle_apdu p now (5 + length payload)
        (receive_frame d (class ∷ ins ∷ p1 ∷ p2 ∷ l ∷ payload)))
  perform_at none d (fragment now class rest) =
      after (handle_apdu p now (1 + length rest) (receive_frame d (class ∷ rest)))
  perform_at none d (approve now) = (none, d)
  perform_at none d (reject now) = (none, d)
  perform_at (some r) d (command now class ins p1 p2 l payload) = (none, d)
  perform_at (some r) d (fragment now class rest) = (none, d)
  perform_at (some Review.address) d (approve now) = replied (app_reply_address p now d)
  perform_at (some Review.transaction) d (approve now) = replied (app_sign p now d)
  perform_at (some r) d (reject now) = replied (app_reject p now d)

  unfoldable pub perform : Device B → Event → Option (List ℕ) × Device B
  perform d e = perform_at d.review d e

  unfoldable pub perform_all : Device B → List Event → List (Option (List ℕ))
  perform_all d [] = []
  perform_all d (e ∷ events) = let (r, d') = perform d e in r ∷ perform_all d' events

  -- The device after a sequence of events.
  unfoldable pub run_events : Device B → List Event → Device B
  run_events d [] = d
  run_events d (e ∷ events) = run_events (perform d e).1 events
