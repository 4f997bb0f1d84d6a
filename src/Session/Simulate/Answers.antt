-- ===== src/Session/Simulate/Answers.antt =====
-- The device answers after any session.
use mathlib.Core.Path.{subst}
use ledger_sovereign.Base.{
  ℕ, ◌+◌, ◌≤◌, ◌≡◌, refl, ◌∙◌, none, some, List, [], ◌∷◌, ◌++◌, le→ltb, length,
}
use ledger_sovereign.Codes.{cla, ins_get_version}
use ledger_sovereign.Platform.{Platform}
use ledger_sovereign.Device.{Device, Moment}
use ledger_sovereign.Protocol.{version_text}
use ledger_sovereign.Apdu.Upload.{Upload}
use ledger_sovereign.Apdu.Refine.{upload}
use ledger_sovereign.Protocol.Laws.{IsSound, IsUsual}
use ledger_sovereign.Protocol.Machine.{
  Event, command, reject, State, waiting, asking_address, asking_sign, respond,
}
use ledger_sovereign.Session.Safety.{IsSafe}
use ledger_sovereign.Session.Trace.{perform, run_events}
use ledger_sovereign.Session.Simulate.{Matches}
use ledger_sovereign.Session.Simulate.Behaviour.{AllPossible, event-Follows}
use ledger_sovereign.Session.Simulate.Screen.{run-Matches}

module _ {B : Type 0} (p : Platform B) (now : Moment) where
  reject_waits : (s : State) → (u : Upload) × ((respond p s (reject now)).1 ≡ waiting u)
  unfolding respond
  reject_waits (waiting u) = (u, refl)
  reject_waits (asking_address u shown) = (u, refl)
  reject_waits (asking_sign u path message) = (u, refl)

  module _ (p1 p2 l : ℕ) (payload : List ℕ) where
    -- A version command.
    abbrev pub version_command : Event
    version_command = command now cla ins_get_version p1 p2 l payload

    version_answer :
        (u : Upload)
        → p.apdu_min_length ≤ 5 + length payload
        → (respond p (waiting u) version_command).0 ≡ some (version_text p now ++ 0x90 ∷ 0 ∷ [])
    unfolding respond
    version_answer u long = rw (le→ltb (5 + length payload) p.apdu_min_length long) refl

    -- The device stays responsive. The libraries keep to their laws; the device is safe, waits for a
    -- command and has an APDU buffer of the build's size. Commands of one to four bytes, or of a header
    -- and at most 255 bytes of payload, and button presses come in any order, each at a moment with a
    -- whole key on the stack and no PIN check that throws a reset of the link. Whatever they were and
    -- whatever is on the screen, when the user then presses reject, the next version command of at
    -- least the minimal length, at such a moment, is answered with the version and 0x9000.
    pub version_after_reject :
        (start : Device B) (events : List Event)
        → IsSound p
        → IsUsual p now
        → IsSafe p start
        → start.review ≡ none
        → length start.apdu ≡ p.apdu_size
        → AllPossible p events
        → length payload ≤ 255
        → p.apdu_min_length ≤ 5 + length payload
        → let d = (perform p (run_events p start events) (reject now)).1 in
          (perform p d version_command).0 ≡ some (version_text p now ++ 0x90 ∷ 0 ∷ [])
    version_after_reject start events sound usual safe idle size h short long =
        let (s, m) =
          run-Matches p sound events start (waiting (upload p start)) ((safe, size, refl), idle)
            h in
        let after = event-Follows p sound (run_events p start events) s (reject now) m usual in
        let d = (perform p (run_events p start events) (reject now)).1 in
        let (u, waits) = reject_waits s in
        let m' = subst (λ s'. Matches p d s') waits after.1 in
        (event-Follows p sound d (waiting u) version_command m' (short, usual)).0
        ∙ version_answer u long
