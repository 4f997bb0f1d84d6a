-- ===== src/Session/Simulate/Secrecy.antt =====
-- Devices with leftovers in their buffers, and a locked device, over sequences of events.
use mathlib.Core.Path.{subst}
use ledger_sovereign.Base.{
  ℕ, ◌+◌, ◌≡◌, refl, sym, ◌∙◌, Bool, true, false, not, ◌&&◌, ◌==◌, ltb, none, some, List, [], ◌∷◌,
  length, if◌then◌else◌, Option,
}
use ledger_sovereign.Codes.{cla, ins_get_version, ins_get_addr, ins_sign}
use ledger_sovereign.Platform.{Platform}
use ledger_sovereign.Device.{Device}
use ledger_sovereign.Apdu.Upload.{Upload}
use ledger_sovereign.Apdu.Refine.{upload}
use ledger_sovereign.Session.Safety.{IsSafe}
use ledger_sovereign.Protocol.{Verdict, pinned}
use ledger_sovereign.Protocol.Laws.{IsSound}
use ledger_sovereign.Protocol.Machine.{
  Event, command, fragment, approve, reject, waiting, settle, respond,
}
use ledger_sovereign.Session.Trace.{perform, perform_all, run_events}
use ledger_sovereign.Session.Simulate.{Matches}
use ledger_sovereign.Session.Simulate.Behaviour.{AllPossible, event-Follows, device_is_machine}

-- A failing PIN check at every event.
abbrev pub IsLocked : Event → Type 0
IsLocked (command now class ins p1 p2 l payload) = (e : ℕ) × (now.pin_check ≡ some e)
IsLocked (fragment now class rest) = (e : ℕ) × (now.pin_check ≡ some e)
IsLocked (approve now) = (e : ℕ) × (now.pin_check ≡ some e)
IsLocked (reject now) = (e : ℕ) × (now.pin_check ≡ some e)

abbrev pub AllLocked : List Event → Type 0
AllLocked [] = Unit {0}
AllLocked (e ∷ events) = IsLocked e × AllLocked events

module _ {B : Type 0} (p : Platform B) (sound : IsSound p) where
  -- The libraries keep to their laws, and two devices have no upload, no review and an APDU buffer
  -- of the build's size; whatever else their buffers hold, of keys, messages and addresses of
  -- earlier commands. Over the same events, commands of one to four bytes, or of a header and at
  -- most 255 bytes of payload, and button presses, each at a moment with a whole key on the stack
  -- and no PIN check that throws a reset of the link, both send the same replies.
  pub replies_leak_nothing :
      (d d' : Device B) (events : List Event)
      → d.tx_initialized ≡ false
      → d.review ≡ none
      → length d.apdu ≡ p.apdu_size
      → d'.tx_initialized ≡ false
      → d'.review ≡ none
      → length d'.apdu ≡ p.apdu_size
      → AllPossible p events
      → perform_all p d events ≡ perform_all p d' events
  replies_leak_nothing d d' events off idle size off' idle' size' h =
      device_is_machine p sound d events off idle size h
      ∙ sym (device_is_machine p sound d' events off' idle' size' h)

  -- The state after one of two answers.
  state_of_either :
      (u : Upload) (b : Bool) (x y : Upload × Verdict)
      → (settle x).1 ≡ waiting u
      → (settle y).1 ≡ waiting u
      → (settle (if b then x else y)).1 ≡ waiting u
  state_of_either u true x y hx hy = hx
  state_of_either u false x y hx hy = hy

  stopped_by_pin :
      (u : Upload) (pin : Option ℕ) (e : ℕ) (a : Upload × Verdict)
      → pin ≡ some e
      → (settle (pinned pin u a)).1 ≡ waiting u
  stopped_by_pin u none e a h = cc
  stopped_by_pin u (some x) e a h = refl

  locked_waits : (u : Upload) (e : Event) → IsLocked e → (respond p (waiting u) e).1 ≡ waiting u
  unfolding respond
  locked_waits u (command now class ins p1 p2 l payload) (e, locked) =
      state_of_either u (not (class == cla)) _ _ refl (
        state_of_either u (ltb (5 + length payload) p.apdu_min_length) _ _ refl (
          state_of_either u (ins == ins_get_version) _ _ refl (
            state_of_either u (ins == ins_get_addr) _ _ (stopped_by_pin u now.pin_check e _ locked)
              (state_of_either u (ins == ins_sign) _ _ (stopped_by_pin u now.pin_check e _ locked)
                (state_of_either u (p.testing && ins == p.ins_test) _ _ refl refl)))))
  locked_waits u (fragment now class rest) locked = refl
  locked_waits u (approve now) locked = refl
  locked_waits u (reject now) locked = refl

  locked-Matches :
      (events : List Event) (d : Device B) (u : Upload)
      → Matches p d (waiting u)
      → AllPossible p events
      → AllLocked events
      → Matches p (run_events p d events) (waiting u)
  unfolding run_events
  locked-Matches [] d u m h locked = m
  locked-Matches (e ∷ events) d u m (one, others) (first, rest) =
      let (_, m') = event-Follows p sound d (waiting u) e m one in
      locked-Matches events (perform p d e).1 u
        (subst (λ s. Matches p (perform p d e).1 s) (locked_waits u e first) m') others rest

  -- The libraries keep to their laws; the device is safe, waits for a command and has an APDU
  -- buffer of the build's size. Commands of one to four bytes, or of a header and at most 255
  -- bytes of payload, and button presses come in any order, at moments with a whole key on the
  -- stack, and the PIN check fails at each of them, with no reset of the link. Then the device
  -- asks the user nothing, and the upload is as before.
  pub locked_device_asks_nothing :
      (d : Device B) (events : List Event)
      → IsSafe p d
      → d.review ≡ none
      → length d.apdu ≡ p.apdu_size
      → AllPossible p events
      → AllLocked events
      → ((run_events p d events).review ≡ none) × (upload p (run_events p d events) ≡ upload p d)
  locked_device_asks_nothing d events safe idle size h locked =
      let ((_, _, same), waits) =
        locked-Matches events d (upload p d) ((safe, size, refl), idle) h locked in
      (waits, same)
