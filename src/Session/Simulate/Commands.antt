-- ===== src/Session/Simulate/Commands.antt =====
-- A received command, or a part of its header, on the device and on the machine.
use mathlib.Core.Path.{subst}
use ledger_sovereign.Base.{
  ℕ, ◌+◌, ◌≡◌, ◌≤◌, refl, ap, ◌∙◌, none, some, List, [], ◌<◌, ◌==◌, if◌then◌else◌, ◌∷◌, ◌++◌,
  length, take, drop, arith,
}
use ledger_sovereign.Base.Memory.{copy_into, copy_into_front, length-copy_into}
use ledger_sovereign.Codes.{cla}
use ledger_sovereign.Codes.Code
use ledger_sovereign.Platform.{Platform}
use ledger_sovereign.Device.{Device, Moment, Outcome}
use ledger_sovereign.Apdu.{handle_apdu}
use ledger_sovereign.Apdu.Frame.{Holds}
use ledger_sovereign.Apdu.Upload.{Upload}
use ledger_sovereign.Apdu.Refine.{Uploading}
use ledger_sovereign.Protocol.{Verdict, reply, ask_address, ask_sign, answer}
use ledger_sovereign.Protocol.Laws.{IsSound, IsUsual}
use ledger_sovereign.Protocol.Reply.{Fresh, Conforms}
use ledger_sovereign.Protocol.Commands.{handle_apdu-Conforms, short_command-Conforms}
use ledger_sovereign.Protocol.Machine.{settle}
use ledger_sovereign.Session.Safety.{IsSafe}
use ledger_sovereign.Session.Command.{handle_apdu-IsSafe, short_command_IsSafe}
use ledger_sovereign.Session.Trace.{receive_frame, sent, after}
use ledger_sovereign.Session.Simulate.{Steady, Follows}

module _ {B : Type 0} (p : Platform B) (sound : IsSound p) where
  pub settle-Follows :
      (u : Upload) (v : Verdict) (o : Outcome (Unit {0})) (d : Device B)
      → Conforms p (u, v) (o, d)
      → IsSafe p d
      → Follows p (after (o, d)) (settle (u, v))
  settle-Follows u (reply bytes e) o d (done, up, idle, flags, count, text, size) safe = (
    ap (λ r. sent r d) idle ∙ ap (λ n. some (take n d.apdu)) count ∙ ap some text,
    ((safe, size, up), idle),
  )
  settle-Follows u (ask_address path shown) o d (done, up, flags, asks) safe =
      let (on, same_path, count, front, size, room, displays) = asks in
      (ap (λ r. sent r d) on, ((safe, size, up), on, count, front, room, displays))
  settle-Follows u (ask_sign path message) o d (done, up, flags, asks) safe =
      let (on, same_path, bytes, shown, size) = asks in
      (ap (λ r. sent r d) on, ((safe, size, up), on, same_path, bytes))

  pub command-Follows :
      (u : Upload) (d : Device B) (now : Moment) (class ins p1 p2 l : ℕ) (payload : List ℕ)
      → Steady p u d
      → d.review ≡ none
      → length payload ≤ 255
      → IsUsual p now
      → Follows p
          (after (
            handle_apdu p now
              (5 + length payload)
              (receive_frame d (class ∷ ins ∷ p1 ∷ p2 ∷ l ∷ payload))))
          (settle (answer p now u class ins p1 payload))
  command-Follows u d now class ins p1 p2 l payload (safe, size, up) idle short usual =
      let bytes : List ℕ = class ∷ ins ∷ p1 ∷ p2 ∷ l ∷ payload in
      let room : 260 ≤ p.apdu_size = sound.sane.room in
      let d0 : Device B = receive_frame d bytes in
      let frame : copy_into d.apdu 0 bytes ≡ bytes ++ drop (length bytes) d.apdu =
        copy_into_front d.apdu bytes (omega arith) in
      let holds : Holds d0 class ins p1 p2 l payload (drop (length bytes) d.apdu) = record {
        frame = frame;
        short = short;
      } in
      let fresh : Fresh p d0 = record {
        tx = refl;
        flags = refl;
        review = idle;
        size = length-copy_into d.apdu 0 bytes ∙ size;
      } in
      let ready : Uploading p d0 = record { path = safe.0; bounded = safe.1 } in
      let run : Outcome (Unit {0}) × Device B = handle_apdu p now (5 + length payload) d0 in
      let verdict : Upload × Verdict = answer p now u class ins p1 payload in
      let conforms : Conforms p verdict run =
        subst (λ w. Conforms p (answer p now w class ins p1 payload) run) up
          (handle_apdu-Conforms p now holds sound usual fresh ready) in
      settle-Follows verdict.0 verdict.1 run.0 run.1 conforms
        (handle_apdu-IsSafe p now sound.keeps holds idle safe)

  -- Fewer bytes than a header.
  pub fragment-Follows :
      (u : Upload) (d : Device B) (now : Moment) (class : ℕ) (rest : List ℕ)
      → Steady p u d
      → d.review ≡ none
      → length rest < 4
      → Follows p (after (handle_apdu p now (1 + length rest) (receive_frame d (class ∷ rest)))) (
          settle (u, reply [] (if class == cla then Code.wrong_length else Code.cla_not_supported)))
  fragment-Follows u d now class rest (safe, size, up) idle short =
      let bytes : List ℕ = class ∷ rest in
      let room : 260 ≤ p.apdu_size = sound.sane.room in
      let header : 5 ≤ p.apdu_min_length = sound.sane.min_header in
      let d0 : Device B = receive_frame d bytes in
      let behind : List ℕ = rest ++ drop (length bytes) d.apdu in
      let frame : copy_into d.apdu 0 bytes ≡ class ∷ behind =
        copy_into_front d.apdu bytes (omega arith) in
      let fresh : Fresh p d0 = record {
        tx = refl;
        flags = refl;
        review = idle;
        size = length-copy_into d.apdu 0 bytes ∙ size;
      } in
      let rx : ℕ = 1 + length rest in
      let below : rx < p.apdu_min_length = omega arith in
      let e : ℕ = if class == cla then Code.wrong_length else Code.cla_not_supported in
      let run : Outcome (Unit {0}) × Device B = handle_apdu p now rx d0 in
      let conforms : Conforms p (u, reply [] e) run =
        subst (λ w. Conforms p (w, reply [] e) run) up
          (short_command-Conforms p now sound fresh rx class behind frame below) in
      settle-Follows u (reply [] e) run.0 run.1 conforms
        (short_command_IsSafe p now d0 rx class behind frame below safe)
