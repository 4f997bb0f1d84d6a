-- ===== src/Protocol/Commands.antt =====
-- handleApdu against the specification of every command.
use ledger_sovereign.Base.{
  ◌∙◌, ◌<◌, Bool, ℕ, ◌+◌, ◌%◌, ◌^◌, ◌≡◌, ◌≤◌, refl, arith, Option, none, some, List, [], ◌∷◌,
  length, true, false, not, ◌&&◌, ltb, le→leb, ◌==◌, if◌then◌else◌, get_elem?,
}
use ledger_sovereign.Base.Memory.{copy_into, length-copy_into}
use ledger_sovereign.Codes.{cla, ins_get_version, ins_get_addr, ins_sign}
use ledger_sovereign.Codes.Code
use ledger_sovereign.Tx.{flash_buffer_size}
use ledger_sovereign.Platform.{Platform}
use ledger_sovereign.Device.{Device, Moment, Outcome, thrown, choose, throw_if}
use ledger_sovereign.Device.Rules.{read_byte_lem, write_bytes_lem}
use ledger_sovereign.Apdu.{
  dispatch, handle_apdu, handle_get_version, handle_get_addr, handle_sign, version_bytes,
}
use ledger_sovereign.Apdu.Frame.{Holds}
use ledger_sovereign.Apdu.Report.{take-copy_into}
use ledger_sovereign.Apdu.Upload.{Upload, Answer, chunk}
use ledger_sovereign.Apdu.Refine.{Uploading, upload}
use ledger_sovereign.Apdu.Version.{version_bytes_lem}
use ledger_sovereign.Protocol.{
  Verdict, reply, version_text, pinned, answer, address_verdict, sign_verdict,
}
use ledger_sovereign.Protocol.Laws.{IsSound, IsUsual}
use ledger_sovereign.Protocol.Reply.{Fresh, Yields, Conforms, Yields→Conforms, resets, plain_Yields}
use ledger_sovereign.Protocol.Sign.{sign_Yields}
use ledger_sovereign.Protocol.Address.{get_addr_Yields}

-- The same decision on both sides.
if_Yields :
    {B : Type 0} (p : Platform B) (c : Bool) (a b : Upload × Verdict)
    (m n : Outcome (Unit {0}) × Device B)
    → Yields p a m
    → Yields p b n
    → Yields p (if c then a else b) (if c then m else n)
if_Yields p true a b m n h k = h
if_Yields p false a b m n h k = k

module _ {B : Type 0} (p : Platform B) (now : Moment) {d : Device B} {class ins p1 p2 l : ℕ}
    {payload rest : List ℕ} (holds : Holds d class ins p1 p2 l payload rest) where
  abbrev rx : ℕ
  rx = 5 + length payload

  -- A handler behind CHECK_PIN_VALIDATED.
  abbrev behind_pin : Option ℕ → Outcome (Unit {0}) × Device B → Outcome (Unit {0}) × Device B
  behind_pin none run = run
  behind_pin (some e) run = (thrown e, d)

  -- The body of the TRY block, as a decision on the header.
  dispatch_lem : dispatch p now rx d ≡ (
      if not (class == cla)
      then (thrown Code.cla_not_supported, d)
      else (if ltb rx p.apdu_min_length
          then (thrown Code.wrong_length, d)
          else (if ins == ins_get_version
              then handle_get_version p now d
              else (if ins == ins_get_addr
                  then behind_pin now.pin_check (handle_get_addr p now rx d)
                  else (if ins == ins_sign
                      then behind_pin now.pin_check (handle_sign p rx d)
                      else (if p.testing && ins == p.ins_test
                          then (thrown Code.success, d)
                          else (thrown Code.ins_not_supported, d)))))))
  unfolding dispatch throw_if choose
  dispatch_lem =
      let class_byte : get_elem? d.apdu 0 ≡ some class = rw holds.frame refl in
      let ins_byte : get_elem? d.apdu 1 ≡ some ins = rw holds.frame refl in
      ground (arith, read_byte_lem d 0 class class_byte, read_byte_lem d 1 ins ins_byte)

  module _ (sound : IsSound p) (usual : IsUsual p now) (fresh : Fresh p d)
      (ready : Uploading p d) where
    code_alone : (e : ℕ) → 4096 ≤ e → Yields p (upload p d, reply [] e) (thrown e, d)
    code_alone e h =
        plain_Yields p sound.sane (upload p d) e (thrown e, d) d (resets p sound.sane e h) refl refl
          fresh

    version_Yields :
        Yields p (upload p d, reply (version_text p now) Code.success) (handle_get_version p now d)
    unfolding handle_get_version
    version_Yields =
        let bytes : List ℕ = version_bytes p now in
        let room : 260 ≤ p.apdu_size = sound.sane.room in
        let inside : 12 ≤ length d.apdu = omega (arith, fresh.size) in
        let count : (d.tx + 12) % 2 ^ 32 ≡ 12 = omega (arith, fresh.tx) in
        let run : handle_get_version p now d
            ≡ (thrown Code.success, record d { apdu = copy_into d.apdu 0 bytes; tx = 12 }) =
          ground (arith, write_bytes_lem d 0 bytes (le→leb 12 (length d.apdu) inside), count) in
        rw run (
          refl,
          resets p sound.sane Code.success (omega arith),
          refl,
          fresh.review,
          fresh.flags,
          refl,
          take-copy_into d.apdu 0 bytes inside ∙ version_bytes_lem p now,
          length-copy_into d.apdu 0 bytes ∙ fresh.size,
          omega arith,
        )

    pin_Yields :
        (o : Option ℕ) (u : Upload) (v : Verdict) (run : Outcome (Unit {0}) × Device B)
        → now.pin_check ≡ o
        → Yields p (u, v) run
        → Yields p (pinned o (upload p d) (u, v)) (behind_pin o run)
    pin_Yields none u v run e h = h
    pin_Yields (some code) u v run e h =
        plain_Yields p sound.sane (upload p d) code (thrown code, d) d (usual.no_reset code e) refl
          refl fresh

    dispatch-Yields :
        Yields p (answer p now (upload p d) class ins p1 payload) (dispatch p now rx d)
    dispatch-Yields =
        let u : Upload = upload p d in
        let pin = now.pin_check in
        let addr =
          pin_Yields pin none (address_verdict p p1 payload) (handle_get_addr p now rx d) refl
            (get_addr_Yields p now sound usual holds fresh) in
        let step : Upload × Answer = chunk (flash_buffer_size p.target) u p1 payload in
        let signed =
          pin_Yields pin step.0 (sign_verdict step.1) (handle_sign p rx d) refl
            (sign_Yields p sound.sane sound.keeps holds fresh ready) in
        rw dispatch_lem (
          if_Yields p (not (class == cla)) _ _ _ _ (code_alone Code.cla_not_supported (omega arith))
            (if_Yields p (ltb rx p.apdu_min_length) _ _ _ _
              (code_alone Code.wrong_length (omega arith))
              (if_Yields p (ins == ins_get_version) _ _ _ _ version_Yields (
                if_Yields p (ins == ins_get_addr) _ _ _ _ addr (
                  if_Yields p (ins == ins_sign) _ _ _ _ signed (
                    if_Yields p (p.testing && ins == p.ins_test) _ _ _ _
                      (code_alone Code.success (omega arith))
                      (code_alone Code.ins_not_supported (omega arith))))))))

    -- handleApdu implements the specification. A command of five header bytes and at most 255 bytes
    -- of payload has been received into a buffer of the build's size, with nothing in the reply and no
    -- review on the screen; any upload under way is for a path of this application into the flash
    -- area. The libraries keep to their laws, the stack holds a whole key, and a failing PIN check
    -- throws no reset of the link. Then handleApdu returns, never faults, and does what the
    -- specification answers for the command's bytes and the upload: the reply is the answer and the
    -- status word, or the user is asked about the very address or message; and the upload afterwards
    -- is the specified one.
    pub handle_apdu-Conforms :
        Conforms p (answer p now (upload p d) class ins p1 payload) (handle_apdu p now rx d)
    unfolding handle_apdu
    handle_apdu-Conforms =
        let (u, v) = answer p now (upload p d) class ins p1 payload in
        Yields→Conforms p sound.sane u v (dispatch p now rx d).0 (dispatch p now rx d).1
          dispatch-Yields

short_code :
    (class : ℕ) → 4096 ≤ (if class == cla then Code.wrong_length else Code.cla_not_supported)
short_code class = ground arith

pub short_lem :
    {B : Type 0} (p : Platform B) (now : Moment) {d : Device B} (rx class : ℕ) (rest : List ℕ)
    → d.apdu ≡ class ∷ rest
    → rx < p.apdu_min_length
    → dispatch p now rx d
      ≡ (thrown (if class == cla then Code.wrong_length else Code.cla_not_supported), d)
unfolding dispatch throw_if
short_lem p now {d} rx class rest holds short =
    let class_byte : get_elem? d.apdu 0 ≡ some class = rw holds refl in
    ground (arith, read_byte_lem d 0 class class_byte)

-- A command shorter than the header of every command, with nothing in the reply and no review on the
-- screen: handleApdu answers with an error code alone, and the upload is as before. The byte that is
-- taken for CLA may be one of an earlier command.
pub short_command-Conforms :
    {B : Type 0} (p : Platform B) (now : Moment) {d : Device B} (sound : IsSound p)
    (fresh : Fresh p d) (rx class : ℕ) (rest : List ℕ)
    → d.apdu ≡ class ∷ rest
    → rx < p.apdu_min_length
    → Conforms p
        (upload p d, reply [] (if class == cla then Code.wrong_length else Code.cla_not_supported))
        (handle_apdu p now rx d)
unfolding handle_apdu
short_command-Conforms p now {d} sound fresh rx class rest holds short =
    let e : ℕ = if class == cla then Code.wrong_length else Code.cla_not_supported in
    Yields→Conforms p sound.sane (upload p d) (reply [] e) (dispatch p now rx d).0
      (dispatch p now rx d).1
      (plain_Yields p sound.sane (upload p d) e (dispatch p now rx d) d
        (resets p sound.sane e (short_code class)) (short_lem p now rx class rest holds short) refl
        fresh)
