-- ===== src/Session/Command.antt =====
-- Every command, from a state in which no review is on the screen.
use ledger_sovereign.Base.{
  ℕ, ◌+◌, ◌≡◌, get_elem?, Bool, true, false, not, ◌&&◌, none, some, List, length, Option, ltb, ◌==◌,
  refl, sym, ◌<◌, ◌∷◌, if◌then◌else◌,
}
use ledger_sovereign.Codes.{cla, ins_get_version, ins_get_addr, ins_sign}
use ledger_sovereign.Codes.Code
use ledger_sovereign.Platform.{Platform, Keeps}
use ledger_sovereign.Device.{
  Device, Moment, Outcome, Run, ◌>>=◌, ◌>>◌, returned, thrown, fault, choose, throw_if, read_byte,
  throw, or_fault,
}
use ledger_sovereign.Apdu.{
  catch_code, check_pin, dispatch, handle_apdu, handle_sign, handle_get_addr, handle_get_version,
  report,
}
use ledger_sovereign.Apdu.Frame.{Holds}
use ledger_sovereign.Session.Safety.{
  IsSafe, Quiet→Safe, SameCore, version_core, report_core, get_addr_IsQuiet,
}
use ledger_sovereign.Protocol.Commands.{short_lem}
use ledger_sovereign.Session.Message.{sign_IsSafe}

-- A predicate on the state that the parts of a command keep.
module _ {B A : Type 0} (P : Device B → Type 0) (d : Device B) where
  choose_keeps : (c : Bool) (m n : Run B A) → P (m d).1 → P (n d).1 → P (choose c m n d).1
  unfolding choose
  choose_keeps true m n h k = h
  choose_keeps false m n h k = k

  throw_if_keeps : (c : Bool) (e : ℕ) (m : Run B A) → P d → P (m d).1 → P ((throw_if c e >> m) d).1
  unfolding throw_if
  throw_if_keeps true e m h k = h
  throw_if_keeps false e m h k = k

  or_fault_keeps :
      (o : Option ℕ) (f : ℕ → Run B A) → P d → ((b : ℕ) → P (f b d).1) → P ((or_fault o >>= f) d).1
  or_fault_keeps none f h k = h
  or_fault_keeps (some b) f h k = k b

  read_byte_keeps :
      (i : ℕ) (f : ℕ → Run B A) → P d → ((b : ℕ) → P (f b d).1) → P ((read_byte i >>= f) d).1
  unfolding read_byte
  read_byte_keeps i f h k = or_fault_keeps (get_elem? d.apdu i) f h k

SameCore→Safe :
    {B : Type 0} (p : Platform B) (d d' : Device B) → SameCore d d' → IsSafe p d → IsSafe p d'
SameCore→Safe p d d' (s0, s1, s2, s3) safe = rw (s0, s1, s2, s3) safe

module _ {B : Type 0} (p : Platform B) (now : Moment) where
  pin_keeps :
      (P : Device B → Type 0) (d : Device B) (o : Option ℕ) (m : Run B (Unit {0}))
      → o ≡ now.pin_check
      → P d
      → P (m d).1
      → P ((check_pin p now >> m) d).1
  pin_keeps P d none m e h k = rw (sym e) k
  pin_keeps P d (some code) m e h k = rw (sym e) h

  module _ (keeps : Keeps p.buffering) {d : Device B} {class ins p1 p2 l : ℕ}
      {payload rest : List ℕ} (holds : Holds d class ins p1 p2 l payload rest)
      (idle : d.review ≡ none) (safe : IsSafe p d) where
    abbrev rx : ℕ
    rx = 5 + length payload

    -- The branches of the switch on the instruction, and what stands before it.
    abbrev at_test : ℕ → Run B (Unit {0})
    at_test ins =
        choose (p.testing && ins == p.ins_test) (throw Code.success) (throw Code.ins_not_supported)

    abbrev at_sign : ℕ → Run B (Unit {0})
    at_sign ins = choose (ins == ins_sign) (check_pin p now >> handle_sign p rx) (at_test ins)

    abbrev at_addr : ℕ → Run B (Unit {0})
    at_addr ins =
        choose (ins == ins_get_addr) (check_pin p now >> handle_get_addr p now rx) (at_sign ins)

    abbrev at_ins : ℕ → Run B (Unit {0})
    at_ins ins = choose (ins == ins_get_version) (handle_get_version p now) (at_addr ins)

    ins_IsSafe : (ins : ℕ) → IsSafe p (at_ins ins d).1
    ins_IsSafe ins =
        let S = IsSafe p in
        let version =
          SameCore→Safe p d (handle_get_version p now d).1 (version_core p now d) safe in
        let addr = Quiet→Safe p (handle_get_addr p now rx d).1 (get_addr_IsQuiet p now d rx idle) in
        choose_keeps S d (ins == ins_get_version) (handle_get_version p now) (at_addr ins) version (
          choose_keeps S d (ins == ins_get_addr) (check_pin p now >> handle_get_addr p now rx)
            (at_sign ins) (pin_keeps S d now.pin_check (handle_get_addr p now rx) refl safe addr)
            (choose_keeps S d (ins == ins_sign) (check_pin p now >> handle_sign p rx) (at_test ins)
              (pin_keeps S d now.pin_check (handle_sign p rx) refl safe
                (sign_IsSafe p keeps holds idle safe))
              (choose_keeps {A = Unit} S d (p.testing && ins == p.ins_test) (throw Code.success)
                (throw Code.ins_not_supported) safe safe)))

    abbrev at_length : Run B (Unit {0})
    at_length = throw_if (ltb rx p.apdu_min_length) Code.wrong_length >> (read_byte 1 >>= at_ins)

    abbrev at_class : ℕ → Run B (Unit {0})
    at_class class = throw_if (not (class == cla)) Code.cla_not_supported >> at_length

    dispatch-IsSafe : IsSafe p (dispatch p now rx d).1
    unfolding dispatch
    dispatch-IsSafe =
        let S = IsSafe p in
        read_byte_keeps S d 0 at_class safe (λ class.
          throw_if_keeps S d (not (class == cla)) Code.cla_not_supported at_length safe (
            throw_if_keeps S d (ltb rx p.apdu_min_length) Code.wrong_length (read_byte 1 >>= at_ins)
              safe (read_byte_keeps S d 1 at_ins safe ins_IsSafe)))

    caught_IsSafe :
        (o : Outcome (Unit {0})) (d1 : Device B) → IsSafe p d1 → IsSafe p (catch_code p (o, d1)).1
    unfolding catch_code
    caught_IsSafe (returned _) d1 h = h
    caught_IsSafe (thrown code) d1 h =
        SameCore→Safe p d1 (report p code d1).1 (report_core p now d1 code) h
    caught_IsSafe fault d1 h = h

    -- handleApdu, with any PIN check, lock state and stack, and a buffer that keeps whole appends up
    -- to its capacity: a received command with at most 255 bytes of payload that finds no review on
    -- the screen and a safe state leaves a safe state, on every path through the handlers.
    pub handle_apdu-IsSafe : IsSafe p (handle_apdu p now (5 + length payload) d).1
    unfolding handle_apdu
    handle_apdu-IsSafe =
        caught_IsSafe (dispatch p now rx d).0 (dispatch p now rx d).1 dispatch-IsSafe

-- A command without a header changes nothing that the invariant speaks of.
pub short_command_IsSafe :
    {B : Type 0} (p : Platform B) (now : Moment) (d : Device B) (size class : ℕ) (rest : List ℕ)
    → d.apdu ≡ class ∷ rest
    → size < p.apdu_min_length
    → IsSafe p d
    → IsSafe p (handle_apdu p now size d).1
unfolding handle_apdu catch_code
short_command_IsSafe p now d size class rest holds short safe =
    let e : ℕ = if class == cla then Code.wrong_length else Code.cla_not_supported in
    rw (short_lem p now {d = d} size class rest holds short)
      (SameCore→Safe p d (report p e d).1 (report_core p now d e) safe)
