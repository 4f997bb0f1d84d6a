-- ===== src/Apdu/Version.antt =====
-- The version command from the frame to the reply.
use ledger_sovereign.Base.{
  ℕ, ◌+◌, ◌%◌, ◌^◌, ◌<◌, ◌≡◌, ◌≢◌, ◌≤◌, some, List, [], ◌∷◌, ◌++◌, length, take, refl, ◌∙◌, arith,
  get_elem?, le→leb, ◌/◌, Bool, true, false, not, ap, if◌then◌else◌,
}
use ledger_sovereign.Base.Memory.{copy_into, length-copy_into}
use ledger_sovereign.Codes.{cla, ins_get_version}
use ledger_sovereign.Codes.Code
use ledger_sovereign.Platform.{Platform}
use ledger_sovereign.Device.{Device, Moment, returned, thrown, choose, throw_if}
use ledger_sovereign.Device.Rules.{write_bytes_lem, read_byte_lem}
use ledger_sovereign.Codes.Wire.{flag_byte}
use ledger_sovereign.Protocol.{version_text}
use ledger_sovereign.Apdu.{dispatch, handle_get_version, handle_apdu, version_bytes, byte_of}
use ledger_sovereign.Apdu.Report.{thrown_code_replies, take-copy_into}
use ledger_sovereign.Apdu.Frame.{Holds}

-- The twelve bytes against docs/APDUSPEC.md.
pub version_bytes_lem :
    {B : Type 0} (p : Platform B) (now : Moment) → version_bytes p now ≡ version_text p now
version_bytes_lem p now =
    let low : (n : ℕ) → byte_of n 0 ≡ n % 256 = λ n. omega arith in
    let second : (n : ℕ) → byte_of n 1 ≡ n / 256 % 256 = λ n. omega arith in
    let third : (n : ℕ) → byte_of n 2 ≡ n / 256 / 256 % 256 = λ n. omega arith in
    let top : (n : ℕ) → byte_of n 3 ≡ n / 256 / 256 / 256 % 256 = λ n. omega arith in
    λ i.
      mode p.testing i
      ∷ second p.major_version i
      ∷ low p.major_version i
      ∷ second p.minor_version i
      ∷ low p.minor_version i
      ∷ second p.patch_version i
      ∷ low p.patch_version i
      ∷ lock now.ux_allowed i
      ∷ top p.target_id i
      ∷ third p.target_id i
      ∷ second p.target_id i
      ∷ low p.target_id i
      ∷ []
  where
    mode : (b : Bool) → ◌≡◌ {A = ℕ} (if b then 1 else 0) (flag_byte b)
    mode true = refl
    mode false = refl

    lock : (b : Bool) → ◌≡◌ {A = ℕ} (if b then 0 else 1) (flag_byte (not b))
    lock true = refl
    lock false = refl

module _ {B : Type 0} (p : Platform B) (now : Moment) {d : Device B} {p1 p2 l : ℕ}
    {payload rest : List ℕ} (holds : Holds d cla ins_get_version p1 p2 l payload rest)
    (long : p.apdu_min_length ≤ 5 + length payload) where
  version_dispatch : dispatch p now (5 + length payload) d ≡ handle_get_version p now d
  unfolding dispatch throw_if choose
  version_dispatch =
      let class_byte : get_elem? d.apdu 0 ≡ some cla = rw holds.frame refl in
      let ins_byte : get_elem? d.apdu 1 ≡ some ins_get_version = rw holds.frame refl in
      ground (arith, read_byte_lem d 0 cla class_byte, read_byte_lem d 1 ins_get_version ins_byte)

  -- A version command of at least the minimal length: handleApdu returns, and replies with the test
  -- mode, the three version numbers, the lock state and the target, each number high byte first,
  -- the two flags 0 or 1, and the status word 0x9000. The buffer has room for the reply, its size
  -- fits 32 bits, and the code for success is not that for a reset of the link.
  pub version_replies :
      d.tx ≡ 0
      → 14 ≤ length d.apdu
      → length d.apdu < 2 ^ 32
      → Code.success ≢ p.io_reset
      → let (o, d') = handle_apdu p now (5 + length payload) d in
        (o ≡ returned tt) × (d'.tx ≡ 14) × (take 14 d'.apdu ≡ version_text p now ++ 0x90 ∷ 0 ∷ [])
  unfolding handle_apdu handle_get_version
  version_replies start inside bounded apart =
      let bytes : List ℕ = version_bytes p now in
      let d1 : Device B = record d { apdu = copy_into d.apdu 0 bytes; tx = 12 } in
      let count : (d.tx + 12) % 2 ^ 32 ≡ 12 = omega arith in
      let fits_reply = le→leb 12 (length d.apdu) (omega arith) in
      let throws : dispatch p now (5 + length payload) d ≡ (thrown Code.success, d1) =
        ground (arith, version_dispatch, write_bytes_lem d 0 bytes fits_reply, count) in
      let size = length-copy_into d.apdu 0 bytes in
      let (done, sent, reply) =
        thrown_code_replies p Code.success d1 apart (omega (arith, size)) (omega (arith, size)) in
      let front : take 12 (copy_into d.apdu 0 bytes) ≡ bytes =
        take-copy_into d.apdu 0 bytes (omega arith) in
      rw throws
        (done, sent, reply ∙ rw front refl ∙ ap (λ l. l ++ 0x90 ∷ 0 ∷ []) (version_bytes_lem p now))
