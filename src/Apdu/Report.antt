-- ===== src/Apdu/Report.antt =====
-- The CATCH clauses: the status word, and where it stands in the reply.
use ledger_sovereign.Base.{
  ℕ, zero, suc, ◌+◌, ◌^◌, ◌/◌, ◌%◌, ◌<◌, ◌≡◌, ◌≢◌, ◌≤◌, false, List, [], ◌∷◌, ◌++◌, ◌==◌, length,
  take, refl, sym, ap, arith, le→leb, drop, leb, if◌then◌else◌, Bool-cases, inl, inr, ◌∙◌, leb→le,
}
use ledger_sovereign.Base.Bits.{bit_and_top, bit_or_status}
use ledger_sovereign.Base.Memory.{copy_into}
use ledger_sovereign.Platform.{Platform}
use ledger_sovereign.Device.{Device, Outcome, returned, thrown, fault, throw, write_bytes}
use ledger_sovereign.Device.Rules.{write_bytes_lem, choose-false, choose-true}
use ledger_sovereign.Codes.Wire.{status, status_of, big_endian}
use ledger_sovereign.Apdu.{word_for, status_word, byte_of, write_status, report, catch_code}

-- The status word against the specification of the codes.
word_for-status_of : (e : ℕ) → e < 2 ^ 16 → word_for e ≡ status_of e
unfolding word_for
word_for-status_of e h =
    let low : e % 2048 < 2048 = omega arith in
    let digit : e / 4096 < 16 = omega arith in
    ground (arith, bit_and_top e h, bit_or_status (e % 2048) low)

pub status_word_lem : (e : ℕ) → status_word e ≡ status e
unfolding status_word
status_word_lem e = word_for-status_of (e % 2 ^ 16) (omega arith)

pub take-copy_into :
    (xs : List ℕ) (i : ℕ) (src : List ℕ)
    → i + length src ≤ length xs
    → take (i + length src) (copy_into xs i src) ≡ take i xs ++ src
take-copy_into [] i [] h = ground arith
take-copy_into [] i (y ∷ src) h = absurd (omega arith)
take-copy_into (x ∷ xs) zero [] h = refl
take-copy_into (x ∷ xs) zero (y ∷ src) h =
    let e : 0 + length (y ∷ src) ≡ suc (0 + length src) = omega arith in
    rw e (ap (λ l. y ∷ l) (take-copy_into xs zero src (omega arith)))
take-copy_into (x ∷ xs) (suc i) src h =
    let e : suc i + length src ≡ suc (i + length src) = omega arith in
    rw e (ap (λ l. x ∷ l) (take-copy_into xs i src (omega arith)))

splice :
    (xs : List ℕ) (i : ℕ) (src : List ℕ)
    → i + length src ≤ length xs
    → copy_into xs i src ≡ take i xs ++ (src ++ drop (i + length src) xs)
splice [] zero [] h = refl
splice [] zero (y ∷ src) h = absurd (omega arith)
splice [] (suc i) src h = absurd (omega arith)
splice (x ∷ xs) zero [] h = refl
splice (x ∷ xs) zero (y ∷ src) h =
    let e : 0 + length (y ∷ src) ≡ suc (0 + length src) = omega arith in
    rw e (ap (λ l. y ∷ l) (splice xs zero src (omega arith)))
splice (x ∷ xs) (suc i) src h =
    let e : suc i + length src ≡ suc (i + length src) = omega arith in
    rw e (ap (λ l. x ∷ l) (splice xs i src (omega arith)))

-- What becomes of a device whose command has thrown a code.
abbrev pub caught : {B : Type 0} → Platform B → ℕ → Device B → Outcome (Unit {0}) × Device B
caught p e d =
    if e == p.io_reset
    then (thrown e, d)
    else (if leb (d.tx + 2) (length d.apdu)
        then (
          returned tt,
          record d {
            apdu = take d.tx d.apdu ++ (big_endian 2 (status e) ++ drop (d.tx + 2) d.apdu);
            tx = d.tx + 2;
          },
        )
        else (fault, d))

-- A code that is thrown out of a command, whatever it is and however long the reply so far, in a
-- buffer whose size fits 32 bits. A reset of the link goes on, and the device is as it was. For any
-- other code, two bytes at `*tx` become its status word, the high byte first, all other bytes of the
-- buffer and all other globals stay, `*tx` grows by two, and handleApdu returns; where the two bytes
-- are not inside the buffer, the write is a fault. For a code of the classes 0x6 and 0x9 the status
-- word is the code, for any other it is 0x6800 and the lowest eleven bits.
pub catch_code_lem :
    {B : Type 0} (p : Platform B) (e : ℕ) (d : Device B)
    → length d.apdu < 2 ^ 32
    → catch_code p (thrown e, d) ≡ caught p e d
unfolding catch_code report write_bytes
catch_code_lem p e d bounded =
    let w : ℕ = status_word e in
    let word : List ℕ = byte_of w 1 ∷ byte_of w 0 ∷ [] in
    let spec : w ≡ status e = status_word_lem e in
    let low : (n : ℕ) → byte_of n 0 ≡ n % 256 = λ n. omega arith in
    let bytes : word ≡ big_endian 2 (status e) =
      λ i. byte_of (spec i) 1 ∷ (ap (λ v. byte_of v 0) spec ∙ low (status e)) i ∷ [] in
    elim (Bool-cases (e == p.io_reset)) [
      | inl reset ↦
          let same : e ≡ p.io_reset = ground arith in
          choose-true (throw p.io_reset) (write_status p e) d reset
          ∙ ap (λ v. (thrown v, d)) (sym same)
          ∙ rw reset refl
      | inr other ↦
          choose-false (throw p.io_reset) (write_status p e) d other
          ∙ elim (Bool-cases (leb (d.tx + 2) (length d.apdu))) [
            | inl inside ↦
                let next : (d.tx + 2) % 2 ^ 32 ≡ d.tx + 2 = ground arith in
                let spliced = splice d.apdu d.tx word (leb→le (d.tx + 2) (length d.apdu) inside) in
                let text : copy_into d.apdu d.tx word
                    ≡ take d.tx d.apdu ++ (big_endian 2 (status e) ++ drop (d.tx + 2) d.apdu) =
                  spliced ∙ ap (λ l. take d.tx d.apdu ++ (l ++ drop (d.tx + 2) d.apdu)) bytes in
                ground (arith, write_bytes_lem d d.tx word inside, text, next, other, inside)
            | inr outside ↦ ground (arith, other, outside)
          ]
    ]

-- A code that is thrown out of a command and is no reset of the link, where two bytes fit behind the
-- reply in a buffer whose size fits 32 bits: handleApdu returns, and the reply is what stood in its
-- `*tx` bytes, followed by the two bytes of the status word, the high one first. For a code of the
-- classes 0x6 and 0x9 the word is the code, for any other it is 0x6800 and the lowest eleven bits.
pub thrown_code_replies :
    {B : Type 0} (p : Platform B) (e : ℕ) (d : Device B)
    → e ≢ p.io_reset
    → d.tx + 2 ≤ length d.apdu
    → length d.apdu < 2 ^ 32
    → let (o, d') = catch_code p (thrown e, d) in
      (o ≡ returned tt)
      × (d'.tx ≡ d.tx + 2)
      × (take (d.tx + 2) d'.apdu
          ≡ take d.tx d.apdu ++ status e / 2 ^ 8 % 2 ^ 8 ∷ status e % 2 ^ 8 ∷ [])
unfolding catch_code report
thrown_code_replies p e d other inside bounded =
    let w : ℕ = status_word e in
    let word : List ℕ = byte_of w 1 ∷ byte_of w 0 ∷ [] in
    let spec : w ≡ status e = status_word_lem e in
    let whole : w / 1 ≡ w = omega arith in
    let apart : (e == p.io_reset) ≡ false = ground arith in
    let next : (d.tx + 2) % 2 ^ 32 ≡ d.tx + 2 = omega arith in
    ground (
      arith,
      choose-false (throw p.io_reset) (write_status p e) d apart,
      write_bytes_lem d d.tx word (le→leb (d.tx + 2) (length d.apdu) inside),
      take-copy_into d.apdu d.tx word inside,
      whole,
      next,
      spec,
    )
