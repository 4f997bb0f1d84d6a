-- ===== src/Session/Endings.antt =====
-- How the callbacks leave the APDU buffer, and approval when the message cannot be signed.
use ledger_sovereign.Base.{
  take_long, ℕ, ◌+◌, ◌-◌, ◌^◌, ◌%◌, ◌<◌, ◌≡◌, ◌≢◌, ◌≤◌, none, some, List, [], ◌∷◌, length, take,
  replicate, sym, ◌∙◌, arith,
}
use ledger_sovereign.Base.Memory.{copy_into, memzero, length-copy_into}
use ledger_sovereign.Codes.Code
use ledger_sovereign.Platform.{Platform, WritesSizes, WritesTexts}
use ledger_sovereign.Tx.{tx_get_buffer}
use ledger_sovereign.Device.{Device, Moment}
use ledger_sovereign.Actions.{app_sign, app_reject, app_reply_address}
use ledger_sovereign.Apdu.Report.{take-copy_into}
use ledger_sovereign.Crypto.Signing.{signature_of, crypto_sign_lem}
use ledger_sovereign.Session.Approval.{filled_length}

module _ {B : Type 0} (p : Platform B) (now : Moment) (d : Device B) (texts : WritesTexts p.format)
    (inside : 260 ≤ length d.apdu) where
  pub reject_size : length (app_reject p now d).1.apdu ≡ length d.apdu
  unfolding app_reject
  reject_size =
      let zeros : List ℕ = memzero d.apdu p.apdu_size in
      let size = length-copy_into d.apdu 0 (replicate p.apdu_size 0) in
      let word : List ℕ = 0x69 ∷ 0x86 ∷ [] in
      ground (
        arith,
        texts.code zeros 0 Code.command_not_allowed (omega (arith, size)),
        length-copy_into zeros 0 word,
        size,
      )

  pub reply_address_size :
      d.addr_response_len + 2 ≤ length d.apdu
      → length (app_reply_address p now d).1.apdu ≡ length d.apdu
  unfolding app_reply_address
  reply_address_size h =
      let word : List ℕ = 0x90 ∷ 0 ∷ [] in
      ground (
        arith,
        texts.code d.apdu d.addr_response_len Code.success h,
        length-copy_into d.apdu d.addr_response_len word,
      )

  module _ (laws : WritesSizes p.cx) (stack : length now.stack ≡ p.private_key_size)
      (room : 260 ≤ p.apdu_size) (filled : tx_get_buffer p.buffering d.txs ≢ [])
      (short : length (tx_get_buffer p.buffering d.txs) < 2 ^ 16) where
    abbrev message : List ℕ
    message = tx_get_buffer p.buffering d.txs

    abbrev count : ℕ
    count = length message % 2 ^ 16

    whole : take count message ≡ message
    whole = take_long count message (omega arith)

    nonzero : count ≢ 0
    nonzero e =
        let low : count ≡ length message = omega arith in filled_length message filled (sym low ∙ e)

    -- Approval of a message that is not empty and whose size fits 16 bits, where the libraries have
    -- no key for hdPath or no signature of the message: the reply is APDU_CODE_SIGN_VERIFY_ERROR and
    -- no other byte, and the APDU buffer keeps its size. The buffer has room for the largest frame,
    -- and what the library writes has its documented sizes and texts.
    pub app_sign_fails :
        signature_of p.cx d.hd_path message (p.apdu_size - 3) ≡ none
        → ((app_sign p now d).0 ≡ 0x6F ∷ 0x01 ∷ [])
          × (length (app_sign p now d).1.apdu ≡ length d.apdu)
    unfolding app_sign
    app_sign_fails failed =
        let zeros : List ℕ = memzero d.apdu (p.apdu_size - 3) in
        let size = length-copy_into d.apdu 0 (replicate (p.apdu_size - 3) 0) in
        let word : List ℕ = 0x6F ∷ 0x01 ∷ [] in
        let inside2 : 2 ≤ length zeros = omega (arith, size) in
        let signs =
          crypto_sign_lem p.cx laws d.hd_path now.stack stack d.apdu message (p.apdu_size - 3) count
            (omega arith) nonzero in
        ground (
          arith,
          signs,
          whole,
          texts.code zeros 0 Code.sign_verify_error inside2,
          take-copy_into zeros 0 word inside2,
          length-copy_into zeros 0 word,
          size,
        )

    pub app_sign_size :
        (s : List ℕ)
        → signature_of p.cx d.hd_path message (p.apdu_size - 3) ≡ some s
        → length (app_sign p now d).1.apdu ≡ length d.apdu
    unfolding app_sign
    app_sign_size s signed =
        let signs =
          crypto_sign_lem p.cx laws d.hd_path now.stack stack d.apdu message (p.apdu_size - 3) count
            (omega arith) nonzero in
        let size = length-copy_into d.apdu 0 s in
        let word : List ℕ = 0x90 ∷ 0 ∷ [] in
        ground (
          arith,
          signs,
          whole,
          texts.code (copy_into d.apdu 0 s) 64 Code.success (omega (arith, size)),
          length-copy_into (copy_into d.apdu 0 s) 64 word,
          size,
        )
