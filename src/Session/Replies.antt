-- ===== src/Session/Replies.antt =====
-- The replies of the other callbacks of app/src/common/actions.h.
use ledger_sovereign.Base.{
  ℕ, ◌+◌, ◌≡◌, ◌≤◌, none, List, [], ◌∷◌, ◌++◌, length, take, arith, replicate,
}
use ledger_sovereign.Base.Memory.{memzero, length-copy_into}
use ledger_sovereign.Codes.Code
use ledger_sovereign.Platform.{Platform, WritesTexts}
use ledger_sovereign.Device.{Device, Moment}
use ledger_sovereign.Actions.{app_reject, app_reply_address}
use ledger_sovereign.Apdu.Report.{take-copy_into}

module _ {B : Type 0} (p : Platform B) (now : Moment) (d : Device B)
    (texts : WritesTexts p.format) where
  -- When the library writes a code as two bytes, and the answer of the address command with its
  -- status word fits the buffer: app_reply_address replies with that answer and 0x9000, and the
  -- review ends.
  pub app_reply_address_replies :
      d.addr_response_len + 2 ≤ length d.apdu
      → ((app_reply_address p now d).0 ≡ take d.addr_response_len d.apdu ++ 0x90 ∷ 0 ∷ [])
        × ((app_reply_address p now d).1.review ≡ none)
  unfolding app_reply_address
  app_reply_address_replies inside =
      let word : List ℕ = 0x90 ∷ 0 ∷ [] in
      ground (
        arith,
        texts.code d.apdu d.addr_response_len Code.success inside,
        take-copy_into d.apdu d.addr_response_len word inside,
      )

  -- When the library writes a code as two bytes, and the buffer holds two bytes: app_reject replies
  -- with APDU_CODE_COMMAND_NOT_ALLOWED and no other byte, and the review ends.
  pub app_reject_replies :
      2 ≤ length d.apdu
      → ((app_reject p now d).0 ≡ 0x69 ∷ 0x86 ∷ []) × ((app_reject p now d).1.review ≡ none)
  unfolding app_reject
  app_reject_replies inside =
      let zeros : List ℕ = memzero d.apdu p.apdu_size in
      let word : List ℕ = 0x69 ∷ 0x86 ∷ [] in
      let room : 2 ≤ length zeros =
        omega (arith, length-copy_into d.apdu 0 (replicate p.apdu_size 0)) in
      ground
        (arith, texts.code zeros 0 Code.command_not_allowed room, take-copy_into zeros 0 word room)
