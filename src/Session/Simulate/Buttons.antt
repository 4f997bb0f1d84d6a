-- ===== src/Session/Simulate/Buttons.antt =====
-- The buttons of a review, on the device and on the machine.
use ledger_sovereign.Base.{
  ℕ, ◌+◌, ◌-◌, ◌≡◌, ◌≤◌, ap, sym, ◌∙◌, Option, none, some, List, [], ◌∷◌, ◌++◌, length, take, arith,
  if◌then◌else◌, Option-cases, inl, inr,
}
use ledger_sovereign.Platform.{Platform}
use ledger_sovereign.Tx.{tx_get_buffer}
use ledger_sovereign.Device.{Device, Moment}
use ledger_sovereign.Crypto.Signing.{signature_of}
use ledger_sovereign.Actions.{app_sign, app_reject, app_reply_address}
use ledger_sovereign.Apdu.Upload.{Upload}
use ledger_sovereign.Apdu.Refine.{upload}
use ledger_sovereign.Protocol.Chunk.{le_trans_lt, flash-lt}
use ledger_sovereign.Protocol.Laws.{IsSound, IsUsual}
use ledger_sovereign.Protocol.Machine.{waiting, asking_address, asking_sign, signed_reply}
use ledger_sovereign.Session.Reviews.{
  Ended, Ended→Safe, sign_Ended, reject_Ended, reply_address_Ended,
}
use ledger_sovereign.Session.Approval.{app_sign_replies}
use ledger_sovereign.Session.Replies.{app_reject_replies, app_reply_address_replies}
use ledger_sovereign.Session.Endings.{
  reject_size, reply_address_size, app_sign_fails, app_sign_size,
}
use ledger_sovereign.Session.Trace.{replied}
use ledger_sovereign.Session.Simulate.{Steady, Matches, Follows}

module _ {B : Type 0} (p : Platform B) (sound : IsSound p) where
  -- A button press ends the question, and the upload is as before.
  button-Matches :
      (u : Upload) (d d' : Device B)
      → Steady p u d
      → Ended d d'
      → length d'.apdu ≡ length d.apdu
      → Matches p d' (waiting u)
  button-Matches u d d' (safe, size, up) ended same =
      let (off, same_path, same_txs, idle) = ended in
      let kept : upload p d' ≡ upload p d =
        λ i. if off i then some (same_path i, tx_get_buffer p.buffering (same_txs i)) else none in
      ((Ended→Safe p d d' ended safe, same ∙ size, kept ∙ up), idle)

  pub reject-Follows :
      (u : Upload) (d : Device B) (now : Moment)
      → Steady p u d
      → Follows p (replied (app_reject p now d)) (some (0x69 ∷ 0x86 ∷ []), waiting u)
  reject-Follows u d now (safe, size, up) =
      let room : 260 ≤ p.apdu_size = sound.sane.room in
      (
        ap some (app_reject_replies p now d sound.texts (omega arith)).0,
        button-Matches u d (app_reject p now d).1 (safe, size, up) (reject_Ended p now d)
            (reject_size p now d sound.texts (omega arith)),
      )

  pub address-Follows :
      (u : Upload) (d : Device B) (now : Moment) (shown : List ℕ)
      → Matches p d (asking_address u shown)
      → Follows p (replied (app_reply_address p now d)) (some (shown ++ 0x90 ∷ 0 ∷ []), waiting u)
  address-Follows u d now shown ((safe, size, up), on, count, front, room, displays) =
      let wide : 260 ≤ p.apdu_size = sound.sane.room in
      let inside : d.addr_response_len + 2 ≤ length d.apdu = omega arith in
      let said = (app_reply_address_replies p now d sound.texts inside).0 in
      (
        ap some (
            said
            ∙ ap (λ n. take n d.apdu ++ 0x90 ∷ 0 ∷ []) count
            ∙ ap (λ l. l ++ 0x90 ∷ 0 ∷ []) front),
        button-Matches u d (app_reply_address p now d).1 (safe, size, up)
            (reply_address_Ended p now d)
            (reply_address_size p now d sound.texts (omega arith) inside),
      )

  pub sign-Follows :
      (u : Upload) (d : Device B) (now : Moment) (path message : List ℕ)
      → Matches p d (asking_sign u path message)
      → IsUsual p now
      → Follows p
          (replied (app_sign p now d))
          (some (signed_reply (signature_of p.cx path message (p.apdu_size - 3))), waiting u)
  sign-Follows u d now path message ((safe, size, up), on, same_path, bytes) usual =
      let wide : 260 ≤ p.apdu_size = sound.sane.room in
      let (ours, filled, bounded, shown) = safe.2 on in
      let short = le_trans_lt bounded (flash-lt p.target) in
      let room : ℕ = p.apdu_size - 3 in
      let mine : Option (List ℕ) =
        signature_of p.cx d.hd_path (tx_get_buffer p.buffering d.txs) room in
      let same : mine ≡ signature_of p.cx path message room =
        λ i. signature_of p.cx (same_path i) (bytes i) room in
      let ended = sign_Ended p now d in
      elim (Option-cases mine) [
        | inl none_made ↦
            let (said, kept) =
              app_sign_fails p now d sound.texts (omega arith) sound.sizes usual.stack_size wide
                filled short none_made in
            (
              ap some (said ∙ ap signed_reply (sym none_made ∙ same)),
              button-Matches u d (app_sign p now d).1 (safe, size, up) ended kept,
            )
        | inr (s, made) ↦
            let said =
              app_sign_replies p now d s sound.sizes sound.texts usual.stack_size wide (omega arith)
                filled short made in
            let kept =
              app_sign_size p now d sound.texts (omega arith) sound.sizes usual.stack_size wide
                filled short s made in
            (
              ap some (said ∙ ap signed_reply (sym made ∙ same)),
              button-Matches u d (app_sign p now d).1 (safe, size, up) ended kept,
            )
      ]
