-- ===== src/Protocol/Sign.antt =====
-- handleSign against its verdict.
use mathlib.Core.Path.{subst}
use ledger_sovereign.Protocol.Chunk.{complete_over, le_trans_lt, flash-lt, upload_over, chunk_codes}
use ledger_sovereign.Base.{
  ap, ◌∙◌, ◌<◌, ℕ, ◌+◌, ◌^◌, ◌≡◌, ◌≢◌, ◌≤◌, refl, arith, none, List, [], ◌∷◌, bit_or, length, true,
  false, Bool,
}
use ledger_sovereign.Base.Memory.{length-copy_into}
use ledger_sovereign.Base.Text.{codes}
use ledger_sovereign.Codes.Code
use ledger_sovereign.Platform.{Platform, IsSane, Keeps}
use ledger_sovereign.Tx.{flash_buffer_size, tx_get_buffer}
use ledger_sovereign.Tx.Parse.{Shows, after_parse, tx_parse_accepts}
use ledger_sovereign.Device.{Device, Outcome, returned}
use ledger_sovereign.Apdu.{process_chunk, handle_sign}
use ledger_sovereign.Apdu.Frame.{Holds}
use ledger_sovereign.Apdu.Report.{take-copy_into}
use ledger_sovereign.Apdu.Sign.{sign_refused, sign_more, sign_review, sign_empty}
use ledger_sovereign.Apdu.Upload.{Upload, Answer, more, complete, refused, chunk}
use ledger_sovereign.Apdu.Refine.{Answers, Uploading, upload, process_chunk-Refines}
use ledger_sovereign.Protocol.{sign_verdict, sign_answer, message_verdict}
use ledger_sovereign.Protocol.Kept.{SameReply, process_chunk-SameReply}
use ledger_sovereign.Protocol.Reply.{Fresh, Yields, resets, plain_Yields}

module _ {B : Type 0} (p : Platform B) (sane : IsSane p.build) {d : Device B} (fresh : Fresh p d)
    (rx : ℕ) where
  -- The chunk has run into `d1`.
  module _ (d1 : Device B) (same : SameReply d d1) where
    size_kept : length d1.apdu ≡ p.apdu_size
    size_kept = ap length same.apdu ∙ fresh.size

    still-Fresh : Fresh p d1
    still-Fresh = record {
      tx = same.tx ∙ fresh.tx;
      flags = same.flags ∙ fresh.flags;
      review = same.review ∙ fresh.review;
      size = size_kept;
    }

    message_Yields :
        (u : Upload) (path message : List ℕ)
        → process_chunk p rx d ≡ (returned true, d1)
        → upload p d1 ≡ u
        → d1.tx_initialized ≡ false
        → d1.hd_path ≡ path
        → tx_get_buffer p.buffering d1.txs ≡ message
        → length message < 2 ^ 16
        → Yields p (u, message_verdict path message) (handle_sign p rx d)
    message_Yields u path [] h up over same_path bytes short =
        let text : List ℕ = codes "Initialized empty context" in
        let wide : 260 ≤ p.apdu_size = sane.room in
        let inside : 25 ≤ length d1.apdu = omega (arith, size_kept) in
        let brief : length (tx_get_buffer p.buffering d1.txs) < 2 ^ 16 = rw bytes short in
        rw (sign_empty p rx d d1 h brief bytes (omega arith) inside) (
          refl,
          resets p sane Code.data_invalid (omega arith),
          up,
          same.review ∙ fresh.review,
          same.flags ∙ fresh.flags,
          omega (arith, same.tx, fresh.tx),
          take-copy_into d1.apdu 0 text inside,
          length-copy_into d1.apdu 0 text ∙ size_kept,
          omega arith,
        )
    message_Yields u path (m ∷ message) h up over same_path bytes short =
        let brief : length (tx_get_buffer p.buffering d1.txs) < 2 ^ 16 = rw bytes short in
        let filled : tx_get_buffer p.buffering d1.txs ≢ [] = λ e. cc (bytes, e) in
        rw (sign_review p rx d d1 h brief filled) (
          refl,
          up,
          ap (λ n. bit_or n p.io_asynch_reply) (same.flags ∙ fresh.flags),
          (
            refl,
            same_path,
            bytes,
            subst (Shows (after_parse p.buffering d1.txs)) bytes
                (tx_parse_accepts p.buffering p.format d1.txs brief filled).1,
            size_kept,
          ),
        )

  sign_Yields_at :
      (u : Upload) (a : Answer) (o : Outcome Bool) (d1 : Device B)
      → process_chunk p rx d ≡ (o, d1)
      → SameReply d d1
      → upload p d1 ≡ u
      → Answers p a o d1
      → ((e : ℕ) → a ≡ refused e → e ≢ p.io_reset)
      → ((path message : List ℕ) → a ≡ complete path message → u ≡ none)
      → Yields p (u, sign_verdict a) (handle_sign p rx d)
  sign_Yields_at u more o d1 h same up answers other over =
      plain_Yields p sane u Code.success (handle_sign p rx d) d1
        (resets p sane Code.success (omega arith))
        (sign_more p rx d d1 (h ∙ ap (λ r. (r, d1)) answers)) up (still-Fresh d1 same)
  sign_Yields_at u (complete path message) o d1 h same up answers other over =
      let (done, same_path, bytes, bounded) = answers in
      message_Yields d1 same u path message (h ∙ ap (λ r. (r, d1)) done) up
        (upload_over p d1 (up ∙ over path message refl)) same_path bytes
        (le_trans_lt bounded (flash-lt p.target))
  sign_Yields_at u (refused e) o d1 h same up answers other over =
      plain_Yields p sane u e (handle_sign p rx d) d1 (other e refl)
        (sign_refused p rx d d1 e (h ∙ ap (λ r. (r, d1)) answers)) up (still-Fresh d1 same)

-- The answer to a sign command that passes the PIN check.
pub sign_Yields :
    {B : Type 0} (p : Platform B) (sane : IsSane p.build) (keeps : Keeps p.buffering) {d : Device B}
    {class ins p1 p2 l : ℕ} {payload rest : List ℕ} (holds : Holds d class ins p1 p2 l payload rest)
    → Fresh p d
    → Uploading p d
    → Yields p
        (sign_answer (chunk (flash_buffer_size p.target) (upload p d) p1 payload))
        (handle_sign p (5 + length payload) d)
sign_Yields p sane keeps {d} {p1 = p1} {payload = payload} holds fresh ready =
    let rx : ℕ = 5 + length payload in
    let room : ℕ = flash_buffer_size p.target in
    let u : Upload = upload p d in
    let (up, answers, _) = process_chunk-Refines p keeps holds ready in
    sign_Yields_at p sane fresh rx (chunk room u p1 payload).0 (chunk room u p1 payload).1
      (process_chunk p rx d).0 (process_chunk p rx d).1 refl (process_chunk-SameReply p rx d) up
      answers (λ e h. resets p sane e (chunk_codes room u p1 payload e h))
      (λ path message h. complete_over room p1 payload u path message h)
