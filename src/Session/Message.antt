-- ===== src/Session/Message.antt =====
-- The sign command, from a state in which no review is on the screen.
use ledger_sovereign.Base.{
  ℕ, ◌+◌, ◌≤◌, ◌≡◌, ◌≢◌, refl, Bool, true, false, none, some, List, [], ◌∷◌, arith, ◌⊎◌, length,
  inl, inr,
}
use ledger_sovereign.Base.Text.{codes}
use ledger_sovereign.Platform.{Platform, Keeps}
use ledger_sovereign.Tx.{flash_buffer_size, tx_get_buffer}
use ledger_sovereign.Tx.Parse.{after_parse, tx_parse_empty, tx_parse_accepts}
use ledger_sovereign.Device.{Device, Outcome, returned, thrown, fault, throw_if, write_bytes}
use ledger_sovereign.Apdu.Sign.{sign_refused, sign_more, sign_review}
use ledger_sovereign.Apdu.Frame.{Holds}
use ledger_sovereign.Apdu.Upload.{Upload, Answer, more, complete, refused, chunk}
use ledger_sovereign.Apdu.Refine.{Answers, Uploading, upload, process_chunk-Refines}
use ledger_sovereign.Codes.Path.{is_ours}
use ledger_sovereign.Apdu.{process_chunk, handle_sign, conclude_sign, parse_message}
use ledger_sovereign.Session.Safety.{IsSafe, IsQuiet, Quiet→Safe}
use ledger_sovereign.Base.{◌∙◌}
use ledger_sovereign.Protocol.Kept.{process_chunk-SameReply}
use ledger_sovereign.Protocol.Chunk.{
  complete_path, complete_over, le_trans_lt, flash-lt, upload_over, upload_ours,
}

empty-cases : (xs : List ℕ) → (xs ≡ []) ⊎ (xs ≢ [])
empty-cases [] = inl refl
empty-cases (x ∷ xs) = inr (λ e. cc)

module _ {B : Type 0} (p : Platform B) where
  answer_ready :
      (a : Answer) (o : Outcome Bool) (d1 : Device B)
      → Answers p a o d1
      → ((path message : List ℕ)
          → a ≡ complete path message
          → (is_ours path ≡ true) × (d1.tx_initialized ≡ false))
      → o ≡ returned true
      → (d1.tx_initialized ≡ false)
        × (is_ours d1.hd_path ≡ true)
        × (length (tx_get_buffer p.buffering d1.txs) ≤ flash_buffer_size p.target)
  answer_ready more o d1 h ours e = cc
  answer_ready (complete path message) o d1 (_, same, bytes, short) ours e =
      let (main, over) = ours path message refl in (over, rw same main, rw bytes short)
  answer_ready (refused code) o d1 h ours e = cc

module _ {B : Type 0} (p : Platform B) (rx : ℕ) (d : Device B) where
  -- Nothing is under review behind the chunk, so a run that stops there is safe.
  stopped_IsSafe : (d1 : Device B) → Uploading p d1 → d1.review ≡ none → IsSafe p d1
  stopped_IsSafe d1 u idle = (u.path, u.bounded, λ e. cc)

  sign_fault :
      (d1 : Device B) → process_chunk p rx d ≡ (fault, d1) → handle_sign p rx d ≡ (fault, d1)
  unfolding handle_sign
  sign_fault d1 h = ground arith

  conclude_core :
      (text : List ℕ) (d1 : Device B)
      → let d2 = (conclude_sign p (some text) d1).1 in
        (d2.tx_initialized ≡ d1.tx_initialized) × (d2.review ≡ d1.review)
  unfolding conclude_sign write_bytes
  conclude_core text d1 = ground arith

  -- An empty message is not reviewed.
  empty_IsQuiet :
      (d1 : Device B)
      → process_chunk p rx d ≡ (returned true, d1)
      → tx_get_buffer p.buffering d1.txs ≡ []
      → d1.tx_initialized ≡ false
      → d1.review ≡ none
      → IsQuiet (handle_sign p rx d).1
  unfolding handle_sign throw_if parse_message
  empty_IsQuiet d1 h empty over idle = ground (
    arith,
    tx_parse_empty p.buffering p.format d1.txs (rw empty (omega arith)) empty,
    conclude_core (codes "Initialized empty context")
        (record d1 { txs = after_parse p.buffering d1.txs }),
  )

  -- A message that is not empty is reviewed as it is in the buffer.
  review_IsSafe :
      (d1 : Device B)
      → process_chunk p rx d ≡ (returned true, d1)
      → tx_get_buffer p.buffering d1.txs ≢ []
      → d1.tx_initialized ≡ false
      → is_ours d1.hd_path ≡ true
      → length (tx_get_buffer p.buffering d1.txs) ≤ flash_buffer_size p.target
      → IsSafe p (handle_sign p rx d).1
  review_IsSafe d1 h filled over ours bounded =
      let short = le_trans_lt bounded (flash-lt p.target) in
      rw (sign_review p rx d d1 h short filled) (
        λ e. cc,
        λ e. cc,
        λ _. (ours, filled, bounded, (tx_parse_accepts p.buffering p.format d1.txs short filled).1),
      )

  sign_IsSafe_by :
      (o : Outcome Bool) (d1 : Device B)
      → process_chunk p rx d ≡ (o, d1)
      → Uploading p d1
      → d1.review ≡ none
      → (o ≡ returned true
          → (d1.tx_initialized ≡ false)
            × (is_ours d1.hd_path ≡ true)
            × (length (tx_get_buffer p.buffering d1.txs) ≤ flash_buffer_size p.target))
      → IsSafe p (handle_sign p rx d).1
  sign_IsSafe_by (thrown e) d1 h u idle last =
      rw (sign_refused p rx d d1 e h) (stopped_IsSafe d1 u idle)
  sign_IsSafe_by fault d1 h u idle last = rw (sign_fault d1 h) (stopped_IsSafe d1 u idle)
  sign_IsSafe_by (returned false) d1 h u idle last =
      rw (sign_more p rx d d1 h) (stopped_IsSafe d1 u idle)
  sign_IsSafe_by (returned true) d1 h u idle last =
      let (over, ours, bounded) = last refl in
      elim (empty-cases (tx_get_buffer p.buffering d1.txs)) [
        | inl empty ↦ Quiet→Safe p (handle_sign p rx d).1 (empty_IsQuiet d1 h empty over idle)
        | inr filled ↦ review_IsSafe d1 h filled over ours bounded
      ]

  -- What a sign command leaves behind is safe again.
  sign_IsSafe_at :
      (u : Upload) (a : Answer)
      → (upload p (process_chunk p rx d).1 ≡ u)
        × Answers p a (process_chunk p rx d).0 (process_chunk p rx d).1
        × Uploading p (process_chunk p rx d).1
      → ((path message : List ℕ) → a ≡ complete path message → (is_ours path ≡ true) × (u ≡ none))
      → d.review ≡ none
      → IsSafe p (handle_sign p rx d).1
  sign_IsSafe_at u a (stands, answers, up) ours idle =
      let d1 = (process_chunk p rx d).1 in
      sign_IsSafe_by (process_chunk p rx d).0 d1 refl up
        ((process_chunk-SameReply p rx d).review ∙ idle)
        (answer_ready p a (process_chunk p rx d).0 d1 answers (λ path message e.
          let (main, over) = ours path message e in (main, upload_over p d1 (stands ∙ over))))

pub sign_IsSafe :
    {B : Type 0} (p : Platform B) (keeps : Keeps p.buffering) {d : Device B} {class ins p1 p2 l : ℕ}
    {payload rest : List ℕ} (holds : Holds d class ins p1 p2 l payload rest)
    → d.review ≡ none
    → IsSafe p d
    → IsSafe p (handle_sign p (5 + length payload) d).1
sign_IsSafe p keeps {d} {p1 = p1} {payload = payload} holds idle (path, bounded, _) =
    let ready : Uploading p d = record { path = path; bounded = bounded } in
    let room = flash_buffer_size p.target in
    let step = chunk room (upload p d) p1 payload in
    sign_IsSafe_at p (5 + length payload) d step.0 step.1
      (process_chunk-Refines p keeps holds ready)
      (λ path message e. (
        complete_path room p1 payload (upload p d) path message (upload_ours p d ready) e,
        complete_over room p1 payload (upload p d) path message e,
      ))
      idle
