-- ===== src/Session/Approval.antt =====
-- app_sign, the callback for approval: what it replies.
use mathlib.Core.Option
use mathlib.Core.Path.{subst}
use ledger_sovereign.Base.{
  take_long, ℕ, ◌-◌, ◌^◌, ◌%◌, ◌<◌, ◌≡◌, ◌≢◌, ◌≤◌, true, false, none, some, List, [], ◌∷◌, ◌++◌,
  length, take, drop, refl, ap, sym, ◌∙◌, arith, take-append_exact, length-append, Option-cases,
  inl, inr, length-drop,
}
use ledger_sovereign.Base.Memory.{copy_into, copy_into_front, copy_into_after, length-copy_into}
use ledger_sovereign.Codes.Code
use ledger_sovereign.Platform.{Platform, Keeps, WritesSizes, WritesTexts}
use ledger_sovereign.Tx.{tx_get_buffer}
use ledger_sovereign.Tx.Parse.{Shows}
use ledger_sovereign.Device.{Review, Device, Moment}
use ledger_sovereign.Actions.{app_sign}
use ledger_sovereign.Codes.Path.{is_ours}
use ledger_sovereign.Crypto.Signing.{signature_of, signing_key, crypto_sign_lem}
use ledger_sovereign.Session.{Reach}
use ledger_sovereign.Protocol.Chunk.{flash-lt, le_trans_lt}
use ledger_sovereign.Session.Reviews.{reviewed_is_signed}

-- Two writes, the second right behind the first, and the reading of both.
signed_bytes :
    (buffer s : List ℕ) (a b : ℕ)
    → length s ≡ 64
    → 66 ≤ length buffer
    → take 66 (copy_into (copy_into buffer 0 s) 64 (a ∷ b ∷ [])) ≡ s ++ a ∷ b ∷ []
signed_bytes buffer s a b hs hb =
    let word : List ℕ = a ∷ b ∷ [] in
    let rest : List ℕ = drop (length s) buffer in
    let room : length word ≤ length rest = omega (arith, length-drop (length s) buffer) in
    let count : 66 ≡ length (s ++ word) = omega (arith, length-append s word) in
    ap (λ l. take 66 (copy_into l 64 word)) (copy_into_front buffer s (omega arith))
    ∙ ap (λ n. take 66 (copy_into (s ++ rest) n word)) (sym hs)
    ∙ ap (λ l. take 66 l) (copy_into_after s rest word room)
    ∙ ap (λ n. take n (s ++ word ++ drop 2 rest)) count
    ∙ take-append_exact (s ++ word) (drop 2 rest)

pub filled_length : (xs : List ℕ) → xs ≢ [] → length xs ≢ 0
filled_length [] h e = h refl
filled_length (x ∷ xs) h e = omega (arith, e)

signature_size :
    {B : Type 0} (p : Platform B) (path message s : List ℕ) (room : ℕ)
    → WritesSizes p.cx
    → signature_of p.cx path message room ≡ some s
    → length s ≡ 64
unfolding Option.bind
signature_size p path message s room laws h = elim (Option-cases (signing_key p.cx path)) [
  | inl e ↦ cc (h, e)
  | inr (key, e) ↦
      laws.signature key message room s
        (subst (λ r. Option.bind r (λ k. p.eddsa_sign k message room) ≡ some s) e h)
]

module _ {B : Type 0} (p : Platform B) (now : Moment) (d : Device B) where
  -- Approval when every call of the library succeeds: the reply is the signature, by the key of
  -- hdPath, of the message in the buffer, and the status word 0x9000. The message is not empty and
  -- its length fits 16 bits, the APDU buffer has room for the largest frame, and what the library
  -- writes has its documented sizes and texts.
  pub app_sign_replies :
      (s : List ℕ)
      → WritesSizes p.cx
      → WritesTexts p.format
      → length now.stack ≡ p.private_key_size
      → 260 ≤ p.apdu_size
      → p.apdu_size ≤ length d.apdu
      → tx_get_buffer p.buffering d.txs ≢ []
      → length (tx_get_buffer p.buffering d.txs) < 2 ^ 16
      → signature_of p.cx d.hd_path (tx_get_buffer p.buffering d.txs) (p.apdu_size - 3) ≡ some s
      → (app_sign p now d).0 ≡ s ++ 0x90 ∷ 0 ∷ []
  unfolding app_sign
  app_sign_replies s laws texts stack_size room inside filled short signed =
      let message : List ℕ = tx_get_buffer p.buffering d.txs in
      let n : ℕ = length message in
      let size : length s ≡ 64 =
        signature_size p d.hd_path message s (p.apdu_size - 3) laws signed in
      let low : n % 2 ^ 16 ≡ n = omega arith in
      let whole : take (n % 2 ^ 16) message ≡ message =
        take_long (n % 2 ^ 16) message (omega arith) in
      let signs =
        crypto_sign_lem p.cx laws d.hd_path now.stack stack_size d.apdu message (p.apdu_size - 3)
          (n % 2 ^ 16) (omega arith) (λ e. filled_length message filled (sym low ∙ e)) in
      ground (
        arith,
        signs,
        whole,
        texts.code (copy_into d.apdu 0 s) 64 Code.success
            (omega (arith, length-copy_into d.apdu 0 s)),
        signed_bytes d.apdu s 0x90 0 size (omega arith),
      )

-- With a buffer that keeps whole appends up to its capacity, and the documented sizes and texts of
-- the library, from a state with no upload and no review, whatever commands and button presses
-- follow: if a
-- transaction is under review and every call of the library succeeds, approval replies with the
-- signature of the message that the screen's context shows, by the key of a path of this
-- application, and the status word 0x9000. The APDU buffer has room for the largest frame.
pub approval_signs_what_is_shown :
    {B : Type 0} (p : Platform B) (now : Moment) (start d : Device B) (s : List ℕ)
    → Keeps p.buffering
    → WritesSizes p.cx
    → WritesTexts p.format
    → length now.stack ≡ p.private_key_size
    → 260 ≤ p.apdu_size
    → p.apdu_size ≤ length d.apdu
    → start.tx_initialized ≡ false
    → start.review ≡ none
    → Reach p start d
    → d.review ≡ some Review.transaction
    → signature_of p.cx d.hd_path (tx_get_buffer p.buffering d.txs) (p.apdu_size - 3) ≡ some s
    → (is_ours d.hd_path ≡ true)
      × Shows d.txs (tx_get_buffer p.buffering d.txs)
      × ((app_sign p now d).0 ≡ s ++ 0x90 ∷ 0 ∷ [])
approval_signs_what_is_shown p now start d s keeps laws texts stack room inside off idle reached
      reviewing signed =
    let (ours, filled, bounded, shown) =
      reviewed_is_signed p keeps start d off idle reached reviewing in
    (
      ours,
      shown,
      app_sign_replies p now d s laws texts stack room inside filled
          (le_trans_lt bounded (flash-lt p.target)) signed,
    )
