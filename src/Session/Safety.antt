-- ===== src/Session/Safety.antt =====
-- The invariant of handleApdu (app/src/apdu_handler.c) between any two events, and the commands
-- that do not touch the message.
use ledger_sovereign.Base.{ℕ, ◌≤◌, ◌≡◌, ◌≢◌, true, false, none, some, List, [], arith, length}
use ledger_sovereign.Platform.{Platform}
use ledger_sovereign.Tx.{TxState, flash_buffer_size, tx_get_buffer}
use ledger_sovereign.Tx.Parse.{Shows}
use ledger_sovereign.Device.{
  Review, Device, Moment, choose, throw_if, read_byte, read_bytes, write_bytes,
}
use ledger_sovereign.Codes.Path.{is_ours}
use ledger_sovereign.Apdu.{extract_hd_path, handle_get_version, handle_get_addr, report}
use ledger_sovereign.Actions.{app_fill_address}

-- A message under review is what will be signed, and for which path.
abbrev pub IsReviewable : {B : Type 0} → Platform B → List ℕ → TxState B → Type 0
IsReviewable p hd_path txs =
    (is_ours hd_path ≡ true)
    × (tx_get_buffer p.buffering txs ≢ [])
    × (length (tx_get_buffer p.buffering txs) ≤ flash_buffer_size p.target)
    × Shows txs (tx_get_buffer p.buffering txs)

abbrev pub IsSafe : {B : Type 0} → Platform B → Device B → Type 0
IsSafe p d =
    (d.tx_initialized ≡ true → is_ours d.hd_path ≡ true)
    × (d.tx_initialized ≡ true → p.capacity d.txs.buffer ≡ flash_buffer_size p.target)
    × (d.review ≡ some Review.transaction → IsReviewable p d.hd_path d.txs)

-- No upload is under way, and no transaction is under review.
abbrev pub IsQuiet : {B : Type 0} → Device B → Type 0
IsQuiet d = (d.tx_initialized ≡ false) × (d.review ≢ some Review.transaction)

pub Quiet→Safe : {B : Type 0} (p : Platform B) (d : Device B) → IsQuiet d → IsSafe p d
Quiet→Safe p d h = (λ e. cc (h.0), λ e. cc (h.0), λ e. absurd (h.1 e))

-- The fields of which the property speaks are unchanged.
abbrev pub SameCore : {B : Type 0} → Device B → Device B → Type 0
SameCore d d' =
    (d'.tx_initialized ≡ d.tx_initialized)
    × (d'.hd_path ≡ d.hd_path)
    × (d'.txs ≡ d.txs)
    × (d'.review ≡ d.review)

pub read_byte_state : {B : Type 0} (i : ℕ) (d : Device B) → (read_byte i d).1 ≡ d
unfolding read_byte
read_byte_state i d = ground arith

module _ {B : Type 0} (p : Platform B) (now : Moment) (d : Device B) where
  pub version_core : SameCore d (handle_get_version p now d).1
  unfolding handle_get_version write_bytes
  version_core = ground arith

  pub report_core : (e : ℕ) → SameCore d (report p e d).1
  unfolding report write_bytes choose
  report_core e = ground arith

  extract_core :
      (rx offset : ℕ)
      → let d' = (extract_hd_path rx offset d).1 in
        (d'.tx_initialized ≡ false) × (d'.review ≡ d.review)
  unfolding extract_hd_path throw_if read_bytes
  extract_core rx offset = ground arith

  fill_core_at :
      (d : Device B)
      → let d' = (app_fill_address p now d).1 in
        (d'.tx_initialized ≡ d.tx_initialized) × (d'.review ≡ d.review)
  unfolding app_fill_address throw_if
  fill_core_at d = ground arith

  -- An address command ends the upload before anything else, and reviews no transaction.
  pub get_addr_IsQuiet : (rx : ℕ) → d.review ≡ none → IsQuiet (handle_get_addr p now rx d).1
  unfolding handle_get_addr choose
  get_addr_IsQuiet rx idle =
      let d1 = (extract_hd_path rx 5 d).1 in
      let d2 = (read_byte 2 d1).1 in
      ground (arith, extract_core rx 5, read_byte_state 2 d1, fill_core_at d2)
