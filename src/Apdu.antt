-- ===== src/Apdu.antt =====
-- app/src/apdu_handler.c: the commands. CHECK_APP_CANARY, which acts only on a stack that is
-- already overrun, and the logging are left out.
pub mod Frame
pub mod Path
pub mod Upload
pub mod Chunks
pub mod Refine
pub mod Sign
pub mod Report
pub mod Version
pub mod GetAddr
use ledger_sovereign.Base.{
  ℕ, ◌*◌, ◌/◌, ◌%◌, ◌^◌, bit_and, bit_or, Bool, true, false, not, ◌&&◌, ◌||◌, Option, none, some,
  List, [], ◌∷◌, ltb, ◌==◌, if◌then◌else◌, length, take, get_or,
}
use ledger_sovereign.Base.Memory.{words32}
use ledger_sovereign.Codes.{
  cla, hdpath_len, hdpath_0, hdpath_1, ins_get_version, ins_get_addr, ins_sign, p1_init, p1_add,
  p1_last, offset_cla, offset_ins, offset_p1, offset_data,
}
use ledger_sovereign.Codes.Code
use ledger_sovereign.Platform.{Platform}
use ledger_sovereign.Tx.{tx_initialize, tx_reset, tx_append, tx_parse}
use ledger_sovereign.Device.{
  Review, Device, Moment, Outcome, returned, thrown, fault, Run, ◌>>=◌, ◌>>◌, pure, throw, gets,
  modify, choose, throw_if, read_byte, read_bytes, write_bytes, advance, sub32,
}
use ledger_sovereign.Actions.{is_ok, app_fill_address}

unfoldable pub is_mainnet : List ℕ → Bool
is_mainnet path = get_or path 0 0 == hdpath_0 && get_or path 1 0 == hdpath_1

-- Byte `i` of a number, counted from the lowest: `(x >> 8 * i) & 0xFF`.
abbrev pub byte_of : ℕ → ℕ → ℕ
byte_of x i = x / 2 ^ (8 * i) % 2 ^ 8

-- The status word for a thrown code `e`, a uint16_t.
unfoldable pub word_for : ℕ → ℕ
word_for e =
    if bit_and e 0xF000 == 0x6000 || bit_and e 0xF000 == Code.success
    then e
    else bit_or 0x6800 (e % 2 ^ 11)

-- A throw passes the code as a uint16_t.
unfoldable pub status_word : ℕ → ℕ
unfolding word_for
status_word e = word_for (e % 2 ^ 16)

module _ {B : Type 0} where
  abbrev set_initialized : Bool → Run B (Unit {0})
  set_initialized v = modify (λ d. record d { tx_initialized = v })

  unfoldable pub extract_hd_path : ℕ → ℕ → Run B (Unit {0})
  extract_hd_path rx offset = do
    set_initialized false
    throw_if (ltb (sub32 rx offset) (4 * hdpath_len)) Code.wrong_length
    bytes ← read_bytes offset (4 * hdpath_len)
    modify (λ d. record d { hd_path = words32 bytes })
    mainnet ← gets (λ d. is_mainnet d.hd_path)
    throw_if (not mainnet) Code.data_invalid

module _ {B : Type 0} (p : Platform B) where
  -- tx_append on the payload, and how many bytes it took.
  unfoldable pub append_payload : ℕ → Run B ℕ
  append_payload rx = do
    bytes ← read_bytes offset_data (sub32 rx offset_data)
    added ← gets (λ d. (tx_append p.buffering bytes d.txs).1)
    modify (λ d. record d { txs = (tx_append p.buffering bytes d.txs).0 })
    pure added

  unfoldable pub chunk_init : ℕ → Run B Bool
  chunk_init rx = do
    modify (λ d. record d { txs = tx_initialize p.buffering p.target d.txs })
    modify (λ d. record d { txs = tx_reset p.buffering d.txs })
    extract_hd_path rx offset_data
    set_initialized true
    pure false

  -- The check on the number of bytes taken.
  abbrev pub check_added : ℕ → ℕ → Run B (Unit {0})
  check_added rx added =
      choose (added == sub32 rx offset_data) (pure tt)
        (do set_initialized false; throw Code.output_buffer_too_small)

  unfoldable pub chunk_add : ℕ → Run B Bool
  chunk_add rx = do
    ready ← gets (λ d. d.tx_initialized)
    throw_if (not ready) Code.tx_not_initialized
    added ← append_payload rx
    check_added rx added
    pure false

  unfoldable pub chunk_last : ℕ → Run B Bool
  chunk_last rx = do
    ready ← gets (λ d. d.tx_initialized)
    throw_if (not ready) Code.tx_not_initialized
    added ← append_payload rx
    set_initialized false
    check_added rx added
    set_initialized false
    pure true

  -- True when the last chunk has come.
  unfoldable pub process_chunk : ℕ → Run B Bool
  process_chunk rx = do
    payload_type ← read_byte offset_p1
    throw_if (ltb rx offset_data) Code.wrong_length
    choose (payload_type == p1_init) (chunk_init rx) (
        choose (payload_type == p1_add) (chunk_add rx)
          (choose (payload_type == p1_last) (chunk_last rx) (throw Code.invalid_p1_p2)))

  -- view_review_init, view_review_show and IO_ASYNCH_REPLY.
  abbrev pub start_review : Review → Run B (Unit {0})
  start_review r =
      modify (λ d. record d { review = some r; flags = bit_or d.flags p.io_asynch_reply })

  -- tx_parse on the statics of tx.c.
  unfoldable pub parse_message : Run B (Option (List ℕ))
  parse_message d = elim (tx_parse p.buffering p.format d.txs) [
    | none ↦ (fault, d)
    | some (message, txs') ↦ (returned message, record d { txs = txs' })
  ]

  -- What handleSign does with the answer of tx_parse.
  unfoldable pub conclude_sign : Option (List ℕ) → Run B (Unit {0})
  conclude_sign none = start_review Review.transaction
  conclude_sign (some error_msg) = do
    let text : List ℕ = take p.apdu_size error_msg
    write_bytes 0 text
    advance (length text)
    throw Code.data_invalid

  unfoldable pub handle_sign : ℕ → Run B (Unit {0})
  handle_sign rx = do
    complete ← process_chunk rx
    throw_if (not complete) Code.success
    error_msg ← parse_message
    conclude_sign error_msg

  -- The two bytes of the status word behind the reply.
  abbrev pub write_status : ℕ → Run B (Unit {0})
  write_status e = do
    at ← gets (λ d. d.tx)
    write_bytes at (byte_of (status_word e) 1 ∷ byte_of (status_word e) 0 ∷ [])
    advance 2

  -- The CATCH clauses: a reset of the link goes on, every other code becomes a status word behind
  -- the reply.
  unfoldable pub report : ℕ → Run B (Unit {0})
  report e = choose (e == p.io_reset) (throw p.io_reset) (write_status e)

  -- What follows the TRY block: the CATCH clauses run when a code was thrown.
  unfoldable pub catch_code : Outcome (Unit {0}) × Device B → Outcome (Unit {0}) × Device B
  catch_code (returned _, d) = (returned tt, d)
  catch_code (thrown e, d) = report e d
  catch_code (fault, d) = (fault, d)

module _ {B : Type 0} (p : Platform B) (now : Moment) where
  unfoldable pub handle_get_addr : ℕ → Run B (Unit {0})
  handle_get_addr rx = do
    extract_hd_path rx offset_data
    require_confirmation ← read_byte offset_p1
    zxerr ← app_fill_address p now
    choose (is_ok zxerr) (pure tt) (do modify (λ d. record d { tx = 0 }); throw Code.data_invalid)
    choose (require_confirmation == 0)
        (do modify (λ d. record d { tx = d.addr_response_len }); throw Code.success)
        (start_review p Review.address)

  -- The twelve bytes of the version.
  abbrev pub version_bytes : List ℕ
  version_bytes =
      (if p.testing then 1 else 0)
      ∷ byte_of p.major_version 1
      ∷ byte_of p.major_version 0
      ∷ byte_of p.minor_version 1
      ∷ byte_of p.minor_version 0
      ∷ byte_of p.patch_version 1
      ∷ byte_of p.patch_version 0
      ∷ (if now.ux_allowed then 0 else 1)
      ∷ byte_of p.target_id 3
      ∷ byte_of p.target_id 2
      ∷ byte_of p.target_id 1
      ∷ byte_of p.target_id 0
      ∷ []

  unfoldable pub handle_get_version : Run B (Unit {0})
  handle_get_version = do write_bytes 0 version_bytes; advance 12; throw Code.success

  -- CHECK_PIN_VALIDATED
  abbrev pub check_pin : Run B (Unit {0})
  check_pin d = elim now.pin_check [ none ↦ (returned tt, d) | some e ↦ (thrown e, d) ]

  -- In a build with APP_TESTING.
  abbrev handle_test : Run B (Unit {0})
  handle_test = throw Code.success

  -- The body of the TRY block.
  unfoldable pub dispatch : ℕ → Run B (Unit {0})
  dispatch rx = do
    class ← read_byte offset_cla
    throw_if (not (class == cla)) Code.cla_not_supported
    throw_if (ltb rx p.apdu_min_length) Code.wrong_length
    ins ← read_byte offset_ins
    choose (ins == ins_get_version) handle_get_version (
        choose (ins == ins_get_addr) (check_pin >> handle_get_addr rx) (
          choose (ins == ins_sign) (check_pin >> handle_sign p rx) (
            choose (p.testing && ins == p.ins_test) (handle_test >> throw Code.success)
              (throw Code.ins_not_supported))))

  unfoldable pub handle_apdu : ℕ → Run B (Unit {0})
  handle_apdu rx d = catch_code p (dispatch rx d)
