-- ===== src/Actions.antt =====
-- app/src/common/actions.h: the address for a command, and what the review's buttons do. A call of
-- io_exchange that sends `n` bytes returns those bytes.
use mathlib.Core.Option
use ledger_sovereign.Base.{
  ℕ, ◌+◌, ◌-◌, ◌%◌, ◌^◌, Bool, true, false, not, ◌||◌, if◌then◌else◌, none, some, List, ◌==◌, take,
}
use ledger_sovereign.Base.Memory.{memzero}
use ledger_sovereign.Codes.{ZxErr, sk_len_25519}
use ledger_sovereign.Codes.Code
use ledger_sovereign.Platform.{Platform}
use ledger_sovereign.Tx.{tx_get_buffer, tx_get_buffer_length}
use ledger_sovereign.Crypto.{crypto_fill_address, crypto_sign}
use ledger_sovereign.Device.{Device, Moment, Run, ◌>>=◌, ◌>>◌, pure, modify, gets, throw_if}

abbrev pub is_ok : ZxErr → Bool
is_ok ZxErr.ok = true
is_ok _ = false

module _ {B : Type 0} (p : Platform B) (now : Moment) where
  -- The call of crypto_fillAddress on the APDU buffer.
  abbrev fill : Device B → ZxErr × Option.Option (List ℕ) × Option.Option ℕ
  fill d =
      crypto_fill_address p.cx p.format d.hd_path now.stack (some d.apdu) p.apdu_size
        (some d.addr_response_len)

  abbrev store_address : Device B → Device B
  store_address d =
      let (_, buffer, len) = fill d in
      record d {
        apdu = Option.get_or buffer d.apdu;
        addr_response_len = Option.get_or len d.addr_response_len;
      }

  unfoldable pub app_fill_address : Run B ZxErr
  app_fill_address = do
    modify (λ d. record d { apdu = memzero d.apdu p.apdu_size })
    modify (λ d. record d { addr_response_len = 0 })
    err ← gets (λ d. (fill d).0)
    modify store_address
    len ← gets (λ d. d.addr_response_len)
    throw_if (not (is_ok err) || len == 0) Code.execution_error
    pure ZxErr.ok

  -- The reply, and the state in which the review has ended.
  abbrev exchange : ℕ → Device B → List ℕ × Device B
  exchange n d = (take n d.apdu, record d { review = none })

  -- The message length is a uint16_t.
  unfoldable pub app_sign : Device B → List ℕ × Device B
  app_sign d =
      let (err, buffer, _) =
        crypto_sign p.cx d.hd_path now.stack (some d.apdu) (p.apdu_size - 3)
          (some (tx_get_buffer p.buffering d.txs))
          (tx_get_buffer_length p.buffering d.txs % 2 ^ 16) in
      let signed : List ℕ = Option.get_or buffer d.apdu in
      if is_ok err
      then (exchange (sk_len_25519 + 2)
          (record d { apdu = p.set_code signed sk_len_25519 Code.success }))
      else exchange 2 (record d { apdu = p.set_code signed 0 Code.sign_verify_error })

  unfoldable pub app_reject : Device B → List ℕ × Device B
  app_reject d =
      exchange 2
        (record d { apdu = p.set_code (memzero d.apdu p.apdu_size) 0 Code.command_not_allowed })

  unfoldable pub app_reply_address : Device B → List ℕ × Device B
  app_reply_address d =
      exchange (d.addr_response_len + 2)
        (record d { apdu = p.set_code d.apdu d.addr_response_len Code.success })

  unfoldable pub app_reply_error : Device B → List ℕ × Device B
  app_reply_error d = exchange 2 (record d { apdu = p.set_code d.apdu 0 Code.data_invalid })
