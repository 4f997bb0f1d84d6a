-- ===== src/Apdu/Sign.antt =====
-- handleSign, by how process_chunk and tx_parse answer.
use ledger_sovereign.Base.{
  take_long, ℕ, ◌+◌, ◌%◌, ◌^◌, ◌≤◌, ◌<◌, ◌≡◌, ◌≢◌, true, false, some, List, [], arith, length,
  bit_or, le→leb,
}
use ledger_sovereign.Base.Memory.{copy_into}
use ledger_sovereign.Base.Text.{codes}
use ledger_sovereign.Codes.Code
use ledger_sovereign.Platform.{Platform}
use ledger_sovereign.Tx.{tx_get_buffer}
use ledger_sovereign.Tx.Parse.{after_parse, tx_parse_accepts, tx_parse_empty}
use ledger_sovereign.Device.{Review, Device, returned, thrown, throw_if}
use ledger_sovereign.Device.Rules.{write_bytes_lem}
use ledger_sovereign.Apdu.{process_chunk, parse_message, conclude_sign, handle_sign}

-- An error text goes to the front of the buffer, and its length is added to the reply.
conclude_text :
    {B : Type 0} (p : Platform B) (d : Device B) (text : List ℕ)
    → length text ≤ p.apdu_size
    → length text ≤ length d.apdu
    → conclude_sign p (some text) d ≡ (
      thrown Code.data_invalid,
      record d { apdu = copy_into d.apdu 0 text; tx = (d.tx + length text) % 2 ^ 32 },
    )
unfolding conclude_sign
conclude_text p d text room inside = ground (
  arith,
  take_long p.apdu_size text room,
  write_bytes_lem d 0 text (le→leb (0 + length text) (length d.apdu) (omega arith)),
)

module _ {B : Type 0} (p : Platform B) (rx : ℕ) (d d1 : Device B) where
  pub sign_refused :
      (e : ℕ) → process_chunk p rx d ≡ (thrown e, d1) → handle_sign p rx d ≡ (thrown e, d1)
  unfolding handle_sign
  sign_refused e h = ground arith

  -- Every chunk but the last is answered at once.
  pub sign_more :
      process_chunk p rx d ≡ (returned false, d1) → handle_sign p rx d ≡ (thrown Code.success, d1)
  unfolding handle_sign throw_if
  sign_more h = ground arith

  module _ (last : process_chunk p rx d ≡ (returned true, d1))
      (short : length (tx_get_buffer p.buffering d1.txs) < 2 ^ 16) where
    -- The device with the review on the screen.
    abbrev pub reviewing : Device B
    reviewing = record d1 {
      txs = after_parse p.buffering d1.txs;
      review = some Review.transaction;
      flags = bit_or d1.flags p.io_asynch_reply;
    }

    pub sign_review :
        tx_get_buffer p.buffering d1.txs ≢ [] → handle_sign p rx d ≡ (returned tt, reviewing)
    unfolding handle_sign throw_if parse_message conclude_sign
    sign_review filled =
        ground (arith, (tx_parse_accepts p.buffering p.format d1.txs short filled).0)

    -- The text that stands before the code in the answer to an empty message.
    abbrev pub empty_text : List ℕ
    empty_text = codes "Initialized empty context"

    -- A last chunk that completes an empty message, with room for the error text of 25 bytes:
    -- handleSign throws APDU_CODE_DATA_INVALID, with the text at the front of the buffer and its
    -- length added to the reply; nothing comes under review.
    pub sign_empty :
        tx_get_buffer p.buffering d1.txs ≡ []
        → 25 ≤ p.apdu_size
        → 25 ≤ length d1.apdu
        → handle_sign p rx d ≡ (
          thrown Code.data_invalid,
          record d1 {
            txs = after_parse p.buffering d1.txs;
            apdu = copy_into d1.apdu 0 empty_text;
            tx = (d1.tx + 25) % 2 ^ 32;
          },
        )
    unfolding handle_sign throw_if parse_message
    sign_empty empty room inside = ground (
      arith,
      tx_parse_empty p.buffering p.format d1.txs short empty,
      conclude_text p (record d1 { txs = after_parse p.buffering d1.txs }) empty_text (omega arith)
          (omega arith),
    )
