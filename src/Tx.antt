-- ===== src/Tx.antt =====
-- app/src/common/tx.c: the transaction buffer, its parsing and its items. The static variables
-- `tx_obj` and `ctx_parsed_tx`, and the state of the library's buffering, are one record. A pointer
-- into the buffer is kept as the bytes that lie there when the pointer is taken.
pub mod Parse
pub mod Items
use ledger_sovereign.Base.{ℕ, Bool, false, Option, none, some, List, ltb, if◌then◌else◌, length}
use ledger_sovereign.Codes.{ZxErr}
use ledger_sovereign.Platform.{Target, nano_s, large, Format, Buffering}
use ledger_sovereign.Parser.{
  ParserError, ParserContext, ParserTx, Item, parser_get_error_description, parser_parse,
  parser_validate, parser_get_num_items, parser_get_item,
}

abbrev pub ram_buffer_size : Target → ℕ
ram_buffer_size large = 8192
ram_buffer_size nano_s = 256

abbrev pub flash_buffer_size : Target → ℕ
flash_buffer_size large = 16384
flash_buffer_size nano_s = 8192

pub record TxState (B : Type 0) : Type 0 where
  pub buffer : B
  pub tx_obj : ParserTx
  pub ctx_parsed_tx : ParserContext

-- MEMZERO(&tx_obj, sizeof(tx_obj))
abbrev pub zero_tx : ParserTx
zero_tx = record { tx_blind_signature = record { ptr = none; len = 0 } }

-- The description of an error, and NULL for success.
abbrev pub error_message : ParserError → Option (List ℕ)
error_message ParserError.ok = none
error_message e = some (parser_get_error_description e)

-- `displayIdx > n` for an int8_t given by its bit pattern.
abbrev pub int8_above : ℕ → ℕ → Bool
int8_above idx n = if ltb idx 128 then ltb n idx else false

-- The conversion of error codes in tx_getItem.
abbrev pub item_error : ParserError → ZxErr
item_error ParserError.ok = ZxErr.ok
item_error ParserError.no_data = ZxErr.no_data
item_error ParserError.display_idx_out_of_range = ZxErr.no_data
item_error ParserError.display_page_out_of_range = ZxErr.no_data
item_error _ = ZxErr.unknown

-- `tx_getNumItems`: the code and `*num_items`.
unfoldable pub tx_get_num_items : ZxErr × ℕ
unfolding parser_get_num_items
tx_get_num_items =
    let (e, n) = parser_get_num_items in
    elim e [ ParserError.ok ↦ (ZxErr.ok, n) | _ ↦ (ZxErr.unknown, n) ]

module _ {B : Type 0} (b : Buffering B) where
  unfoldable pub tx_initialize : Target → TxState B → TxState B
  tx_initialize t s = record s {
    buffer = b.buffering_init (ram_buffer_size t) (flash_buffer_size t) s.buffer;
  }

  unfoldable pub tx_reset : TxState B → TxState B
  tx_reset s = record s { buffer = b.buffering_reset s.buffer }

  unfoldable pub tx_append : List ℕ → TxState B → TxState B × ℕ
  tx_append bytes s =
      let (buffer', added) = b.buffering_append bytes s.buffer in
      (record s { buffer = buffer' }, added)

  abbrev pub tx_get_buffer : TxState B → List ℕ
  tx_get_buffer s = b.contents s.buffer

  abbrev pub tx_get_buffer_length : TxState B → ℕ
  tx_get_buffer_length s = length (b.contents s.buffer)

  unfoldable pub tx_parse_reset : TxState B → TxState B
  tx_parse_reset s = record s { tx_obj = zero_tx }

  module _ (f : Format) where
    -- NULL or the message, and the new state; `none` for a fault.
    unfoldable pub tx_parse : TxState B → Option (Option (List ℕ) × TxState B)
    tx_parse s =
        let (e, ctx, obj) =
          parser_parse s.ctx_parsed_tx (some (tx_get_buffer s)) (tx_get_buffer_length s) zero_tx in
        let s' : TxState B = record s { tx_obj = obj; ctx_parsed_tx = ctx } in
        elim e [
          | ParserError.ok ↦ elim (parser_validate f ctx obj) [
            | none ↦ none
            | some e' ↦ some (error_message e', s')
          ]
          | failed ↦ some (error_message failed, s')
        ]

    -- The index is an int8_t, and becomes a uint8_t in the parser's call.
    unfoldable pub tx_get_item : TxState B → ℕ → Item → ℕ → ℕ → ℕ → Option (ZxErr × Item)
    unfolding tx_get_num_items
    tx_get_item s display_idx i key_len val_len page_idx =
        let (z, num_items) = tx_get_num_items in
        elim z [
          | ZxErr.ok ↦
              if int8_above display_idx num_items
              then some (ZxErr.no_data, i)
              else (elim (parser_get_item f s.ctx_parsed_tx s.tx_obj display_idx i.out_key key_len
                  i.out_val val_len page_idx) [
                    | none ↦ none
                    | some (e, i') ↦ some (item_error e, i')
                  ])
          | failed ↦ some (failed, i)
        ]
