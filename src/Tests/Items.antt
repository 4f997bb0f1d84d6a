-- ===== src/Tests/Items.antt =====
-- The parser and the items of both reviews at concrete inputs.
use ledger_sovereign.Base.{
  ◌≡◌, refl, true, false, none, some, [], ◌∷◌, arith, replicate, if◌then◌else◌, ltb,
}
use ledger_sovereign.Base.Memory.{c_string}
use ledger_sovereign.Base.Text.{codes}
use ledger_sovereign.Codes.{ZxErr}
use ledger_sovereign.Parser.{ParserError, Item, parser_validate}
use ledger_sovereign.Parser.Items.{cleaned}
use ledger_sovereign.Parser.Validate.{validate_ok}
use ledger_sovereign.Tx.{tx_parse, tx_get_num_items, tx_get_item}
use ledger_sovereign.Tx.Parse.{Shows, after_parse, tx_parse_accepts}
use ledger_sovereign.Tx.Items.{tx_get_item_code, tx_get_item_shows}
use ledger_sovereign.AddrView.{addr_get_num_items, addr_get_item}
use ledger_sovereign.AddrView.Items.{ShowsAddress, addr_get_item_code, addr_get_item_shows}
use ledger_sovereign.Fuzz.{Verdict, fuzz_one_input}
use ledger_sovereign.Fuzz.Passes.{fuzz_one_input_passes}
use ledger_sovereign.Tests.Sample.{
  start, shown, answered, outputs, format, buffering, platform, start, message,
}

tx_parse_accepts_example :
    (tx_parse buffering format shown.txs ≡ some (none, after_parse buffering shown.txs))
    × Shows (after_parse buffering shown.txs) message
tx_parse_accepts_example = tx_parse_accepts buffering format shown.txs (omega arith) (λ e. cc)

tx_get_item_code_example :
    (i' : Item) × (tx_get_item buffering format shown.txs 255 outputs 18 18 0
      ≡ some (if ltb 255 tx_get_num_items.1 then ZxErr.ok else ZxErr.no_data, i'))
tx_get_item_code_example =
    tx_get_item_code buffering format shown.txs message (record { points = refl; readable = refl })
      outputs 18 18 0 255 (omega arith)

items_shown :
    (first second : Item) × (tx_get_item buffering format shown.txs 0 outputs 18 18 0
      ≡ some (ZxErr.ok, first))
    × (tx_get_item buffering format shown.txs 1 outputs 18 18 0 ≡ some (ZxErr.ok, second))
    × (c_string first.out_key ≡ codes "Blind")
    × (c_string first.out_val ≡ codes "Signing")
    × (c_string second.out_key ≡ codes "Txn")
    × ((second.out_val, second.page_count)
        ≡ format.page_string_hex
            (cleaned (replicate 20 9) (replicate 20 9) 18 18).out_val
            18
            message
            0)
items_shown =
    tx_get_item_shows buffering format shown.txs message (record { points = refl; readable = refl })
      outputs 17 17 0 (omega arith) (omega arith)

validate_ok_example :
    parser_validate format shown.txs.ctx_parsed_tx shown.txs.tx_obj ≡ some ParserError.ok
validate_ok_example = validate_ok format shown.txs.ctx_parsed_tx shown.txs.tx_obj message refl refl

addr_get_item_code_example :
    (addr_get_item platform false shown 1 outputs 18 18 0).0
    ≡ (if ltb 1 (addr_get_num_items false).1 then ZxErr.ok else ZxErr.no_data)
addr_get_item_code_example = addr_get_item_code platform false shown outputs 18 18 0 1

addr_get_item_shows_example :
    (item : Item) × (addr_get_item platform true answered 0 outputs 18 18 0 ≡ (ZxErr.ok, item))
    × ShowsAddress platform outputs 17 18 0 (115 ∷ 49 ∷ []) item
addr_get_item_shows_example =
    addr_get_item_shows platform true answered outputs 17 18 0 (replicate 32 7) (115 ∷ 49 ∷ []) 225
      refl refl (omega arith)

-- An input of 300 bytes, whatever the context and the buffers held.
fuzz_one_input_passes_example :
    fuzz_one_input format start.txs.ctx_parsed_tx (7 ∷ []) [] (replicate 300 1)
    ≡ some Verdict.passed
fuzz_one_input_passes_example =
    fuzz_one_input_passes format start.txs.ctx_parsed_tx (7 ∷ []) [] (replicate 300 1)
      (λ out size input page. omega arith)
