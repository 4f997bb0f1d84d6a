-- ===== src/Parser/Validate.antt =====
-- parser_parse and parser_validate: what is accepted, and the loop over the items.
use ledger_sovereign.Base.{
  ℕ, zero, suc, ◌+◌, ◌%◌, ◌^◌, ◌≤◌, ◌<◌, ◌≡◌, ◌≢◌, refl, true, some, List, arith, length, take,
  replicate,
}
use ledger_sovereign.Platform.{Format}
use ledger_sovereign.Parser.{
  ParserError, ParserContext, ParserTx, deref, parser_parse, validate_from, parser_validate,
}
use ledger_sovereign.Parser.Items.{get_item_succeeds}

module _ (f : Format) (ctx : ParserContext) (obj : ParserTx) (blob : List ℕ)
    (points : ctx.tx_obj ≡ true) (readable : deref obj.tx_blind_signature ≡ some blob) where
  -- From item `idx` on, three rounds of fuel are enough.
  validate_from_ok :
      (fuel idx : ℕ) (key val : List ℕ)
      → 2 < fuel + idx
      → idx ≤ 2
      → validate_from f fuel ctx obj 2 idx key val ≡ some ParserError.ok
  unfolding validate_from
  validate_from_ok zero idx key val enough small = absurd (omega arith)
  validate_from_ok (suc fuel) zero key val enough small =
      let (i, e) =
        get_item_succeeds f ctx obj key val 40 40 0 0 blob points readable (omega arith) in
      rw e (validate_from_ok fuel 1 i.out_key i.out_val (omega arith) (omega arith))
  validate_from_ok (suc fuel) (suc zero) key val enough small =
      let (i, e) =
        get_item_succeeds f ctx obj key val 40 40 0 1 blob points readable (omega arith) in
      rw e (validate_from_ok fuel 2 i.out_key i.out_val (omega arith) (omega arith))
  validate_from_ok (suc fuel) (suc (suc zero)) key val enough small = refl
  validate_from_ok (suc fuel) (suc (suc (suc idx))) key val enough small = absurd (omega arith)

  -- When the context points to the object and the object's bytes are readable, the loop over the
  -- items ends within its fuel, without a fault, and finds every item valid.
  pub validate_ok : parser_validate f ctx obj ≡ some ParserError.ok
  unfolding parser_validate
  validate_ok = validate_from_ok 3 0 (replicate 40 0) (replicate 40 0) (omega arith) (omega arith)

-- parser_parse accepts data whose size is not a multiple of 2^16, since it cuts the size to a
-- uint16_t; then the object holds the first `size % 2^16` bytes.
pub parse_accepts :
    (ctx : ParserContext) (bytes : List ℕ) (obj : ParserTx)
    → length bytes % 2 ^ 16 ≢ 0
    → let (e, ctx', obj') = parser_parse ctx (some bytes) (length bytes) obj in
      (e ≡ ParserError.ok)
      × (ctx'.tx_obj ≡ true)
      × (deref obj'.tx_blind_signature ≡ some (take (length bytes % 2 ^ 16) bytes))
unfolding parser_parse
parse_accepts ctx bytes obj h = ground arith

-- Data of any other size is taken for empty.
pub parse_rejects :
    (ctx : ParserContext) (bytes : List ℕ) (obj : ParserTx)
    → length bytes % 2 ^ 16 ≡ 0
    → (parser_parse ctx (some bytes) (length bytes) obj).0 ≡ ParserError.init_context_empty
unfolding parser_parse
parse_rejects ctx bytes obj h = ground arith
