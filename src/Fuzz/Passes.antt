-- ===== src/Fuzz/Passes.antt =====
-- The loops of the harness, and its runs.
use ledger_sovereign.Base.{
  ℕ, zero, suc, ◌+◌, ◌%◌, ◌^◌, ◌<◌, ◌≤◌, ◌≡◌, refl, some, List, ltb, length, true, arith,
  Bool-cases, inl, inr, ◌==◌, ==_iff, ltb→lt,
}
use ledger_sovereign.Platform.{Format}
use ledger_sovereign.Tx.{zero_tx}
use ledger_sovereign.Parser.{
  ParserError, ParserContext, ParserTx, Item, deref, parser_parse, parser_get_item,
}
use ledger_sovereign.Parser.Items.{get_item_succeeds, cleaned}
use ledger_sovereign.Parser.Validate.{validate_ok, parse_accepts, parse_rejects}
use ledger_sovereign.Fuzz.{
  Verdict, buffer_size, fuzz_pages, fuzz_items, fuzz_parsed, fuzz_one_input,
}

-- pageStringHex writes its page count through a pointer to a uint8_t.
abbrev pub CountsBytes : Format → Type 0
CountsBytes f =
    (out : List ℕ) (size : ℕ) (input : List ℕ) (page : ℕ)
    → (f.page_string_hex out size input page).1 < 256

module _ (f : Format) (counts : CountsBytes f) (ctx : ParserContext) (obj : ParserTx)
    (blob : List ℕ) (points : ctx.tx_obj ≡ true)
    (readable : deref obj.tx_blind_signature ≡ some blob) where
  -- An item has at most 255 pages.
  page_bound :
      (idx : ℕ) (key val : List ℕ) (k v page : ℕ) (i : Item)
      → idx < 2
      → parser_get_item f ctx obj idx key k val v page ≡ some (ParserError.ok, i)
      → i.page_count < 256
  unfolding parser_get_item
  page_bound zero key val k v page i h e = ground arith
  page_bound (suc zero) key val k v page i h e =
      ground (arith, counts (cleaned key val k v).out_val v blob page)
  page_bound (suc (suc idx)) key val k v page i h e = absurd (omega arith)

  -- From page `page_idx` on, 257 - page_idx rounds are enough.
  pages_pass :
      (fuel idx : ℕ) (key val : List ℕ) (page_idx page_count : ℕ)
      → idx < 2
      → page_idx < 256
      → page_count < 256
      → 256 < fuel + page_idx
      → (key' val' : List ℕ) × (fuzz_pages f fuel ctx obj idx key val page_idx page_count
          ≡ some (Verdict.passed, key', val'))
  unfolding fuzz_pages
  pages_pass zero idx key val page_idx page_count h small few enough = absurd (omega arith)
  pages_pass (suc fuel) idx key val page_idx page_count h small few enough =
      elim (Bool-cases (ltb page_idx page_count)) [
        | inr done ↦ (key, val, rw done refl)
        | inl more ↦
            let (i, e) =
              get_item_succeeds f ctx obj key val buffer_size buffer_size page_idx idx blob points
                readable h in
            let bound = page_bound idx key val buffer_size buffer_size page_idx i h e in
            let below : page_idx < page_count = ltb→lt page_idx page_count more in
            let (key', val', rest) =
              pages_pass fuel idx i.out_key i.out_val ((page_idx + 1) % 2 ^ 8) i.page_count h
                (omega arith) bound (omega arith) in
            (key', val', rw (more, e) rest)
      ]

  items_pass :
      (fuel i : ℕ) (key val : List ℕ)
      → 2 < fuel + i
      → i ≤ 2
      → fuzz_items f fuel ctx obj 2 i key val ≡ some Verdict.passed
  unfolding fuzz_items
  items_pass zero i key val enough small = absurd (omega arith)
  items_pass (suc fuel) i key val enough small = elim (Bool-cases (ltb i 2)) [
    | inr done ↦ rw done refl
    | inl more ↦
        let below : i < 2 = ltb→lt i 2 more in
        let (key', val', e) =
          pages_pass 257 i key val 0 1 below (omega arith) (omega arith) (omega arith) in
        rw (more, e) (items_pass fuel ((i + 1) % 2 ^ 8) key' val' (omega arith) (omega arith))
  ]

  parsed_passes : (key val : List ℕ) → fuzz_parsed f ctx obj key val ≡ some Verdict.passed
  unfolding fuzz_parsed
  parsed_passes key val =
      rw (validate_ok f ctx obj blob points readable, fuzz_parsed)
        (items_pass 3 0 key val (omega arith) (omega arith))

-- With a library that counts pages in a byte, the harness passes on every input, of any size: the
-- parser does not fault, both loops end within their fuel, and every page of every item of an
-- accepted input can be fetched, whatever the parsing context and the buffers held before.
pub fuzz_one_input_passes :
    (f : Format) (ctx : ParserContext) (key val input : List ℕ)
    → CountsBytes f
    → fuzz_one_input f ctx key val input ≡ some Verdict.passed
unfolding fuzz_one_input
fuzz_one_input_passes f ctx key val input counts = elim (Bool-cases (length input % 2 ^ 16 == 0)) [
  | inl none_left ↦
      let refused =
        parse_rejects ctx input zero_tx ((==_iff (length input % 2 ^ 16) 0).0 none_left) in
      rw (refused, fuzz_one_input) refl
  | inr some_left ↦
      let parsed = parser_parse ctx (some input) (length input) zero_tx in
      let (ok, points, readable) =
        parse_accepts ctx input zero_tx
          (λ e. cc (some_left, (==_iff (length input % 2 ^ 16) 0).1 e)) in
      rw (ok, fuzz_one_input) (parsed_passes f counts parsed.1 parsed.2 _ points readable key val)
]
