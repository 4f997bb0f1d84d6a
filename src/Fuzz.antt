-- ===== src/Fuzz.antt =====
-- fuzz/parser_parse.cpp: the harness that parses any data and then fetches every page of every item.
-- A run passes (the harness returns 0) or fails an assertion; `none` is a fault of the parser, or
-- fuel that has run out.
pub mod Passes
use ledger_sovereign.Base.{
  ℕ, zero, suc, ◌+◌, ◌%◌, ◌^◌, Option, none, some, List, ltb, if◌then◌else◌, length,
}
use ledger_sovereign.Platform.{Format}
use ledger_sovereign.Tx.{zero_tx}
use ledger_sovereign.Parser.{
  ParserError, ParserContext, ParserTx, parser_parse, parser_validate, parser_get_num_items,
  parser_get_item,
}

-- The end of a run.
pub data Verdict : Type 0 where
  passed assertion_failed : Verdict

-- The size of PARSER_KEY and of PARSER_VALUE.
abbrev pub buffer_size : ℕ
buffer_size = 16384

module _ (f : Format) where
  -- The while loop over the pages of item `idx`: fuel, the buffers, `page_idx` and `page_count`. The
  -- result is the verdict and the buffers as an item.
  unfoldable pub fuzz_pages :
      ℕ
      → ParserContext
      → ParserTx
      → ℕ
      → List ℕ
      → List ℕ
      → ℕ
      → ℕ
      → Option (Verdict × List ℕ × List ℕ)
  fuzz_pages zero ctx obj idx key val page_idx page_count = none
  fuzz_pages (suc fuel) ctx obj idx key val page_idx page_count =
      if ltb page_idx page_count
      then (elim (parser_get_item f ctx obj idx key buffer_size val buffer_size page_idx) [
        | none ↦ none
        | some (e, i) ↦ elim e [
          | ParserError.ok ↦
              fuzz_pages fuel ctx obj idx i.out_key i.out_val ((page_idx + 1) % 2 ^ 8) i.page_count
          | failed ↦ some (Verdict.assertion_failed, i.out_key, i.out_val)
        ]
      ])
      else some (Verdict.passed, key, val)

  -- The for loop over the items, rounds left and `i`. No item has more than 255 pages, so
  -- 257 rounds are enough for one.
  unfoldable pub fuzz_items :
      ℕ → ParserContext → ParserTx → ℕ → ℕ → List ℕ → List ℕ → Option Verdict
  fuzz_items zero ctx obj num_items i key val = none
  fuzz_items (suc fuel) ctx obj num_items i key val =
      if ltb i num_items
      then (elim (fuzz_pages 257 ctx obj i key val 0 1) [
        | none ↦ none
        | some (v, key', val') ↦ elim v [
          | Verdict.passed ↦ fuzz_items fuel ctx obj num_items ((i + 1) % 2 ^ 8) key' val'
          | Verdict.assertion_failed ↦ some Verdict.assertion_failed
        ]
      ])
      else some Verdict.passed

  -- What follows a successful parse.
  unfoldable pub fuzz_parsed : ParserContext → ParserTx → List ℕ → List ℕ → Option Verdict
  unfolding parser_get_num_items
  fuzz_parsed ctx obj key val = elim (parser_validate f ctx obj) [
    | none ↦ none
    | some e ↦ elim e [
      | ParserError.ok ↦
          let (rc, num_items) = parser_get_num_items in
          elim rc [
            | ParserError.ok ↦ fuzz_items (suc num_items) ctx obj num_items 0 key val
            | failed ↦ some Verdict.assertion_failed
          ]
      | failed ↦ some Verdict.passed
    ]
  ]

  -- LLVMFuzzerTestOneInput, with what the stack holds in `ctx` and the buffers of an earlier run.
  unfoldable pub fuzz_one_input : ParserContext → List ℕ → List ℕ → List ℕ → Option Verdict
  fuzz_one_input ctx key val input =
      let (rc, ctx', obj) = parser_parse ctx (some input) (length input) zero_tx in
      elim rc [ ParserError.ok ↦ fuzz_parsed ctx' obj key val | failed ↦ some Verdict.passed ]
