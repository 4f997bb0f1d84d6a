-- ===== src/HostTests.antt =====
-- tests/utils/common.cpp and tests/ui_tests.cpp: the tests that print what the user would see. A text
-- is read from a buffer up to its NUL. `none` is a fault of the parser, a text with no NUL in its
-- buffer, or fuel that has run out.
pub mod Listing
pub mod Loops
pub mod Prints
pub mod Vectors
use ledger_sovereign.Base.{
  ℕ, zero, suc, ◌+◌, ◌/◌, ◌%◌, ◌^◌, Option, none, some, List, [], ◌∷◌, ◌++◌, ltb, if◌then◌else◌,
  length, replicate,
}
use ledger_sovereign.Base.Memory.{c_string}
use ledger_sovereign.Base.Text.{codes}
use ledger_sovereign.Platform.{Format}
use ledger_sovereign.Tx.{zero_tx}
use ledger_sovereign.Parser.{
  ParserError, ParserContext, ParserTx, Item, parser_parse, parser_get_num_items, parser_get_item,
  parser_get_error_description,
}

-- What a stream prints for a number of at most five digits.
abbrev pub decimal : ℕ → List ℕ
decimal n = digits 4 n
  where
    digits : ℕ → ℕ → List ℕ
    digits zero n = (48 + n % 10) ∷ []
    digits (suc more) n =
        let front = digits more (n / 10) in
        if ltb n 10 then (48 + n) ∷ [] else front ++ (48 + n % 10) ∷ []

-- What a stream prints for a char buffer.
abbrev pub text_in : List ℕ → Option (List ℕ)
text_in buffer =
    if ltb (length (c_string buffer)) (length buffer) then some (c_string buffer) else none

-- The number of a page, where there are several.
abbrev pub page_mark : ℕ → ℕ → List ℕ
page_mark page_idx page_count =
    if ltb 1 page_count
    then codes " [" ++ decimal (page_idx + 1) ++ codes "/" ++ decimal page_count ++ codes "]"
    else []

-- The buffers on the stack, with whatever they hold when an item begins.
abbrev pub Stack : Type 0
Stack = ℕ → List ℕ × List ℕ

-- What check_testcase does with a blob in hex: an assertion fails, or lines are printed.
pub data CheckResult : Type 0 where
  asserted : ParserError → CheckResult
  printed : List (List ℕ) → CheckResult

module _ (f : Format) where
  -- The value of an item, or why there is none.
  abbrev value_text : ParserError → List ℕ → Option (List ℕ)
  value_text ParserError.ok value_buffer = text_in value_buffer
  value_text failed value_buffer = some (parser_get_error_description failed)

  -- One line of the dump.
  unfoldable pub dump_line : ℕ → ℕ → ParserError → Item → Option (List ℕ)
  dump_line idx page_idx err i = elim (text_in i.out_key) [
    | none ↦ none
    | some key ↦ elim (value_text err i.out_val) [
      | none ↦ none
      | some value ↦ some (
          decimal idx
          ++ codes " | "
          ++ key
          ++ page_mark page_idx i.page_count
          ++ codes " : "
          ++ value)
    ]
  ]

  -- The while loop over the pages of an item: fuel, the buffers, `pageIdx`, `pageCount` and the lines
  -- so far.
  unfoldable pub dump_pages :
      ℕ
      → ParserContext
      → ParserTx
      → ℕ
      → ℕ
      → ℕ
      → List ℕ
      → List ℕ
      → ℕ
      → ℕ
      → List (List ℕ)
      → Option (List (List ℕ))
  dump_pages zero ctx obj max_key max_value idx key val page_idx page_count answer = none
  dump_pages (suc fuel) ctx obj max_key max_value idx key val page_idx page_count answer =
      if ltb page_idx page_count
      then (elim (parser_get_item f ctx obj idx key max_key val max_value page_idx) [
        | none ↦ none
        | some (err, i) ↦ elim (dump_line idx page_idx err i) [
          | none ↦ none
          | some line ↦
              dump_pages fuel ctx obj max_key max_value idx i.out_key i.out_val
                ((page_idx + 1) % 2 ^ 8) i.page_count (answer ++ line ∷ [])
        ]
      ])
      else some answer

  -- The for loop over the items, rounds left and `idx`. No item has more than 255 pages, so 257 rounds
  -- are enough for one.
  unfoldable pub dump_items :
      ℕ → ParserContext → ParserTx → Stack → ℕ → ℕ → ℕ → ℕ → List (List ℕ) → Option (List (List ℕ))
  dump_items zero ctx obj stack max_key max_value num_items idx answer = none
  dump_items (suc fuel) ctx obj stack max_key max_value num_items idx answer =
      if ltb idx num_items
      then (elim (dump_pages 257 ctx obj max_key max_value idx (stack idx).0 (stack idx).1 0 1
          answer) [
            | none ↦ none
            | some answer' ↦
                dump_items fuel ctx obj stack max_key max_value num_items ((idx + 1) % 2 ^ 16)
                  answer'
          ])
      else some answer

  unfoldable pub dump_ui : ParserContext → ParserTx → Stack → ℕ → ℕ → Option (List (List ℕ))
  unfolding parser_get_num_items
  dump_ui ctx obj stack max_key max_value =
      let (err, num_items) = parser_get_num_items in
      elim err [
        | ParserError.ok ↦ dump_items (suc num_items) ctx obj stack max_key max_value num_items 0 []
        | failed ↦ some []
      ]

  -- check_testcase on the decoded bytes.
  unfoldable pub check_bytes : ParserContext → Stack → List ℕ → ℕ → Option CheckResult
  check_bytes ctx stack buffer buffer_len =
      let (err, ctx', obj) = parser_parse ctx (some buffer) buffer_len zero_tx in
      elim err [
        | ParserError.ok ↦ elim (dump_ui ctx' obj stack 39 39) [
          | none ↦ none
          | some lines ↦ some (printed lines)
        ]
        | failed ↦ some (asserted failed)
      ]

  -- check_testcase, for parseHexString and what the stack holds in `ctx` and in the 5000 bytes of
  -- `buffer`. The expert mode that it sets and the lines that it expects are used for nothing.
  unfoldable pub check_testcase :
      (List ℕ → ℕ → List ℕ → List ℕ × ℕ)
      → ParserContext
      → List ℕ
      → Stack
      → List ℕ
      → Option CheckResult
  check_testcase parse_hex_string ctx buffer stack blob =
      let (buffer', buffer_len) = parse_hex_string buffer 5000 blob in
      check_bytes ctx stack buffer' (buffer_len % 2 ^ 16)
