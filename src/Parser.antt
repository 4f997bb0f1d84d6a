-- ===== src/Parser.antt =====
-- app/src/parser.c, parser_impl.c and their types in parser_txdef.h and common/parser_common.h.
-- The parsing context holds a pointer to the transaction object of its caller. There is one such
-- object, so the context says whether it points there, and the object is an argument of its own.
-- `none` as a result is a fault: a read through NULL or past the end of the data.
mod Error
pub mod Items
pub mod Validate
unfoldable pub use Error.*
use ledger_sovereign.Base.{
  ℕ, zero, suc, ◌+◌, ◌%◌, ◌^◌, Bool, true, false, ◌||◌, Option, none, some, List, leb, ltb, ◌==◌,
  if◌then◌else◌, length, take, replicate,
}
use ledger_sovereign.Base.Memory.{Pointer, memzero, print_text}
use ledger_sovereign.Base.Text.{codes}
use ledger_sovereign.Platform.{Format}

-- `bytes_t`
pub record Bytes : Type 0 where
  pub ptr : Pointer
  pub len : ℕ

-- `parser_tx_t`
pub record ParserTx : Type 0 where
  pub tx_blind_signature : Bytes

-- `parser_context_t`; `tx_obj` is false for NULL.
pub record ParserContext : Type 0 where
  pub buffer : Pointer
  pub buffer_len : ℕ
  pub offset : ℕ
  pub tx_obj : Bool

abbrev pub is_null : Pointer → Bool
is_null none = true
is_null (some bytes) = false

unfoldable pub parser_init_context : ParserContext → Pointer → ℕ → ParserError × ParserContext
parser_init_context ctx buffer buffer_size =
    let cleared : ParserContext = record ctx { offset = 0; buffer = none; buffer_len = 0 } in
    if buffer_size == 0 || is_null buffer
    then (ParserError.init_context_empty, cleared)
    else (ParserError.ok, record cleared { buffer = buffer; buffer_len = buffer_size })

-- `_read`, which reads nothing yet.
unfoldable pub read : ParserContext → ParserTx → ParserError
read c v = ParserError.ok

-- The size is a size_t, cut to a uint16_t for the context and for the object.
unfoldable pub parser_parse :
    ParserContext → Pointer → ℕ → ParserTx → ParserError × ParserContext × ParserTx
unfolding parser_init_context read
parser_parse ctx bytes size obj =
    let (e, ctx') = parser_init_context ctx bytes (size % 2 ^ 16) in
    elim e [
      | ParserError.ok ↦
          let obj' : ParserTx = record { tx_blind_signature = blob } in
          (read (record ctx' { tx_obj = true }) obj', record ctx' { tx_obj = true }, obj')
      | failed ↦ (failed, ctx', obj)
    ]
  where
    blob : Bytes
    blob = record { ptr = bytes; len = size % 2 ^ 16 }

-- The error code and `*num_items`.
unfoldable pub parser_get_num_items : ParserError × ℕ
parser_get_num_items =
    let n : ℕ = 2 in
    if n == 0 then (ParserError.unexpected_number_items, n) else (ParserError.ok, n)

-- What parser_getItem writes for its caller.
pub record Item : Type 0 where
  pub out_key : List ℕ
  pub out_val : List ℕ
  pub page_count : ℕ

abbrev pub clean_output : Item → ℕ → ℕ → Item
clean_output i key_len val_len = record i {
  out_key = print_text (memzero i.out_key key_len) key_len (codes "?");
  out_val = print_text (memzero i.out_val val_len) val_len (codes " ");
}

abbrev pub check_sanity : ℕ → ℕ → ParserError
check_sanity num_items display_idx =
    if leb num_items display_idx then ParserError.display_idx_out_of_range else ParserError.ok

-- The `len` bytes at `ptr`.
abbrev pub deref : Bytes → Option (List ℕ)
deref b = elim b.ptr [
  | none ↦ none
  | some bytes ↦ if leb b.len (length bytes) then some (take b.len bytes) else none
]

module _ (f : Format) where
  unfoldable pub show_blob :
      ParserContext → ParserTx → Item → ℕ → ℕ → ℕ → Option (ParserError × Item)
  show_blob ctx obj i key_len val_len page_idx =
      if ctx.tx_obj
      then (elim (deref obj.tx_blind_signature) [
        | none ↦ none
        | some blob ↦
            let (out, pages) = f.page_string_hex i.out_val val_len blob page_idx in
            some (
              ParserError.ok,
              record {
                out_key = print_text i.out_key key_len (codes "Txn");
                out_val = out;
                page_count = pages;
              },
            )
      ])
      else none

  -- The switch on the item, after the outputs are cleaned.
  unfoldable pub show_item :
      ParserContext → ParserTx → ℕ → Item → ℕ → ℕ → ℕ → Option (ParserError × Item)
  unfolding show_blob
  show_item ctx obj display_idx i key_len val_len page_idx =
      if display_idx == 0
      then some (
        ParserError.ok,
        record i {
          out_key = print_text i.out_key key_len (codes "Blind");
          out_val = print_text i.out_val val_len (codes "Signing");
        },
      )
      else (if display_idx == 1
          then show_blob ctx obj i key_len val_len page_idx
          else some (ParserError.display_idx_out_of_range, i))

  unfoldable pub parser_get_item :
      ParserContext → ParserTx → ℕ → List ℕ → ℕ → List ℕ → ℕ → ℕ → Option (ParserError × Item)
  unfolding parser_get_num_items show_item
  parser_get_item ctx obj display_idx out_key key_len out_val val_len page_idx =
      let i : Item = record { out_key = out_key; out_val = out_val; page_count = 1 } in
      let (e, num_items) = parser_get_num_items in
      elim e [
        | ParserError.ok ↦ elim (check_sanity num_items display_idx) [
          | ParserError.ok ↦
              show_item ctx obj display_idx (clean_output i key_len val_len) key_len val_len
                page_idx
          | failed ↦ some (failed, i)
        ]
        | failed ↦ some (failed, i)
      ]

  -- The loop of parser_validate from item `idx` on. The first argument is fuel; when it is used up
  -- the result is `none` as for a fault.
  unfoldable pub validate_from :
      ℕ → ParserContext → ParserTx → ℕ → ℕ → List ℕ → List ℕ → Option ParserError
  validate_from zero ctx obj num_items idx key val = none
  validate_from (suc fuel) ctx obj num_items idx key val =
      if ltb idx num_items
      then (elim (parser_get_item ctx obj idx key 40 val 40 0) [
        | none ↦ none
        | some (e, i) ↦ elim e [
          | ParserError.ok ↦
              validate_from fuel ctx obj num_items ((idx + 1) % 2 ^ 8) i.out_key i.out_val
          | failed ↦ some failed
        ]
      ])
      else some ParserError.ok

  unfoldable pub parser_validate : ParserContext → ParserTx → Option ParserError
  unfolding parser_get_num_items
  parser_validate ctx obj =
      let (e, num_items) = parser_get_num_items in
      elim e [
        | ParserError.ok ↦
            validate_from (suc num_items) ctx obj num_items 0 (replicate 40 0) (replicate 40 0)
        | failed ↦ some failed
      ]
