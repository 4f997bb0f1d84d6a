-- ===== src/Parser/Items.antt =====
-- What parser_getItem writes for each item.
use ledger_sovereign.Base.{
  ℕ, zero, suc, ◌≤◌, ◌<◌, ◌≡◌, ◌∙◌, refl, true, some, List, arith, length, take, replicate,
}
use ledger_sovereign.Base.Memory.{
  c_string, memzero, print_text, c_string-print_text, length-print_text, length-copy_into,
}
use ledger_sovereign.Base.Text.{codes}
use ledger_sovereign.Platform.{Format}
use ledger_sovereign.Parser.{
  ParserError, ParserContext, ParserTx, Item, deref, clean_output, parser_get_item,
}

-- A cleaned output, printed to: what a reader finds.
c_string-cleaned :
    (out first text : List ℕ) (n : ℕ)
    → c_string text ≡ text
    → n < length out
    → c_string (print_text (print_text (memzero out (suc n)) (suc n) first) (suc n) text)
      ≡ take n text
c_string-cleaned out first text n plain h =
    c_string-print_text (print_text (memzero out (suc n)) (suc n) first) n text plain (
      omega (
        arith,
        length-print_text (memzero out (suc n)) (suc n) first,
        length-copy_into out 0 (replicate (suc n) 0),
      ))

length-cleaned :
    (out first text : List ℕ) (n : ℕ)
    → length (print_text (print_text (memzero out n) n first) n text) ≡ length out
length-cleaned out first text n =
    length-print_text (print_text (memzero out n) n first) n text
    ∙ length-print_text (memzero out n) n first
    ∙ length-copy_into out 0 (replicate n 0)

-- The outputs as they are after cleanOutput.
abbrev pub cleaned : List ℕ → List ℕ → ℕ → ℕ → Item
cleaned key val k v = clean_output (record { out_key = key; out_val = val; page_count = 1 }) k v

pub length-cleaned_val :
    (key val : List ℕ) (k v : ℕ) → length (cleaned key val k v).out_val ≡ length val
length-cleaned_val key val k v =
    length-print_text (memzero val v) v (codes " ") ∙ length-copy_into val 0 (replicate v 0)

module _ (f : Format) (ctx : ParserContext) (obj : ParserTx) (key val : List ℕ) (k v page : ℕ) where
  -- Item 0 reads `Blind` and `Signing`, each cut to the room before its buffer's NUL, on one page.
  pub get_item_first :
      k < length key
      → v < length val
      → (i : Item) × (parser_get_item f ctx obj 0 key (suc k) val (suc v) page
          ≡ some (ParserError.ok, i))
        × (c_string i.out_key ≡ take k (codes "Blind"))
        × (c_string i.out_val ≡ take v (codes "Signing"))
        × (i.page_count ≡ 1)
        × (length i.out_key ≡ length key)
        × (length i.out_val ≡ length val)
  unfolding parser_get_item
  get_item_first hk hv = (
    record {
      out_key = print_text (cleaned key val (suc k) (suc v)).out_key (suc k) (codes "Blind");
      out_val = print_text (cleaned key val (suc k) (suc v)).out_val (suc v) (codes "Signing");
      page_count = 1;
    },
    refl,
    c_string-cleaned key _ (codes "Blind") k refl hk,
    c_string-cleaned val _ (codes "Signing") v refl hv,
    refl,
    length-cleaned key _ (codes "Blind") (suc k),
    length-cleaned val _ (codes "Signing") (suc v),
  )

  -- Item 1 reads `Txn`, and its value is the page of the library's hex dump of the whole blob.
  pub get_item_blob :
      (blob : List ℕ)
      → ctx.tx_obj ≡ true
      → deref obj.tx_blind_signature ≡ some blob
      → k < length key
      → (i : Item) × (parser_get_item f ctx obj 1 key (suc k) val (suc v) page
          ≡ some (ParserError.ok, i))
        × (c_string i.out_key ≡ take k (codes "Txn"))
        × ((i.out_val, i.page_count)
            ≡ f.page_string_hex (cleaned key val (suc k) (suc v)).out_val (suc v) blob page)
        × (length i.out_key ≡ length key)
  unfolding parser_get_item
  get_item_blob blob points readable hk = (
    record {
      out_key = print_text (cleaned key val (suc k) (suc v)).out_key (suc k) (codes "Txn");
      out_val = (f.page_string_hex (cleaned key val (suc k) (suc v)).out_val (suc v) blob page).0;
      page_count =
          (f.page_string_hex (cleaned key val (suc k) (suc v)).out_val (suc v) blob page).1;
    },
    ground arith,
    c_string-cleaned key _ (codes "Txn") k refl hk,
    refl,
    length-cleaned key _ (codes "Txn") (suc k),
  )

module _ (f : Format) (ctx : ParserContext) (obj : ParserTx) (key val : List ℕ) (k v page : ℕ) where
  -- There is no third item: the outputs are left as they were.
  pub get_item_beyond :
      (idx : ℕ)
      → 2 ≤ idx
      → parser_get_item f ctx obj idx key k val v page
        ≡ some (
          ParserError.display_idx_out_of_range,
          record { out_key = key; out_val = val; page_count = 1 },
        )
  unfolding parser_get_item
  get_item_beyond idx h = ground arith

  -- Of a readable blob both items can be shown, into buffers of any size.
  pub get_item_succeeds :
      (idx : ℕ) (blob : List ℕ)
      → ctx.tx_obj ≡ true
      → deref obj.tx_blind_signature ≡ some blob
      → idx < 2
      → (i : Item) × (parser_get_item f ctx obj idx key k val v page ≡ some (ParserError.ok, i))
  unfolding parser_get_item
  get_item_succeeds zero blob points readable h = (
    record {
      out_key = print_text (cleaned key val k v).out_key k (codes "Blind");
      out_val = print_text (cleaned key val k v).out_val v (codes "Signing");
      page_count = 1;
    },
    refl,
  )
  get_item_succeeds (suc zero) blob points readable h = (
    record {
      out_key = print_text (cleaned key val k v).out_key k (codes "Txn");
      out_val = (f.page_string_hex (cleaned key val k v).out_val v blob page).0;
      page_count = (f.page_string_hex (cleaned key val k v).out_val v blob page).1;
    },
    ground arith,
  )
  get_item_succeeds (suc (suc idx)) blob points readable h = absurd (omega arith)
