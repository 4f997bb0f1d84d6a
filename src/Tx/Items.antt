-- ===== src/Tx/Items.antt =====
-- tx_getNumItems and tx_getItem: the items of the review, for every int8_t index.
use ledger_sovereign.Base.{ℕ, zero, suc, ◌<◌, ◌≡◌, inl, inr, Bool-cases, some, List, arith}
use ledger_sovereign.Base.{ltb, if◌then◌else◌, length, take}
use ledger_sovereign.Base.Memory.{c_string}
use ledger_sovereign.Base.Text.{codes}
use ledger_sovereign.Codes.{ZxErr}
use ledger_sovereign.Platform.{Format, Buffering}
use ledger_sovereign.Parser.{Item}
use ledger_sovereign.Parser.Items.{
  get_item_succeeds, get_item_beyond, get_item_first, get_item_blob, cleaned,
}
use ledger_sovereign.Tx.{TxState, int8_above, tx_get_num_items, tx_get_item}
use ledger_sovereign.Tx.Parse.{Shows}

module _ {B : Type 0} (b : Buffering B) (f : Format) (s : TxState B) (blob : List ℕ)
    (shows : Shows s blob) (i : Item) (k v page : ℕ) where
  -- When the context shows a message, the code of tx_getItem tells the items that there are from the others: each index of
  -- tx_getNumItems succeeds, and every other int8_t, the negative ones included, gives
  -- zxerr_no_data.
  pub tx_get_item_code :
      (idx : ℕ)
      → idx < 256
      → (i' : Item) × (tx_get_item b f s idx i k v page
          ≡ some (if ltb idx tx_get_num_items.1 then ZxErr.ok else ZxErr.no_data, i'))
  unfolding tx_get_item
  tx_get_item_code zero h =
      let (i', e) =
        get_item_succeeds f s.ctx_parsed_tx s.tx_obj i.out_key i.out_val k v page 0 blob
          shows.points shows.readable (omega arith) in
      (i', rw e)
  tx_get_item_code (suc zero) h =
      let (i', e) =
        get_item_succeeds f s.ctx_parsed_tx s.tx_obj i.out_key i.out_val k v page 1 blob
          shows.points shows.readable (omega arith) in
      (i', rw e)
  tx_get_item_code (suc (suc idx)) h = elim (Bool-cases (int8_above (suc (suc idx)) 2)) [
    | inl above ↦ (i, ground arith)
    | inr below ↦ (
      record { out_key = i.out_key; out_val = i.out_val; page_count = 1 },
      ground (
        arith,
        get_item_beyond f s.ctx_parsed_tx s.tx_obj i.out_key i.out_val k v page (suc (suc idx)),
      ),
    )
  ]

  -- The review of a readable message, into outputs that are larger than the sizes given, each of at
  -- least one byte: its first item reads `Blind` and `Signing`, its second has the key `Txn` and, as
  -- value and page count, the page of the library's hex dump of the whole message. Texts are cut to
  -- the room before the NUL.
  pub tx_get_item_shows :
      k < length i.out_key
      → v < length i.out_val
      → (first second : Item) × (tx_get_item b f s 0 i (suc k) (suc v) page
          ≡ some (ZxErr.ok, first))
        × (tx_get_item b f s 1 i (suc k) (suc v) page ≡ some (ZxErr.ok, second))
        × (c_string first.out_key ≡ take k (codes "Blind"))
        × (c_string first.out_val ≡ take v (codes "Signing"))
        × (c_string second.out_key ≡ take k (codes "Txn"))
        × ((second.out_val, second.page_count)
            ≡ f.page_string_hex
                (cleaned i.out_key i.out_val (suc k) (suc v)).out_val
                (suc v)
                blob
                page)
  unfolding tx_get_item
  tx_get_item_shows hk hv =
      let (first, e1, key1, val1, _, _, _) =
        get_item_first f s.ctx_parsed_tx s.tx_obj i.out_key i.out_val k v page hk hv in
      let (second, e2, key2, val2, _) =
        get_item_blob f s.ctx_parsed_tx s.tx_obj i.out_key i.out_val k v page blob shows.points
          shows.readable hk in
      (first, second, rw e1, rw e2, key1, val1, key2, val2)
