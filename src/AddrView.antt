-- ===== src/AddrView.antt =====
-- app/src/addr.c: the items of the address review. The expert mode is a setting of the application
-- that the view keeps; it is an argument here. A text is read up to its NUL.
pub mod Items
use ledger_sovereign.Base.{ℕ, zero, suc, Bool, if◌then◌else◌, List, drop}
use ledger_sovereign.Base.Memory.{c_string, print_text}
use ledger_sovereign.Base.Text.{codes}
use ledger_sovereign.Codes.{ZxErr, pk_len_25519}
use ledger_sovereign.Platform.{Platform}
use ledger_sovereign.Parser.{Item}
use ledger_sovereign.Device.{Device}

-- The code and `*num_items`.
unfoldable pub addr_get_num_items : Bool → ZxErr × ℕ
addr_get_num_items expert = (ZxErr.ok, if expert then 2 else 1)

module _ {B : Type 0} (p : Platform B) where
  -- An item of a name and the page of a text.
  abbrev pub paged : List ℕ → List ℕ → Item → ℕ → ℕ → ℕ → Item
  paged name text i key_len val_len page_idx =
      let (out, pages) = p.page_string i.out_val val_len (c_string text) page_idx in
      record { out_key = print_text i.out_key key_len name; out_val = out; page_count = pages }

  -- The index is an int8_t given by its bit pattern, so that the negative ones are above 127.
  unfoldable pub addr_get_item : Bool → Device B → ℕ → Item → ℕ → ℕ → ℕ → ZxErr × Item
  addr_get_item expert d zero i key_len val_len page_idx =
      (ZxErr.ok, paged (codes "Address") (drop pk_len_25519 d.apdu) i key_len val_len page_idx)
  addr_get_item expert d (suc zero) i key_len val_len page_idx =
      if expert
      then (
        ZxErr.ok,
        paged (codes "Your Path") (p.bip32_to_str 300 d.hd_path) i key_len val_len page_idx,
      )
      else (ZxErr.no_data, i)
  addr_get_item expert d (suc (suc _)) i key_len val_len page_idx = (ZxErr.no_data, i)
