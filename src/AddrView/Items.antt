-- ===== src/AddrView/Items.antt =====
-- addr_getNumItems and addr_getItem: which items there are, and what they show.
use ledger_sovereign.Base.{
  ℕ, zero, suc, ◌≡◌, refl, ap, sym, ◌∙◌, Bool, if◌then◌else◌, List, [], ◌∷◌, ◌++◌, ◌<◌, take, arith,
  drop, length, replicate, ltb, append_assoc,
}
use ledger_sovereign.Base.Memory.{c_string, c_string-print_text}
use ledger_sovereign.Base.Text.{codes}
use ledger_sovereign.Codes.{ZxErr}
use ledger_sovereign.Platform.{Platform}
use ledger_sovereign.Parser.{Item}
use ledger_sovereign.Device.{Device}
use ledger_sovereign.AddrView.{addr_get_num_items, addr_get_item, paged}

drop-append_all : (front rest : List ℕ) → drop (length front) (front ++ rest) ≡ rest
drop-append_all [] rest = refl
drop-append_all (x ∷ front) rest = drop-append_all front rest

-- A text that is copied in front of a NUL reads as it was.
c_string-append : (text rest : List ℕ) → c_string (c_string text ++ 0 ∷ rest) ≡ c_string text
c_string-append [] rest = refl
c_string-append (zero ∷ text) rest = refl
c_string-append (suc c ∷ text) rest = ap (λ l. suc c ∷ l) (c_string-append text rest)

-- What an item shows into the outputs of `i`, of the sizes `k + 1` and `v`: the key is a text with as
-- much of `Address` as has room, and the value and the number of pages are what pageString makes of the
-- text and the page.
abbrev pub ShowsAddress : {B : Type 0} → Platform B → Item → ℕ → ℕ → ℕ → List ℕ → Item → Type 0
ShowsAddress p i k v page text shown =
    (c_string shown.out_key ≡ take k (codes "Address"))
    × (shown.out_val ≡ (p.page_string i.out_val v (c_string text) page).0)
    × (shown.page_count ≡ (p.page_string i.out_val v (c_string text) page).1)

module _ {B : Type 0} (p : Platform B) (expert : Bool) (d : Device B) (i : Item)
    (k v page : ℕ) where
  -- The code of addr_getItem tells the items that there are from the others: in either mode each
  -- index below the count of addr_getNumItems succeeds, and every other index gives zxerr_no_data.
  pub addr_get_item_code :
      (idx : ℕ)
      → (addr_get_item p expert d idx i k v page).0
        ≡ (if ltb idx (addr_get_num_items expert).1 then ZxErr.ok else ZxErr.no_data)
  unfolding addr_get_item addr_get_num_items
  addr_get_item_code zero = ground arith
  addr_get_item_code (suc zero) = ground arith
  addr_get_item_code (suc (suc idx)) = ground arith

  abbrev pub address_in : List ℕ → Item
  address_in text = paged p (codes "Address") text i (suc k) v page

  pub address_in-ShowsAddress :
      (text text' : List ℕ)
      → k < length i.out_key
      → c_string text ≡ c_string text'
      → ShowsAddress p i k v page text' (address_in text)
  address_in-ShowsAddress text text' room same = (
    c_string-print_text i.out_key k (codes "Address") refl room,
    ap (λ l. (p.page_string i.out_val v l page).0) same,
    ap (λ l. (p.page_string i.out_val v l page).1) same,
  )

  -- When the APDU buffer holds a key of 32 bytes, the text of an address and zeros, at least one of
  -- them, as crypto_fillAddress leaves it, item 0 in either mode succeeds. Into a key output that is
  -- larger than the size `k + 1` given it puts as much of `Address` as has room, with a NUL, and into
  -- the value output what pageString makes of that very text for the page that is asked for, with its
  -- number of pages.
  pub addr_get_item_shows :
      (key text : List ℕ) (n : ℕ)
      → length key ≡ 32
      → d.apdu ≡ key ++ c_string text ++ replicate (suc n) 0
      → k < length i.out_key
      → (shown : Item) × (addr_get_item p expert d 0 i (suc k) v page ≡ (ZxErr.ok, shown))
        × ShowsAddress p i k v page text shown
  unfolding addr_get_item
  addr_get_item_shows key text n size holds room =
      let text_there : c_string (drop 32 d.apdu) ≡ c_string text =
        ap (λ m. c_string (drop m d.apdu)) (sym size)
        ∙ ap (λ l. c_string (drop (length key) l))
            (holds ∙ append_assoc key (c_string text) (replicate (suc n) 0))
        ∙ ap c_string (drop-append_all key (c_string text ++ replicate (suc n) 0))
        ∙ c_string-append text (replicate n 0) in
      (
        address_in (drop 32 d.apdu),
        refl,
        address_in-ShowsAddress (drop 32 d.apdu) text room text_there,
      )
