-- ===== src/HostTests/Listing.antt =====
-- What the dump of a readable message is expected to list, and what it relies on of the library.
use ledger_sovereign.Base.{ℕ, zero, suc, ◌+◌, ◌-◌, ◌<◌, ◌≤◌, ◌≡◌, List, [], ◌∷◌, ◌++◌, length}
use ledger_sovereign.Base.Memory.{c_string}
use ledger_sovereign.Base.Text.{codes}
use ledger_sovereign.Platform.{Format}
use ledger_sovereign.HostTests.{page_mark}

-- pageStringHex into a buffer with room for one byte in hex: the text of the page and the number of
-- pages depend on the size, the input and the page, and not on what the buffer held; the text ends
-- inside the size, and there are at most 255 pages.
pub record PrintsPages (f : Format) : Type 0 where
  pub page_text : ℕ → List ℕ → ℕ → List ℕ
  pub page_total : ℕ → List ℕ → ℕ
  pub prints :
      (out : List ℕ) (size : ℕ) (input : List ℕ) (page : ℕ)
      → 3 ≤ size
      → size ≤ length out
      → let (out', pages) = f.page_string_hex out size input page in
        (c_string out' ≡ page_text size input page)
        × (pages ≡ page_total size input)
        × (length out' ≡ length out)
  pub ends :
      (size : ℕ) (input : List ℕ) (page : ℕ) → 3 ≤ size → length (page_text size input page) < size
  pub few : (size : ℕ) (input : List ℕ) → 3 ≤ size → page_total size input < 256

module _ (f : Format) (pages : PrintsPages f) (message : List ℕ) where
  -- The line of a page of the message, in outputs of 39 bytes.
  abbrev pub message_line : ℕ → List ℕ
  message_line page =
      codes "1 | Txn"
      ++ page_mark page (pages.page_total 39 message)
      ++ codes " : "
      ++ pages.page_text 39 message page

  -- The lines of `n` pages from `page` on.
  abbrev pub message_lines : ℕ → ℕ → List (List ℕ)
  message_lines zero page = []
  message_lines (suc n) page = message_line page ∷ message_lines n (page + 1)

  -- The announcement, and every page of the message; the first page even if there are none.
  abbrev pub listing : List (List ℕ)
  listing = codes "0 | Blind : Signing" ∷ message_lines (suc (pages.page_total 39 message - 1)) 0
