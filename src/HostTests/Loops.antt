-- ===== src/HostTests/Loops.antt =====
-- The loops of dumpUI.
use ledger_sovereign.Base.{
  ℕ, zero, suc, ◌+◌, ◌-◌, ◌%◌, ◌^◌, ◌<◌, ◌≤◌, ◌≡◌, refl, sym, ap, ◌∙◌, true, some, List, [], ◌∷◌,
  ◌++◌, lt→ltb, le→ltb, length, arith, append-nil, append_assoc,
}
use ledger_sovereign.Base.Memory.{c_string}
use ledger_sovereign.Base.Text.{codes}
use ledger_sovereign.Platform.{Format}
use ledger_sovereign.Parser.{ParserError, ParserContext, ParserTx, Item, deref, parser_get_item}
use ledger_sovereign.Parser.Items.{get_item_first, get_item_blob, cleaned, length-cleaned_val}
use ledger_sovereign.HostTests.{
  Stack, text_in, dump_line, dump_pages, dump_items, decimal, page_mark, dump_ui,
}
use ledger_sovereign.HostTests.Listing.{PrintsPages, message_line, message_lines, listing}

text_in-some :
    (buffer text : List ℕ)
    → c_string buffer ≡ text
    → length text < length buffer
    → text_in buffer ≡ some text
text_in-some buffer text h short = rw (h, lt→ltb (length text) (length buffer) short) refl

-- The char buffers have 1000 bytes.
abbrev pub IsStack : Stack → Type 0
IsStack stack = (idx : ℕ) → (length (stack idx).0 ≡ 1000) × (length (stack idx).1 ≡ 1000)

module _ (f : Format) (ctx : ParserContext) (obj : ParserTx) (k v idx : ℕ) where
  -- One round of the loop over the pages, on a page that can be fetched.
  round_listed :
      (fuel : ℕ) (key val : List ℕ) (page count : ℕ) (answer : List (List ℕ)) (i : Item)
      (key_text val_text : List ℕ) (next : ℕ)
      → page < count
      → parser_get_item f ctx obj idx key k val v page ≡ some (ParserError.ok, i)
      → text_in i.out_key ≡ some key_text
      → text_in i.out_val ≡ some val_text
      → i.page_count ≡ next
      → dump_pages f (suc fuel) ctx obj k v idx key val page count answer
        ≡ dump_pages f fuel ctx obj k v idx i.out_key i.out_val ((page + 1) % 2 ^ 8) next (
            answer
            ++ (decimal idx
                ++ codes " | "
                ++ key_text
                ++ page_mark page next
                ++ codes " : "
                ++ val_text)
              ∷ [])
  unfolding dump_pages dump_line
  round_listed fuel key val page count answer i key_text val_text next more e shown_key shown_val
        same =
      rw (lt→ltb page count more, e, shown_key, shown_val, same) refl

  -- No page is left.
  pages_done :
      (fuel : ℕ) (key val : List ℕ) (page count : ℕ) (answer : List (List ℕ))
      → count ≤ page
      → dump_pages f (suc fuel) ctx obj k v idx key val page count answer ≡ some answer
  unfolding dump_pages
  pages_done fuel key val page count answer h = rw (le→ltb page count h) refl

module _ (f : Format) (pages : PrintsPages f) (ctx : ParserContext) (obj : ParserTx)
    (message : List ℕ) (points : ctx.tx_obj ≡ true)
    (readable : deref obj.tx_blind_signature ≡ some message) where
  abbrev total : ℕ
  total = pages.page_total 39 message

  first_listed :
      (key val : List ℕ)
      → length key ≡ 1000
      → length val ≡ 1000
      → dump_pages f 257 ctx obj 39 39 0 key val 0 1 [] ≡ some (codes "0 | Blind : Signing" ∷ [])
  first_listed key val hk hv =
      let (i, e, key_text, val_text, count, key_size, val_size) =
        get_item_first f ctx obj key val 38 38 0 (omega arith) (omega arith) in
      let shown_key = text_in-some i.out_key (codes "Blind") key_text (omega (arith, key_size)) in
      let shown_val = text_in-some i.out_val (codes "Signing") val_text (omega (arith, val_size)) in
      round_listed f ctx obj 39 39 0 256 key val 0 1 [] i (codes "Blind") (codes "Signing") 1
        (omega arith) e shown_key shown_val count
      ∙ pages_done f ctx obj 39 39 0 255 i.out_key i.out_val 1 1 (codes "0 | Blind : Signing" ∷ [])
          (omega arith)

  -- One round of the loop over the pages of the message.
  page_listed :
      (fuel : ℕ) (key val : List ℕ) (page count : ℕ) (answer : List (List ℕ))
      → length key ≡ 1000
      → length val ≡ 1000
      → page < count
      → (key' val' : List ℕ) × (length key' ≡ 1000)
        × (length val' ≡ 1000)
        × (dump_pages f (suc fuel) ctx obj 39 39 1 key val page count answer
            ≡ dump_pages f fuel ctx obj 39 39 1 key' val'
                ((page + 1) % 2 ^ 8)
                total
                (answer ++ message_line f pages message page ∷ []))
  page_listed fuel key val page count answer hk hv more =
      let (i, e, key_text, val_text, key_size) =
        get_item_blob f ctx obj key val 38 38 page message points readable (omega arith) in
      let out : List ℕ = (cleaned key val 39 39).out_val in
      let out_size : length out ≡ length val = length-cleaned_val key val 39 39 in
      let (text, count_is, size) =
        pages.prints out 39 message page (omega arith) (omega (arith, out_size)) in
      let value_text : c_string i.out_val ≡ pages.page_text 39 message page =
        ap c_string (λ j. (val_text j).0) ∙ text in
      let value_size : length i.out_val ≡ 1000 =
        ap length (λ j. (val_text j).0) ∙ size ∙ out_size ∙ hv in
      let page_count : i.page_count ≡ total = (λ j. (val_text j).1) ∙ count_is in
      let shown_key = text_in-some i.out_key (codes "Txn") key_text (omega (arith, key_size)) in
      let shown_val =
        text_in-some i.out_val (pages.page_text 39 message page) value_text
          (omega (arith, pages.ends 39 message page (omega arith))) in
      (
        i.out_key,
        i.out_val,
        key_size ∙ hk,
        value_size,
        round_listed f ctx obj 39 39 1 fuel key val page count answer i (codes "Txn")
            (pages.page_text 39 message page) total more e shown_key shown_val page_count,
      )

  -- The `n` pages from `page` on.
  pages_listed :
      (n fuel : ℕ) (key val : List ℕ) (page : ℕ) (answer : List (List ℕ))
      → length key ≡ 1000
      → length val ≡ 1000
      → n ≡ total - page
      → page < 256
      → n < fuel
      → dump_pages f fuel ctx obj 39 39 1 key val page total answer
        ≡ some (answer ++ message_lines f pages message n page)
  pages_listed zero zero key val page answer hk hv left small enough = absurd (omega arith)
  pages_listed zero (suc fuel) key val page answer hk hv left small enough =
      pages_done f ctx obj 39 39 1 fuel key val page total answer (omega arith)
      ∙ ap some (sym (append-nil answer))
  pages_listed (suc n) zero key val page answer hk hv left small enough = absurd (omega arith)
  pages_listed (suc n) (suc fuel) key val page answer hk hv left small enough =
      let few : total < 256 = pages.few 39 message (omega arith) in
      let (key', val', hk', hv', one) =
        page_listed fuel key val page total answer hk hv (omega arith) in
      let next : (page + 1) % 2 ^ 8 ≡ page + 1 = omega arith in
      one
      ∙ ap
          (λ j.
            dump_pages f fuel ctx obj 39 39 1 key' val' j total
              (answer ++ message_line f pages message page ∷ []))
          next
      ∙ pages_listed n fuel key' val' (page + 1) (answer ++ message_line f pages message page ∷ [])
          hk' hv' (omega arith) (omega arith) (omega arith)
      ∙ ap some (append_assoc answer (message_line f pages message page ∷ []) _)

  -- All pages, the first of which is printed in any case.
  message_listed :
      (key val : List ℕ) (answer : List (List ℕ))
      → length key ≡ 1000
      → length val ≡ 1000
      → dump_pages f 257 ctx obj 39 39 1 key val 0 1 answer
        ≡ some (answer ++ message_lines f pages message (suc (total - 1)) 0)
  message_listed key val answer hk hv =
      let few : total < 256 = pages.few 39 message (omega arith) in
      let (key', val', hk', hv', one) = page_listed 256 key val 0 1 answer hk hv (omega arith) in
      one
      ∙ pages_listed (total - 1) 256 key' val' 1 (answer ++ message_line f pages message 0 ∷ []) hk'
          hv' (omega arith) (omega arith) (omega arith)
      ∙ ap some (append_assoc answer (message_line f pages message 0 ∷ []) _)

  pub dump_ui_lists :
      (stack : Stack)
      → IsStack stack
      → dump_ui f ctx obj stack 39 39 ≡ some (listing f pages message)
  unfolding dump_ui dump_items
  dump_ui_lists stack sizes =
      rw
        (
          first_listed (stack 0).0 (stack 0).1 (sizes 0).0 (sizes 0).1,
          message_listed (stack 1).0 (stack 1).1 (codes "0 | Blind : Signing" ∷ []) (sizes 1).0
              (sizes 1).1,
        )
        refl
