-- ===== src/Tests/Dumps.antt =====
-- The dump of a message at a concrete one.
use ledger_sovereign.Base.{ℕ, zero, suc, ◌≤◌, ◌≡◌, refl, false, none, List, arith, length}
use ledger_sovereign.Base.Memory.{c_string, print_text, c_string-print_text, length-print_text}
use ledger_sovereign.Base.Text.{codes}
use ledger_sovereign.Platform.{Format}
use ledger_sovereign.Parser.{ParserContext}
use ledger_sovereign.HostTests.Listing.{PrintsPages}
use ledger_sovereign.Tests.Sample.{format}

-- A library that prints two pages for any input.
abbrev two_pages : Format
two_pages = record format {
  page_string_hex = λ out size input page. (print_text out size (codes "A"), 2);
}

prints_a :
    (out : List ℕ) (size : ℕ)
    → 3 ≤ size
    → size ≤ length out
    → c_string (print_text out size (codes "A")) ≡ codes "A"
prints_a out zero h inside = absurd (omega arith)
prints_a out (suc zero) h inside = absurd (omega arith)
prints_a out (suc (suc zero)) h inside = absurd (omega arith)
prints_a out (suc (suc (suc n))) h inside =
    c_string-print_text out (suc (suc n)) (codes "A") refl (omega arith)

abbrev pages : PrintsPages two_pages
pages = record {
  page_text = λ size input page. codes "A";
  page_total = λ size input. 2;
  prints = λ out size input page h inside.
      (prints_a out size h inside, refl, length-print_text out size (codes "A"));
  ends = λ size input page h. omega arith;
  few = λ size input h. omega arith;
}

abbrev decode : List ℕ → ℕ → List ℕ → List ℕ × ℕ
decode out size text = (text, length text)

abbrev context : ParserContext
context = record { buffer = none; buffer_len = 7; offset = 3; tx_obj = false }
