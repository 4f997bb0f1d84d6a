-- ===== src/HostTests/Prints.antt =====
-- check_testcase.
use ledger_sovereign.Base.{ℕ, List, ◌==◌, if◌then◌else◌, take}
use ledger_sovereign.Platform.{Format}
use ledger_sovereign.Parser.{ParserError, ParserContext}
use ledger_sovereign.HostTests.{CheckResult, printed, asserted, Stack}
use ledger_sovereign.HostTests.Listing.{PrintsPages, listing}
use ledger_sovereign.HostTests.Loops.{IsStack}

module _ (f : Format) (pages : PrintsPages f) (ctx : ParserContext) (stack : Stack)
    (sizes : IsStack stack) where
  -- What check_testcase is to do on the first `n` of the bytes.
  abbrev expected : List ℕ → ℕ → CheckResult
  expected bytes n =
      if n == 0
      then asserted ParserError.init_context_empty
      else printed (listing f pages (take n bytes))
