-- ===== src/Boot.antt =====
-- app/src/common/main.c. What it calls is not the application's own code: operations on a state of
-- which nothing is said, the last two of which may throw. The start of the SDK's exceptions is left
-- out.
use ledger_sovereign.Device.{Outcome, returned, thrown, fault}

-- `cpsie i`, view_init and os_boot return; app_init and app_main return or throw.
pub record Kernel (S : Type 0) : Type 0 where
  pub enable_interrupts : S → S
  pub view_init : S → S
  pub os_boot : S → S
  pub app_init : S → Outcome (Unit {0}) × S
  pub app_main : S → Outcome (Unit {0}) × S

module _ {S : Type 0} (k : Kernel S) where
  -- The body of the TRY block.
  abbrev pub try_block : S → Outcome (Unit {0}) × S
  try_block s =
      let (o, s') = k.app_init s in
      elim o [ returned _ ↦ k.app_main s' | thrown e ↦ (thrown e, s') | fault ↦ (fault, s') ]

  -- CATCH_OTHER: any code is dropped.
  abbrev pub catch_other : Outcome (Unit {0}) × S → Outcome (Unit {0}) × S
  catch_other (returned _, s) = (returned tt, s)
  catch_other (thrown e, s) = (returned tt, s)
  catch_other (fault, s) = (fault, s)

  unfoldable pub main : S → Outcome (Unit {0}) × S
  main s = catch_other (try_block (k.os_boot (k.view_init (k.enable_interrupts s))))
