-- ===== src/Protocol/Laws.antt =====
-- What all commands rely on, in one place.
use ledger_sovereign.Base.{ℕ, ◌≡◌, ◌≢◌, some, length}
use ledger_sovereign.Platform.{Platform, IsSane, WritesSizes, WritesTexts, Keeps}
use ledger_sovereign.Device.{Moment}

pub record IsSound {B : Type 0} (p : Platform B) : Type 0 where
  pub sane : IsSane p.build
  pub sizes : WritesSizes p.cx
  pub texts : WritesTexts p.format
  pub keeps : Keeps p.buffering

-- The stack holds a whole private key, and the code of a failing PIN check is not that for a reset
-- of the link.
pub record IsUsual {B : Type 0} (p : Platform B) (now : Moment) : Type 0 where
  pub stack_size : length now.stack ≡ p.private_key_size
  pub no_reset : (e : ℕ) → now.pin_check ≡ some e → e ≢ p.io_reset
