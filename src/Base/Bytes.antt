-- ===== src/Base/Bytes.antt =====
-- Lists of numbers below a bound, and lists of bytes.
use Prim.Native.Nat.{ℕ, zero, suc, ◌<◌}
use mathlib.Core.List.{List, [], ◌∷◌}
use ledger_sovereign.Base.Lists.{take}

abbrev pub AllBelow : ℕ → List ℕ → Type 0
AllBelow n [] = Unit {0}
AllBelow n (x ∷ xs) = (x < n) × AllBelow n xs

abbrev pub IsBytes : List ℕ → Type 0
IsBytes = AllBelow 256

module _ (n : ℕ) where
  pub take-AllBelow : (k : ℕ) (xs : List ℕ) → AllBelow n xs → AllBelow n (take k xs)
  take-AllBelow zero xs h = tt
  take-AllBelow (suc k) [] h = tt
  take-AllBelow (suc k) (x ∷ xs) (small, h) = (small, take-AllBelow k xs h)
