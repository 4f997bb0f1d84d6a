-- ===== src/Sr25519/Laws.antt =====
-- What the signatures rely on of the crates: their documented behaviour.
use ledger_sovereign.Base.{ℕ, ◌<◌, ◌≡◌, some, List, length, get_or}
use ledger_sovereign.Sr25519.Interfaces.{Crates, Points}

-- Arithmetic on scalars agrees with the group of their multiples; a sum is reduced below 2^253, so that
-- its 32 bytes are canonical and leave the top bit clear; and the other sizes.
pub record IsGroup {S T P : Type 0} (c : Crates S T) (g : Points S P) : Type 0 where
  pub sum : (a b : S) → g.base_mul (c.add a b) ≡ g.plus (g.base_mul a) (g.base_mul b)
  pub product : (a b : S) → g.base_mul (c.mul a b) ≡ g.scale a (g.base_mul b)
  pub zero_sum : (a : S) (w : P) → g.scale (c.add c.zero_scalar a) w ≡ g.scale a w
  pub difference : (v w : P) → g.minus (g.plus v w) v ≡ w
  pub canonical : (a b : S) → g.from_canonical_bytes (c.to_bytes (c.add a b)) ≡ some (c.add a b)
  pub scalar_size : (a : S) → length (c.to_bytes a) ≡ 32
  pub reduced : (a b : S) → get_or (c.to_bytes (c.add a b)) 31 0 < 128
  pub point_size : (w : P) → length (g.compress w) ≡ 32
  pub challenge_size : (label : List ℕ) (n : ℕ) (t : T) → length (c.challenge_bytes label n t).0 ≡ n
