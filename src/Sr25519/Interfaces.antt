-- ===== src/Sr25519/Interfaces.antt =====
-- The Rust crates that app/rust stands on, as operations: curve25519_dalek, merlin and schnorrkel.
use ledger_sovereign.Base.{ℕ, Option, List}

-- Over a type of scalars and a type of transcripts. A label comes before the bytes that it is for.
pub record Crates (S T : Type 0) : Type 0 where
  -- Scalar::zero, Scalar::from_bits, Scalar::from_bytes_mod_order_wide
  pub zero_scalar : S
  pub from_bits : List ℕ → S
  pub from_bytes_mod_order_wide : List ℕ → S
  -- the operators += and *= of scalars, and Scalar::to_bytes
  pub add : S → S → S
  pub mul : S → S → S
  pub to_bytes : S → List ℕ
  -- Transcript::new, append_message, challenge_bytes for a number of bytes, and zeroize
  pub new_transcript : List ℕ → T
  pub append_message : List ℕ → List ℕ → T → T
  pub challenge_bytes : List ℕ → ℕ → T → List ℕ × T
  pub zeroize : T → T
  -- SecretKey::from_ed25519_bytes and to_bytes of the key
  pub from_ed25519_bytes : List ℕ → Option (List ℕ)

-- The points of the group, for public keys and for verification: the multiples of the base point, the
-- multiples of a point, subtraction, and the compressed form of a point; and the scalar that 32 bytes
-- are the canonical form of.
pub record Points (S P : Type 0) : Type 0 where
  pub base_mul : S → P
  pub scale : S → P → P
  pub plus : P → P → P
  pub minus : P → P → P
  pub compress : P → List ℕ
  pub from_canonical_bytes : List ℕ → Option S
