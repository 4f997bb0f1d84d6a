-- ===== src/Platform/Laws.antt =====
-- What the program relies on of its parameters, each group a hypothesis by itself.
use ledger_sovereign.Base.{ℕ, ◌+◌, ◌/◌, ◌%◌, ◌≤◌, ◌<◌, ◌≡◌, ◌≢◌, some, List, [], ◌∷◌, ◌++◌, length}
use ledger_sovereign.Base.Memory.{copy_into, c_string}
use ledger_sovereign.Codes.{ZxErr, hrp, address_max_length}
use ledger_sovereign.Platform.Defs.{Build, Cx, Format, Buffering}

-- The buffer takes the largest short-APDU frame, a command has a whole header, and the exception
-- for a reset of the link is no return code.
pub record IsSane (b : Build) : Type 0 where
  pub min_header : 5 ≤ b.apdu_min_length
  pub room : 260 ≤ b.apdu_size
  pub word_size : b.apdu_size < 65536
  pub reset_small : b.io_reset < 4096

-- The sizes of what the SDK writes.
pub record WritesSizes (c : Cx) : Type 0 where
  pub derived : (path key : List ℕ) → c.derive_bip32 path ≡ some key → length key ≡ 64
  pub key :
      (bytes key : List ℕ) → c.init_private_key bytes ≡ some key → length key ≡ c.private_key_size
  pub point : (pub_key key w : List ℕ) → c.generate_pair pub_key key ≡ some w → length w ≡ 65
  pub signature :
      (key message : List ℕ) (room : ℕ) (s : List ℕ)
      → c.eddsa_sign key message room ≡ some s
      → length s ≡ 64
  pub digest : (input : List ℕ) → length (c.sha256 input) ≡ 32

-- An encoded address is a text that ends inside its buffer, and a return code is two bytes, the
-- high one first.
pub record WritesTexts (f : Format) : Type 0 where
  pub encoded :
      (out input text : List ℕ) (n pad : ℕ)
      → f.bech32m_encode out address_max_length hrp input n pad ≡ (ZxErr.ok, text)
      → length (c_string text) < address_max_length
  pub code :
      (buffer : List ℕ) (offset value : ℕ)
      → offset + 2 ≤ length buffer
      → f.set_code buffer offset value ≡ copy_into buffer offset (value / 256 ∷ value % 256 ∷ [])

-- An append is whole or refused: it is whole exactly when the bytes fit behind those already kept.
pub record Keeps {B : Type 0} (b : Buffering B) : Type 0 where
  pub reset_empty : (s : B) → b.contents (b.buffering_reset s) ≡ []
  pub reset_capacity : (s : B) → b.capacity (b.buffering_reset s) ≡ b.capacity s
  pub init_capacity : (ram flash : ℕ) (s : B) → b.capacity (b.buffering_init ram flash s) ≡ flash
  pub append_capacity :
      (bytes : List ℕ) (s : B) → b.capacity (b.buffering_append bytes s).0 ≡ b.capacity s
  pub append_fits :
      (bytes : List ℕ) (s : B)
      → length (b.contents s) + length bytes ≤ b.capacity s
      → ((b.buffering_append bytes s).1 ≡ length bytes)
        × (b.contents (b.buffering_append bytes s).0 ≡ b.contents s ++ bytes)
  pub append_full :
      (bytes : List ℕ) (s : B)
      → b.capacity s < length (b.contents s) + length bytes
      → (b.buffering_append bytes s).1 ≢ length bytes
