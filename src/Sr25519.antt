-- ===== src/Sr25519.antt =====
-- app/rust/src/lib.rs and app/rust/src/bolos.rs: sr25519 signatures in two phases. The caller puts
-- the commitment into the first half of the buffer between the phases, as the test of lib.rs does.
-- A function returns the memory that it writes to; `none` is a pointer with fewer bytes behind it than
-- the function reads.
pub mod Interfaces
pub mod Buffers
pub mod Laws
pub mod Verifier
pub mod Halves
pub mod Verifies
pub mod Keypair
use ledger_sovereign.Base.{
  ℕ, ◌%◌, ◌^◌, bit_or, Option, none, some, List, [], ◌∷◌, leb, if◌then◌else◌, length, take, get_or,
  replicate,
}
use ledger_sovereign.Base.Memory.{copy_into, slice}
use ledger_sovereign.Base.Text.{codes}
use ledger_sovereign.Crypto.Values.{le_value}
use Interfaces.{Crates, Points}

-- slice::from_raw_parts on the memory behind a pointer.
abbrev pub from_raw_parts : List ℕ → ℕ → Option (List ℕ)
from_raw_parts memory n = if leb n (length memory) then some (take n memory) else none

infixl 5 ◌>>=◌
-- The next step needs what the pointer reads.
abbrev ◌>>=◌ : Option (List ℕ) → (List ℕ → Option (List ℕ)) → Option (List ℕ)
none >>= next = none
some bytes >>= next = next bytes

-- Trng::fill_bytes on `n` zeros, for what cx_rng writes on that call.
abbrev pub fill_bytes : (ℕ → List ℕ) → ℕ → List ℕ
fill_bytes cx_rng n = copy_into (replicate n 0) 0 (cx_rng (n % 2 ^ 32))

-- Trng::next_u32 and Trng::next_u64: what cx_rng writes, lowest byte first.
abbrev pub next_u32 : (ℕ → List ℕ) → ℕ
next_u32 cx_rng = le_value (fill_bytes cx_rng 4)

abbrev pub next_u64 : (ℕ → List ℕ) → ℕ
next_u64 cx_rng = le_value (fill_bytes cx_rng 8)

-- What get_sr25519_sk does: a panic is a loop without end.
pub data Update : Type 0 where
  updated : List ℕ → Update
  panicked out_of_bounds : Update

module _ {S T : Type 0} (c : Crates S T) where
  abbrev pub mult_with_secret : S → List ℕ → S
  mult_with_secret k sk = c.mul k (c.from_bits (copy_into (replicate 32 0) 0 (take 32 sk)))

  -- The new scalar, and its bytes.
  abbrev pub add_witness : S → List ℕ → S × List ℕ
  add_witness k x = let k' = c.add k (c.from_bits x) in (k', c.to_bytes k')

  abbrev pub get_challenge_scalar : S → T → S × T
  get_challenge_scalar k tr =
      let (bytes, tr') = c.challenge_bytes (codes "sign:c") 64 tr in
      (c.add k (c.from_bytes_mod_order_wide (copy_into (replicate 64 0) 0 bytes)), tr')

  abbrev append_seeds : List (List ℕ) → T → T
  append_seeds [] br = br
  append_seeds (ns ∷ nonce_seeds) br =
      append_seeds nonce_seeds (c.append_message (codes "nonce-bytes") ns br)

  -- The witness, and the transcript afterwards.
  unfoldable pub get_witness_bytes_custom : (ℕ → List ℕ) → T → List (List ℕ) → List ℕ × T
  get_witness_bytes_custom cx_rng br nonce_seeds =
      let seeded = append_seeds nonce_seeds br in
      let random = c.append_message (codes "rng") (fill_bytes cx_rng 32) seeded in
      let (bytes, br') = c.challenge_bytes (codes "witness-bytes") 32 random in
      (copy_into (replicate 32 0) 0 bytes, c.zeroize br')

  -- The transcript of phase 1, from which the witness is drawn.
  unfoldable pub phase1_transcript : List ℕ → List ℕ → List ℕ → T
  phase1_transcript pk context message =
      let start = c.new_transcript (codes "SigningContext") in
      let in_context = c.append_message [] context start in
      let with_message = c.append_message (codes "sign-bytes") message in_context in
      let named = c.append_message (codes "proto-name") (codes "Schnorr-sig") with_message in
      c.append_message (codes "sign:pk") pk named

  -- The transcript of phase 2, from which the challenge is drawn; the commitment is the first half of
  -- the signature.
  unfoldable pub phase2_transcript : List ℕ → List ℕ → List ℕ → List ℕ → T
  phase2_transcript pk context message commitment =
      let start = c.new_transcript (codes "SigningContext") in
      let in_context = c.append_message [] context start in
      let with_message = c.append_message (codes "sign-bytes") message in_context in
      let named = c.append_message (codes "proto-name") (codes "Schnorr-sig") with_message in
      let keyed = c.append_message (codes "sign:pk") pk named in
      c.append_message (codes "sign:R") commitment keyed

  unfoldable pub sign_sr25519_phase1 :
      (ℕ → List ℕ) → List ℕ → List ℕ → List ℕ → ℕ → List ℕ → ℕ → List ℕ → Option (List ℕ)
  unfolding phase1_transcript
  sign_sr25519_phase1 cx_rng sk_ptr pk_ptr context_ptr context_len msg_ptr msg_len sig_ptr = do
    sk_ristretto_expanded ← from_raw_parts sk_ptr 64
    pk ← from_raw_parts pk_ptr 32
    context ← from_raw_parts context_ptr context_len
    message ← from_raw_parts msg_ptr msg_len
    signature ← from_raw_parts sig_ptr 64
    let x : List ℕ =
        (get_witness_bytes_custom cx_rng (phase1_transcript pk context message)
          (slice sk_ristretto_expanded 32 32 ∷ [])).0
    some (copy_into sig_ptr 32 x)

  -- What phase 2 leaves in the signature's buffer.
  unfoldable pub second_half : List ℕ → List ℕ → List ℕ → List ℕ → List ℕ → List ℕ
  unfolding phase2_transcript
  second_half sk pk context message sig_ptr =
      let tr = phase2_transcript pk context message (take 32 sig_ptr) in
      let x = copy_into (replicate 32 0) 0 (slice sig_ptr 32 32) in
      let (k, _) = get_challenge_scalar c.zero_scalar tr in
      let (_, bytes) = add_witness (mult_with_secret k sk) x in
      let written = copy_into sig_ptr 32 bytes in
      copy_into written 63 (bit_or (get_or written 63 0) 128 ∷ [])

  unfoldable pub sign_sr25519_phase2 :
      List ℕ → List ℕ → List ℕ → ℕ → List ℕ → ℕ → List ℕ → Option (List ℕ)
  sign_sr25519_phase2 sk_ptr pk_ptr context_ptr context_len msg_ptr msg_len sig_ptr = do
    sk_ristretto_expanded ← from_raw_parts sk_ptr 64
    pk ← from_raw_parts pk_ptr 32
    context ← from_raw_parts context_ptr context_len
    message ← from_raw_parts msg_ptr msg_len
    signature ← from_raw_parts sig_ptr 64
    some (second_half sk_ristretto_expanded pk context message sig_ptr)

  unfoldable pub get_sr25519_sk : List ℕ → Update
  get_sr25519_sk sk_ptr = elim (from_raw_parts sk_ptr 64) [
    | none ↦ out_of_bounds
    | some sk_ed25519_expanded ↦ elim (c.from_ed25519_bytes sk_ed25519_expanded) [
      | none ↦ panicked
      | some secret ↦ updated (copy_into sk_ptr 0 secret)
    ]
  ]

  module _ {P : Type 0} (g : Points S P) where
    -- ristretto_scalarmult of the tests: the compressed multiple of the base point.
    abbrev pub ristretto_scalarmult : List ℕ → List ℕ
    ristretto_scalarmult sk =
        g.compress (g.base_mul (c.from_bits (copy_into (replicate 32 0) 0 (take 32 sk))))

    -- The two phases, with the commitment put in between.
    unfoldable pub sign_sr25519 :
        (ℕ → List ℕ) → List ℕ → List ℕ → List ℕ → ℕ → List ℕ → ℕ → List ℕ → Option (List ℕ)
    sign_sr25519 cx_rng sk pk context context_len msg msg_len sig = do
      first ← sign_sr25519_phase1 cx_rng sk pk context context_len msg msg_len sig
      let x : List ℕ = slice first 32 32
      sign_sr25519_phase2 sk pk context context_len msg msg_len
          (copy_into first 0 (ristretto_scalarmult x))
