-- ===== src/Sr25519/Keypair.antt =====
-- test_sign_verify and get_public_key_c of app/rust/src/lib.rs, for any key, context and message: a key
-- is made from an expanded ed25519 key, in place, and signs in two phases.
use ledger_sovereign.Base.{
  ℕ, ◌≡◌, refl, ap, sym, ◌∙◌, Option, none, some, List, length, take, replicate, arith, take_long,
  leb, le→leb, true, length-take,
}
use ledger_sovereign.Base.Memory.{copy_into}
use ledger_sovereign.Crypto.Signing.{copy_into_whole}
use ledger_sovereign.Sr25519.{
  Update, updated, panicked, out_of_bounds, get_sr25519_sk, ristretto_scalarmult, sign_sr25519,
}
use ledger_sovereign.Sr25519.Interfaces.{Crates, Points}
use ledger_sovereign.Sr25519.Buffers.{copy_into_zeros}
use ledger_sovereign.Sr25519.Laws.{IsGroup}

module _ {S T P : Type 0} (c : Crates S T) (g : Points S P) where
  -- The public key of the key in memory, and the signature by the key that the crate has made.
  abbrev sign_with : (ℕ → List ℕ) → List ℕ → Update → List ℕ → List ℕ → Option (List ℕ × List ℕ)
  sign_with cx_rng secret (updated sk) context msg =
      let pk = copy_into (replicate 32 0) 0 (ristretto_scalarmult c g sk) in
      elim (sign_sr25519 c g cx_rng secret pk context (length context) msg (length msg)
        (replicate 64 0)) [ none ↦ none | some signature ↦ some (pk, signature) ]
  sign_with cx_rng secret panicked context msg = none
  sign_with cx_rng secret out_of_bounds context msg = none

  -- `none` where the test panics.
  unfoldable pub sign_test : (ℕ → List ℕ) → List ℕ → List ℕ → List ℕ → Option (List ℕ × List ℕ)
  sign_test cx_rng sk_ed25519_expanded context msg =
      elim (c.from_ed25519_bytes sk_ed25519_expanded) [
        | none ↦ none
        | some secret ↦ sign_with cx_rng secret (get_sr25519_sk c sk_ed25519_expanded) context msg
      ]

  -- The key in memory, as get_public_key_c reads it: its public key in `pk`.
  abbrev public_key_of : Update → Option (List ℕ)
  public_key_of (updated sk) = some (copy_into (replicate 32 0) 0 (ristretto_scalarmult c g sk))
  public_key_of panicked = none
  public_key_of out_of_bounds = none

  -- get_public_key_c, up to the comparison, for any key.
  unfoldable get_public_key_c : List ℕ → Option (List ℕ)
  get_public_key_c sk_ed25519_expanded = public_key_of (get_sr25519_sk c sk_ed25519_expanded)

  made_in_place :
      (sk secret : List ℕ)
      → length sk ≡ 64
      → c.from_ed25519_bytes sk ≡ some secret
      → length secret ≡ 64
      → get_sr25519_sk c sk ≡ updated secret
  unfolding get_sr25519_sk
  made_in_place sk secret size accepted secret_size =
      let inside : leb 64 (length sk) ≡ true = le→leb 64 (length sk) (omega arith) in
      rw
        (
          inside,
          get_sr25519_sk,
          take_long 64 sk (omega arith),
          accepted,
          copy_into_whole sk secret (secret_size ∙ sym size),
        )
        refl

  module _ (laws : IsGroup c g) where
    -- ristretto_scalarmult into the 32 zeros of `pk`.
    public_key :
        (secret : List ℕ)
        → length secret ≡ 64
        → copy_into (replicate 32 0) 0 (ristretto_scalarmult c g secret)
          ≡ g.compress (g.base_mul (c.from_bits (take 32 secret)))
    public_key secret size =
        ap (λ l. copy_into (replicate 32 0) 0 (g.compress (g.base_mul (c.from_bits l))))
          (copy_into_zeros 32 (take 32 secret) (omega (arith, size, length-take 32 secret)))
        ∙ copy_into_zeros 32 _ (laws.point_size (g.base_mul (c.from_bits (take 32 secret))))

    -- With crates of the documented behaviour, for an expanded ed25519 key of 64 bytes of which the
    -- crate makes a secret key of 64: `pk` holds the encoded public key of the secret key.
    get_public_key_c_lem :
        (sk secret : List ℕ)
        → length sk ≡ 64
        → c.from_ed25519_bytes sk ≡ some secret
        → length secret ≡ 64
        → get_public_key_c sk ≡ some (g.compress (g.base_mul (c.from_bits (take 32 secret))))
    unfolding get_public_key_c
    get_public_key_c_lem sk secret size accepted secret_size =
        ap public_key_of (made_in_place sk secret size accepted secret_size)
        ∙ ap some (public_key secret secret_size)
