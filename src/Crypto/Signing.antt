-- ===== src/Crypto/Signing.antt =====
-- The key functions: when they succeed, and what they leave in the buffer and in their locals.
use mathlib.Core.Option
use ledger_sovereign.Base.{
  append-nil, ℕ, ◌≤◌, ◌<◌, ◌≡◌, ◌≢◌, refl, ap, ◌∙◌, sym, ◌⊎◌, inl, inr, Option, none, some, List,
  arith, length, take, replicate, ◌++◌, Option-cases,
}
use ledger_sovereign.Base.Memory.{
  drop-all, Pointer, copy_into, memzero, memzero_all, length-copy_into, copy_into_front,
}
use ledger_sovereign.Codes.{ZxErr}
use ledger_sovereign.Platform.{Cx, WritesSizes}
use ledger_sovereign.Crypto.{
  mark_sign, copy_y, load_key, public_point, raw_signature, crypto_extract_public_key, crypto_sign,
}
use ledger_sovereign.Crypto.Locals.{Secrets, fresh, wipe}

-- Locals of the sizes that they are declared with.
abbrev Sized : ℕ → Secrets → Type 0
Sized size s = (length s.private_key_data ≡ 64) × (length s.private_key ≡ size)

-- No byte of a secret is left.
abbrev pub zeroed : ℕ → Secrets
zeroed size = record { private_key_data = replicate 64 0; private_key = replicate size 0 }

pub memzero_to : (xs : List ℕ) (n : ℕ) → length xs ≡ n → memzero xs n ≡ replicate n 0
memzero_to xs n h =
    ap (λ k. memzero xs k) (sym h) ∙ memzero_all xs ∙ ap (λ k. replicate {A = ℕ} k 0) h

wipe-zeroed : (size : ℕ) (s : Secrets) → Sized size s → wipe size s ≡ zeroed size
wipe-zeroed size s (hd, hk) = λ i. record {
  private_key_data = memzero_to s.private_key_data 64 hd i;
  private_key = memzero_to s.private_key size hk i;
}

module _ (c : Cx) (laws : WritesSizes c) (hd_path : List ℕ) (s : Secrets)
    (sized : Sized c.private_key_size s) where
  load_key-Sized : Sized c.private_key_size (load_key c hd_path s).1
  unfolding load_key
  load_key-Sized = grind (arith, length-copy_into, laws.key)

  public_point-Sized : Sized c.private_key_size (public_point c hd_path s).1
  unfolding public_point
  public_point-Sized = ground (arith, load_key-Sized)

  raw_signature-Sized :
      (message : List ℕ) (room : ℕ)
      → Sized c.private_key_size (raw_signature c hd_path message room s).1
  unfolding raw_signature
  raw_signature-Sized message room = ground (arith, load_key-Sized)

-- What the key functions compute where no call of the library fails.
abbrev pub signing_key : Cx → List ℕ → Option (List ℕ)
signing_key c hd_path = Option.bind (c.derive_bip32 hd_path) (λ d. c.init_private_key (take 32 d))

abbrev pub signature_of : Cx → List ℕ → List ℕ → ℕ → Option (List ℕ)
signature_of c hd_path message room =
    Option.bind (signing_key c hd_path) (λ key. c.eddsa_sign key message room)

abbrev pub point_of : Cx → List ℕ → Option (List ℕ)
point_of c hd_path =
    Option.bind (signing_key c hd_path)
      (λ key. Option.bind c.init_public_key (λ empty. c.generate_pair empty key))

pub copy_into_whole : (xs src : List ℕ) → length src ≡ length xs → copy_into xs 0 src ≡ src
copy_into_whole xs src h =
    copy_into_front xs src (omega arith)
    ∙ ap (λ l. src ++ l) (drop-all (length src) xs (omega arith))
    ∙ append-nil src

module _ (c : Cx) (laws : WritesSizes c) (hd_path stack : List ℕ)
    (stack_size : length stack ≡ c.private_key_size) where
  load_key_value : (load_key c hd_path (fresh stack)).0 ≡ signing_key c hd_path
  unfolding load_key Option.bind
  load_key_value = elim (Option-cases (c.derive_bip32 hd_path)) [
    | inl e ↦ rw e
    | inr (d, e) ↦ ground (arith, copy_into_whole (replicate 64 0) d (laws.derived hd_path d e))
  ]

  raw_signature_value :
      (message : List ℕ) (room : ℕ)
      → (raw_signature c hd_path message room (fresh stack)).0 ≡ signature_of c hd_path message room
  unfolding raw_signature Option.bind
  raw_signature_value message room = ground (arith, load_key_value)

  public_point_value : (public_point c hd_path (fresh stack)).0 ≡ point_of c hd_path
  unfolding public_point Option.bind
  public_point_value = ground (arith, load_key_value)

  -- crypto_sign with a buffer of at least 64 bytes and a message size that is not zero, when what the
  -- library writes has its documented sizes: it returns zxerr_ok and the library's signature, at the start
  -- of the buffer, of the message under the key of the path, or, where a call of the library
  -- fails, zxerr_unknown and a zeroed buffer. No byte of the key or of its data outlives the call.
  pub crypto_sign_lem :
      (buffer message : List ℕ) (room n : ℕ)
      → 64 ≤ room
      → n ≢ 0
      → crypto_sign c hd_path stack (some buffer) room (some message) n
        ≡ elim (signature_of c hd_path (take n message) room) [
          | none ↦ (ZxErr.unknown, some (memzero buffer room), some (zeroed c.private_key_size))
          | some s ↦ (ZxErr.ok, some (copy_into buffer 0 s), some (zeroed c.private_key_size))
        ]
  unfolding crypto_sign
  crypto_sign_lem buffer message room n hr hn =
      let raw = raw_signature c hd_path (take n message) room (fresh stack) in
      ground (
        arith,
        raw_signature_value (take n message) room,
        wipe-zeroed c.private_key_size raw.1 (
            raw_signature-Sized c laws hd_path (fresh stack) (refl, stack_size) (take n message)
              room),
      )

  -- crypto_extractPublicKey into a buffer of at least 32 bytes, with a library that writes the
  -- documented sizes and a whole key's memory on the stack: the encoded point of the path's key, or,
  -- where a call of the library fails, zxerr_unknown and a zeroed buffer. In both cases the private
  -- key and its data are zeroed.
  pub crypto_extract_public_key_lem :
      (buffer : List ℕ) (room : ℕ)
      → 32 ≤ room
      → crypto_extract_public_key c hd_path stack (some buffer) room ≡ elim (point_of c hd_path) [
        | none ↦ (ZxErr.unknown, some (memzero buffer room), some (zeroed c.private_key_size))
        | some w ↦
            (ZxErr.ok, some (mark_sign w (copy_y w buffer 32 0)), some (zeroed c.private_key_size))
      ]
  unfolding crypto_extract_public_key
  crypto_extract_public_key_lem buffer room hr =
      let raw = public_point c hd_path (fresh stack) in
      ground (
        arith,
        public_point_value,
        wipe-zeroed c.private_key_size raw.1
            (public_point-Sized c laws hd_path (fresh stack) (refl, stack_size)),
      )

module _ (c : Cx) (hd_path stack : List ℕ) where
  -- crypto_sign without a buffer, without a message, with room for less than 64 bytes or with a
  -- message size of zero: zxerr_invalid_crypto_settings, and the buffer is untouched.
  crypto_sign_rejects :
      (buffer message : Pointer) (room n : ℕ)
      → (buffer ≡ none) ⊎ (message ≡ none) ⊎ (room < 64) ⊎ (n ≡ 0)
      → crypto_sign c hd_path stack buffer room message n
        ≡ (ZxErr.invalid_crypto_settings, buffer, none)
  unfolding crypto_sign
  crypto_sign_rejects buffer message room n h = ground arith
