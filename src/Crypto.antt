-- ===== src/Crypto.antt =====
-- app/src/crypto.c and app/src/crypto_helper.c: keys, signatures and addresses. A buffer argument
-- is a nullable pointer to bytes, and the function returns what it points to afterwards.
pub mod Locals
pub mod Signing
pub mod Values
pub mod Point
pub mod Encoded
pub mod Address
pub mod Filled
use ledger_sovereign.Base.{
  ℕ, zero, suc, ◌+◌, ◌-◌, ◌%◌, ◌^◌, bit_or, Bool, true, false, ◌||◌, Option, none, some, List, [],
  ◌∷◌, ltb, ◌==◌, if◌then◌else◌, length, take, get_or, replicate,
}
use mathlib.Core.Option
use ledger_sovereign.Base.Memory.{Pointer, copy_into, memzero, c_string}
use ledger_sovereign.Codes.{
  ZxErr, scalar_len_ed25519, ed25519_signature_size, pk_len_25519, address_max_length,
  pubkey_sha_len, hrp,
}
use ledger_sovereign.Platform.{Cx, Format}
use Locals.{
  Secrets, Guarded, ◌>>=◌, ◌>>◌, fresh, wipe, pure, catch_cx_error, put_key_data, put_key,
  get_key_data, label_error,
}

abbrev pub is_null : Pointer → Bool
is_null none = true
is_null (some bytes) = false

-- The loop over `i` that copies the y coordinate, last byte first: rounds left, then `i`.
unfoldable pub copy_y : List ℕ → List ℕ → ℕ → ℕ → List ℕ
copy_y w pub_key zero i = pub_key
copy_y w pub_key (suc rounds) i =
    copy_y w (copy_into pub_key i (get_or w (64 - i) 0 ∷ [])) rounds (i + 1)

-- The sign bit, where the x coordinate is odd (`& 1` is `% 2`).
unfoldable pub mark_sign : List ℕ → List ℕ → List ℕ
mark_sign w pub_key =
    if get_or w pk_len_25519 0 % 2 == 0
    then pub_key
    else copy_into pub_key 31 (bit_or (get_or pub_key 31 0) 0x80 ∷ [])

-- The end of crypto_fillAddress, from the strlen on. The address is the text in its own
-- buffer; `*addrResponseLen` is a uint16_t.
unfoldable pub place_address : List ℕ → ℕ → List ℕ → ℕ → ZxErr × Pointer × Option ℕ
place_address buffer buffer_len encoded response_len =
    let address = c_string encoded in
    if ltb (buffer_len - pk_len_25519) (length address)
    then (ZxErr.buffer_too_small, some (memzero buffer buffer_len), some response_len)
    else (
      ZxErr.ok,
      some (copy_into buffer pk_len_25519 address),
      some ((pk_len_25519 + length address) % 2 ^ 16),
    )

module _ (c : Cx) where
  -- The derivation of the private key, with which both key functions begin.
  unfoldable pub load_key : List ℕ → Guarded (List ℕ)
  load_key hd_path = do
    derived ← catch_cx_error (c.derive_bip32 hd_path)
    put_key_data derived
    bytes ← get_key_data
    key ← catch_cx_error (c.init_private_key (take scalar_len_ed25519 bytes))
    put_key key
    pure key

  -- The calls of crypto_extractPublicKey up to the point `W`.
  unfoldable pub public_point : List ℕ → Guarded (List ℕ)
  public_point hd_path = do
    key ← load_key hd_path
    empty ← catch_cx_error c.init_public_key
    catch_cx_error (c.generate_pair empty key)

  -- The error code and the buffer, and the locals on return, none where they are not entered.
  -- `stack` is the uninitialised `cx_privateKey`.
  unfoldable pub crypto_extract_public_key :
      List ℕ → List ℕ → Pointer → ℕ → ZxErr × Pointer × Option Secrets
  crypto_extract_public_key hd_path stack none pub_key_len =
      (ZxErr.invalid_crypto_settings, none, none)
  crypto_extract_public_key hd_path stack (some pub_key) pub_key_len =
      if ltb pub_key_len pk_len_25519
      then (ZxErr.invalid_crypto_settings, some pub_key, none)
      else (let (point, locals) = public_point hd_path (fresh stack) in
          let out : List ℕ = elim point [
            | none ↦ memzero pub_key pub_key_len
            | some w ↦ mark_sign w (copy_y w pub_key pk_len_25519 0)
          ] in
          (label_error point, some out, some (wipe c.private_key_size locals)))

  -- The calls of crypto_sign up to the signature.
  unfoldable pub raw_signature : List ℕ → List ℕ → ℕ → Guarded (List ℕ)
  raw_signature hd_path message room = do
    key ← load_key hd_path
    catch_cx_error (c.eddsa_sign key message room)

  -- As above; the message is the first `message_len` bytes at its pointer.
  unfoldable pub crypto_sign :
      List ℕ → List ℕ → Pointer → ℕ → Pointer → ℕ → ZxErr × Pointer × Option Secrets
  crypto_sign hd_path stack none room message message_len =
      (ZxErr.invalid_crypto_settings, none, none)
  crypto_sign hd_path stack (some buffer) room none message_len =
      (ZxErr.invalid_crypto_settings, some buffer, none)
  crypto_sign hd_path stack (some buffer) room (some message) message_len =
      if ltb room ed25519_signature_size || message_len == 0
      then (ZxErr.invalid_crypto_settings, some buffer, none)
      else (let (signature, locals) =
            raw_signature hd_path (take message_len message) room (fresh stack) in
          let out : List ℕ = elim signature [
            | none ↦ memzero buffer room
            | some bytes ↦ copy_into buffer 0 bytes
          ] in
          (label_error signature, some out, some (wipe c.private_key_size locals)))

  -- The hash is cx_hash_sha256 on the device and that of picohash.h on a host.
  unfoldable pub crypto_compute_sha256 : Pointer → ℕ → Pointer → ℕ → ZxErr × Pointer
  crypto_compute_sha256 none output_len input input_len = (ZxErr.invalid_crypto_settings, none)
  crypto_compute_sha256 (some output) output_len none input_len =
      (ZxErr.invalid_crypto_settings, some output)
  crypto_compute_sha256 (some output) output_len (some input) input_len =
      if output_len == 0
      then (ZxErr.invalid_crypto_settings, some output)
      else (if ltb output_len pk_len_25519 then (ZxErr.invalid_crypto_settings, some output) else (
        ZxErr.ok,
        some (copy_into (memzero output output_len) 0 (c.sha256 (take input_len input))),
      ))

  module _ (f : Format) where
    -- The bech32m text of the first 28 bytes of the digest `sha`, CHECK_ZXERR on the way in.
    abbrev pub encode_digest : List ℕ → ZxErr × Pointer → ZxErr × Pointer
    encode_digest address (ZxErr.ok, some sha) =
        let (e, text) = f.bech32m_encode address address_max_length hrp sha pubkey_sha_len 1 in
        (e, some text)
    encode_digest address (ZxErr.ok, none) = (ZxErr.ok, some address)
    encode_digest address (failed, _) = (failed, some address)

    unfoldable pub crypto_compute_address : Pointer → ℕ → Pointer → ZxErr × Pointer
    unfolding crypto_compute_sha256
    crypto_compute_address none address_len pubkey = (ZxErr.invalid_crypto_settings, none)
    crypto_compute_address (some address) address_len none =
        (ZxErr.invalid_crypto_settings, some address)
    crypto_compute_address (some address) address_len (some pubkey) =
        if address_len == 0
        then (ZxErr.invalid_crypto_settings, some address)
        else (if ltb address_len address_max_length
            then (ZxErr.invalid_crypto_settings, some address)
            else (encode_digest (memzero address address_len) (
                crypto_compute_sha256 (some (replicate pk_len_25519 0)) pk_len_25519 (some pubkey)
                  pk_len_25519)))

    -- What follows the public key, which stands in the buffer.
    unfoldable pub append_address : List ℕ → ℕ → ℕ → ZxErr × Pointer × Option ℕ
    append_address buffer buffer_len response_len =
        let (e, encoded) =
          crypto_compute_address (some (replicate address_max_length 0)) address_max_length
            (some buffer) in
        elim e [
          | ZxErr.ok ↦ place_address buffer buffer_len (Option.get_or encoded []) response_len
          | failed ↦ (failed, some (memzero buffer buffer_len), some response_len)
        ]

    -- The error code, the buffer and `*addrResponseLen` (a nullable pointer too).
    unfoldable pub crypto_fill_address :
        List ℕ → List ℕ → Pointer → ℕ → Option ℕ → ZxErr × Pointer × Option ℕ
    crypto_fill_address hd_path stack none buffer_len response =
        (ZxErr.invalid_crypto_settings, none, response)
    crypto_fill_address hd_path stack (some buffer) buffer_len none =
        (ZxErr.invalid_crypto_settings, some buffer, none)
    crypto_fill_address hd_path stack (some buffer) buffer_len (some response_len) =
        if ltb buffer_len (pk_len_25519 + address_max_length)
        then (ZxErr.buffer_too_small, some buffer, some response_len)
        else (let (e, key_buffer, _) =
              crypto_extract_public_key hd_path stack (some (memzero buffer buffer_len))
                buffer_len in
            elim e [
              | ZxErr.ok ↦ append_address (Option.get_or key_buffer []) buffer_len response_len
              | failed ↦ (failed, key_buffer, some response_len)
            ])
