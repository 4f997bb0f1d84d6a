-- ===== src/Crypto/Address.antt =====
-- crypto_fillAddress: the public key and the address in the caller's buffer.
use mathlib.Core.Option
use ledger_sovereign.Base.{
  ltb, le→ltb, false, ℕ, ◌+◌, ◌-◌, ◌%◌, ◌^◌, ◌≤◌, ◌<◌, ◌≡◌, ◌≢◌, ap, ◌∙◌, sym, none, some, List,
  ◌++◌, arith, length, take, replicate, length-append, length-replicate, take-append_exact,
}
use ledger_sovereign.Base.Memory.{
  drop-replicate, Pointer, copy_into, memzero, c_string, length-copy_into, copy_into_after,
  memzero_all,
}
use ledger_sovereign.Codes.{ZxErr, hrp}
use ledger_sovereign.Platform.{Cx, Format, WritesSizes, WritesTexts}
use ledger_sovereign.Crypto.{
  crypto_extract_public_key, crypto_compute_address, place_address, append_address,
  crypto_fill_address,
}
use ledger_sovereign.Crypto.Locals.{Secrets}
use ledger_sovereign.Crypto.Signing.{
  memzero_to, zeroed, point_of, crypto_extract_public_key_lem, copy_into_whole,
}
use ledger_sovereign.Crypto.Encoded.{encoded_point, length-encoded_point, encoded_in_buffer}

-- What the library's bech32m encoder answers for a public key.
abbrev pub encoded_address : Cx → Format → List ℕ → ZxErr × List ℕ
encoded_address c f key = f.bech32m_encode (replicate 66 0) 66 hrp (c.sha256 key) 28 1

-- crypto_computeAddress on the buffer that begins with the key, as crypto_fillAddress calls it.
pub compute_address_lem :
    (c : Cx) (f : Format) (key rest : List ℕ)
    → WritesSizes c
    → length key ≡ 32
    → crypto_compute_address c f (some (replicate 66 0)) 66 (some (key ++ rest))
      ≡ ((encoded_address c f key).0, some (encoded_address c f key).1)
unfolding crypto_compute_address
compute_address_lem c f key rest laws h = rw (
  ap (λ n. take n (key ++ rest)) (sym h) ∙ take-append_exact key rest,
  copy_into_whole (replicate 32 0) (c.sha256 key) (laws.digest key),
)

module _ (c : Cx) (f : Format) (laws : WritesSizes c) (hd_path stack : List ℕ)
    (stack_size : length stack ≡ c.private_key_size) (buffer : List ℕ) (room : 98 ≤ length buffer)
    (response_len : ℕ) where
  -- crypto_extractPublicKey on the zeroed buffer.
  abbrev extracted : ZxErr × Pointer × Option.Option Secrets
  extracted =
      crypto_extract_public_key c hd_path stack (some (memzero buffer (length buffer)))
        (length buffer)

  zeros : memzero buffer (length buffer) ≡ replicate (length buffer) 0
  zeros = memzero_all buffer

  zeros_again :
      memzero (memzero buffer (length buffer)) (length buffer) ≡ replicate (length buffer) 0
  zeros_again =
      memzero_to (memzero buffer (length buffer)) (length buffer)
        (length-copy_into buffer 0 (replicate (length buffer) 0))

  extracted-none :
      point_of c hd_path ≡ none
      → extracted
        ≡ (ZxErr.unknown, some (replicate (length buffer) 0), some (zeroed c.private_key_size))
  extracted-none failed =
      crypto_extract_public_key_lem c laws hd_path stack stack_size _ (length buffer) (omega arith)
      ∙ rw (failed, zeros_again)

  extracted-some :
      (w : List ℕ)
      → point_of c hd_path ≡ some w
      → extracted ≡ (
        ZxErr.ok,
        some (encoded_point w ++ replicate (length buffer - 32) 0),
        some (zeroed c.private_key_size),
      )
  extracted-some w point =
      crypto_extract_public_key_lem c laws hd_path stack stack_size _ (length buffer) (omega arith)
      ∙ rw (point, zeros, encoded_in_buffer w (length buffer) (omega arith))

  -- crypto_fillAddress into a buffer of at least 98 bytes, with a library that writes the documented
  -- sizes, when one of its calls on the path's key fails: zxerr_unknown, the buffer is zeroed, and the
  -- length stays.
  pub crypto_fill_address_no_key :
      point_of c hd_path ≡ none
      → crypto_fill_address c f hd_path stack (some buffer) (length buffer) (some response_len)
        ≡ (ZxErr.unknown, some (replicate (length buffer) 0), some response_len)
  unfolding crypto_fill_address
  crypto_fill_address_no_key failed = ground (arith, extracted-none failed)

  module _ (w : List ℕ) (point : point_of c hd_path ≡ some w) where
    -- The buffer when the key stands in it.
    abbrev keyed : List ℕ
    keyed = encoded_point w ++ replicate (length buffer - 32) 0

    length-keyed : length keyed ≡ length buffer
    length-keyed = omega (
      arith,
      length-append (encoded_point w) (replicate (length buffer - 32) 0),
      length-encoded_point w,
      length-replicate {A = ℕ} (length buffer - 32) 0,
    )

    fill_after_key :
        crypto_fill_address c f hd_path stack (some buffer) (length buffer) (some response_len)
        ≡ append_address c f keyed (length buffer) response_len
    unfolding crypto_fill_address
    fill_after_key = ground (arith, extracted-some w point)

    computed : crypto_compute_address c f (some (replicate 66 0)) 66 (some keyed) ≡ (
      (encoded_address c f (encoded_point w)).0,
      some (encoded_address c f (encoded_point w)).1,
    )
    computed =
        compute_address_lem c f (encoded_point w) (replicate (length buffer - 32) 0) laws
          (length-encoded_point w)

    append_address_no_text :
        (encoded_address c f (encoded_point w)).0 ≢ ZxErr.ok
        → append_address c f keyed (length buffer) response_len ≡ (
          (encoded_address c f (encoded_point w)).0,
          some (replicate (length buffer) 0),
          some response_len,
        )
    unfolding append_address
    append_address_no_text failed =
        ground (arith, computed, memzero_to keyed (length buffer) length-keyed)

    append_address_ok :
        (text : List ℕ)
        → encoded_address c f (encoded_point w) ≡ (ZxErr.ok, text)
        → append_address c f keyed (length buffer) response_len
          ≡ place_address keyed (length buffer) text response_len
    unfolding append_address
    append_address_ok text answered = ground (arith, computed)

    placed :
        (address : List ℕ)
        → length address < 66
        → copy_into keyed 32 address
          ≡ encoded_point w ++ address ++ replicate (length buffer - 32 - length address) 0
    placed address short =
        ap (λ k. copy_into keyed k address) (sym (length-encoded_point w))
        ∙ copy_into_after (encoded_point w) (replicate (length buffer - 32) 0) address
            (omega (arith, length-replicate {A = ℕ} (length buffer - 32) 0))
        ∙ ap (λ l. encoded_point w ++ address ++ l)
            (drop-replicate (length address) (length buffer - 32))

    place_address_ok :
        (text : List ℕ)
        → length (c_string text) < 66
        → place_address keyed (length buffer) text response_len ≡ (
          ZxErr.ok,
          some (
              encoded_point w
              ++ c_string text
              ++ replicate (length buffer - 32 - length (c_string text)) 0),
          some (32 + length (c_string text)),
        )
    unfolding place_address
    place_address_ok text short =
        let room_left : ltb (length buffer - 32) (length (c_string text)) ≡ false =
          le→ltb _ _ (omega arith) in
        let no_wrap : (32 + length (c_string text)) % 2 ^ 16 ≡ 32 + length (c_string text) =
          omega arith in
        rw (place_address, room_left, placed (c_string text) short, no_wrap)

    -- crypto_fillAddress into a buffer of at least 98 bytes, with a library that writes the
    -- documented sizes and finds the point of the path's key, when the encoder of the address fails:
    -- its error is passed on, the buffer is zeroed, the key in it as well, and the length stays.
    pub crypto_fill_address_no_text :
        (encoded_address c f (encoded_point w)).0 ≢ ZxErr.ok
        → crypto_fill_address c f hd_path stack (some buffer) (length buffer) (some response_len)
          ≡ (
            (encoded_address c f (encoded_point w)).0,
            some (replicate (length buffer) 0),
            some response_len,
          )
    crypto_fill_address_no_text failed = fill_after_key ∙ append_address_no_text failed

    -- crypto_fillAddress into a buffer of at least 98 bytes, when the library finds the point of the
    -- path's key and encodes the address, in the documented sizes: the buffer holds the encoded key,
    -- then the text of the address, then zeros, and the length is that of the first two.
    pub crypto_fill_address_answers :
        (text : List ℕ)
        → WritesTexts f
        → encoded_address c f (encoded_point w) ≡ (ZxErr.ok, text)
        → crypto_fill_address c f hd_path stack (some buffer) (length buffer) (some response_len)
          ≡ (
            ZxErr.ok,
            some (
                encoded_point w
                ++ c_string text
                ++ replicate (length buffer - 32 - length (c_string text)) 0),
            some (32 + length (c_string text)),
          )
    crypto_fill_address_answers text texts answered =
        fill_after_key
        ∙ append_address_ok text answered
        ∙ place_address_ok text
            (texts.encoded (replicate 66 0) (c.sha256 (encoded_point w)) text 28 1 answered)
