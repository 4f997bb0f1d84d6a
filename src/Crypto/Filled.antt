-- ===== src/Crypto/Filled.antt =====
-- crypto_fillAddress, whatever its calls answer.
use ledger_sovereign.Base.{
  ℕ, ◌+◌, ◌-◌, ◌≤◌, ◌≡◌, ◌≢◌, ap, ◌∙◌, refl, sym, inl, inr, none, some, List, ◌++◌, length,
  replicate, Option, Option-cases,
}
use ledger_sovereign.Base.Memory.{Pointer, c_string}
use ledger_sovereign.Codes.{ZxErr, ok-cases}
use ledger_sovereign.Platform.{Cx, Format, WritesSizes, WritesTexts}
use ledger_sovereign.Crypto.{crypto_fill_address}
use ledger_sovereign.Crypto.Signing.{point_of}
use ledger_sovereign.Crypto.Encoded.{encoded_point}
use ledger_sovereign.Crypto.Address.{
  encoded_address, crypto_fill_address_no_key, crypto_fill_address_no_text,
  crypto_fill_address_answers,
}

-- The answer for the point `w`, in a buffer of `size` bytes: for what the encoder answers, and for the
-- length before.
abbrev pub filled : List ℕ → ℕ → ℕ → ZxErr × List ℕ → ZxErr × Pointer × Option ℕ
filled w size response_len (ZxErr.ok, text) = (
  ZxErr.ok,
  some (encoded_point w ++ c_string text ++ replicate (size - 32 - length (c_string text)) 0),
  some (32 + length (c_string text)),
)
filled w size response_len (e, text) = (e, some (replicate size 0), some response_len)

filled-failed :
    (w : List ℕ) (size response_len : ℕ) (e : ZxErr) (text : List ℕ)
    → e ≢ ZxErr.ok
    → filled w size response_len (e, text) ≡ (e, some (replicate size 0), some response_len)
filled-failed w size response_len ZxErr.ok text h = absurd (h refl)
filled-failed w size response_len e text h = refl

module _ (c : Cx) (f : Format) (laws : WritesSizes c) (texts : WritesTexts f)
    (hd_path stack : List ℕ) (stack_size : length stack ≡ c.private_key_size) (buffer : List ℕ)
    (room : 98 ≤ length buffer) (response_len : ℕ) where
  filled_for :
      (w : List ℕ)
      → point_of c hd_path ≡ some w
      → (e : ZxErr) (text : List ℕ) → encoded_address c f (encoded_point w) ≡ (e, text)
      → crypto_fill_address c f hd_path stack (some buffer) (length buffer) (some response_len)
        ≡ filled w (length buffer) response_len (e, text)
  filled_for w point e text coded = elim (ok-cases e) [
    | inl ok ↦
        let coded' : encoded_address c f (encoded_point w) ≡ (ZxErr.ok, text) =
          coded ∙ ap (λ e'. (e', text)) ok in
        crypto_fill_address_answers c f laws hd_path stack stack_size buffer room response_len w
          point text texts coded'
        ∙ ap (λ e'. filled w (length buffer) response_len (e', text)) (sym ok)
    | inr failed ↦
        let same : (encoded_address c f (encoded_point w)).0 ≡ e = ap (λ r. r.0) coded in
        crypto_fill_address_no_text c f laws hd_path stack stack_size buffer room response_len w
          point (λ h. failed (sym same ∙ h))
        ∙ ap (λ e'. (e', some (replicate (length buffer) 0), some response_len)) same
        ∙ sym (filled-failed w (length buffer) response_len e text failed)
  ]

  -- crypto_fillAddress into a buffer of at least 98 bytes, with libraries that write the documented
  -- sizes and texts and a whole key's memory on the stack. Where the library has no point for the path,
  -- zxerr_unknown; where the encoder fails, its error; in both cases the whole buffer is zeroed, a key
  -- in it as well, and the length stays. Otherwise the buffer holds the encoded key, the text of its
  -- address and zeros, and the length is that of the first two.
  pub crypto_fill_address_lem :
      crypto_fill_address c f hd_path stack (some buffer) (length buffer) (some response_len)
      ≡ elim (point_of c hd_path) [
        | none ↦ (ZxErr.unknown, some (replicate (length buffer) 0), some response_len)
        | some w ↦ filled w (length buffer) response_len (encoded_address c f (encoded_point w))
      ]
  crypto_fill_address_lem = elim (Option-cases (point_of c hd_path)) [
    | inl missing ↦
        crypto_fill_address_no_key c f laws hd_path stack stack_size buffer room response_len
          missing
        ∙ rw missing refl
    | inr (w, point) ↦
        let (e, text) = encoded_address c f (encoded_point w) in
        filled_for w point e text refl ∙ rw point refl
  ]
