-- ===== src/HostTests/Vectors/Wallet.antt =====
-- WalletAddressEncoding.
use ledger_sovereign.Base.{
  ℕ, ◌≡◌, ◌↔◌, refl, ap, ◌∙◌, sym, true, Option, none, some, List, [], ◌∷◌, ◌++◌, arith, length,
  replicate, append-nil, ==_iff, Option-cases, inl, inr,
}
use ledger_sovereign.Codes.{ZxErr}
use ledger_sovereign.Platform.{Cx, Format, WritesSizes}
use ledger_sovereign.Crypto.{crypto_compute_address}
use ledger_sovereign.Crypto.Address.{compute_address_lem, encoded_address}
use ledger_sovereign.HostTests.{text_in}
use ledger_sovereign.HostTests.Vectors.{
  ParseHex, SovereignWalletAddress, Failure, same_text, expect_ok, expect_text, followed_by,
  internal_pubkey, check_address, check_vector, wallet_address_encoding,
}

same_text_iff : (xs ys : List ℕ) → (same_text xs ys ≡ true) ↔ (xs ≡ ys)
unfolding same_text
same_text_iff [] [] = (λ h. refl, λ h. refl)
same_text_iff [] (y ∷ ys) = (λ h. cc, λ h. cc)
same_text_iff (x ∷ xs) [] = (λ h. cc, λ h. cc)
same_text_iff (x ∷ xs) (y ∷ ys) = let rest = same_text_iff xs ys in grind (arith, ==_iff x y, rest)

expect_ok_iff : (e : ZxErr) → (expect_ok e ≡ []) ↔ (e ≡ ZxErr.ok)
unfolding expect_ok
expect_ok_iff e = ground arith

expect_text_iff : (str address : List ℕ) → (expect_text str address ≡ []) ↔ (str ≡ address)
unfolding expect_text
expect_text_iff str address = let same = same_text_iff str address in ground (arith, same)

append-nil_iff {ℓ} : {A : Type ℓ} (xs ys : List A) → (xs ++ ys ≡ []) ↔ ((xs ≡ []) × (ys ≡ []))
append-nil_iff [] ys = (λ h. (refl, h), λ h. h.1)
append-nil_iff (x ∷ xs) ys = (λ h. cc, λ h. absurd (cc (h.0)))

followed_by_iff :
    (o o' : Option (List Failure)) → (followed_by o o' ≡ some []) ↔ ((o ≡ some []) × (o' ≡ some []))
unfolding followed_by
followed_by_iff none later = (λ h. cc, λ h. cc (h.0))
followed_by_iff (some failed) none = (λ h. cc, λ h. cc (h.1))
followed_by_iff (some failed) (some later) =
    let both = append-nil_iff failed later in grind (arith, both)

module _ (c : Cx) (f : Format) (parse_hex_string : ParseHex) where
  -- What the library's encoder answers for the key of a vector.
  abbrev pub answer : SovereignWalletAddress → ZxErr × List ℕ
  answer testcase = encoded_address c f (internal_pubkey parse_hex_string testcase)

  -- The encoder succeeds for the key, with the address as a text that ends inside its buffer.
  abbrev pub EncodesTo : SovereignWalletAddress → Type 0
  EncodesTo testcase =
      ((answer testcase).0 ≡ ZxErr.ok) × (text_in (answer testcase).1 ≡ some testcase.address)

  abbrev pub AllEncode : List SovereignWalletAddress → Type 0
  AllEncode [] = Unit {0}
  AllEncode (testcase ∷ rest) = EncodesTo testcase × AllEncode rest

  check_address_iff :
      (testcase : SovereignWalletAddress) (e : ZxErr) (text : List ℕ)
      → (check_address c f parse_hex_string testcase (e, some text) ≡ some [])
        ↔ ((e ≡ ZxErr.ok) × (text_in text ≡ some testcase.address))
  unfolding check_address
  check_address_iff testcase e text = elim (Option-cases (text_in text)) [
    | inl endless ↦ rw endless (λ h. cc, λ h. cc)
    | inr (str, shown) ↦
        let ok = expect_ok_iff e in
        let same = expect_text_iff str testcase.address in
        let neither = append-nil_iff (expect_ok e) (expect_text str testcase.address) in
        rw shown (grind (arith, ok, same, neither))
  ]

  module _ (laws : WritesSizes c)
      (in_place : (buffer text : List ℕ) (size : ℕ)
        → length (parse_hex_string buffer size text).0 ≡ length buffer) where
    computed :
        (testcase : SovereignWalletAddress)
        → crypto_compute_address c f
            (some (replicate 66 0))
            66
            (some (internal_pubkey parse_hex_string testcase))
          ≡ ((answer testcase).0, some (answer testcase).1)
    computed testcase =
        let key = internal_pubkey parse_hex_string testcase in
        ap (λ k. crypto_compute_address c f (some (replicate 66 0)) 66 (some k))
          (sym (append-nil key))
        ∙ compute_address_lem c f key [] laws (in_place (replicate 32 0) testcase.public_key 32)

    check_vector_iff :
        (testcase : SovereignWalletAddress)
        → (check_vector c f parse_hex_string testcase ≡ some []) ↔ EncodesTo testcase
    unfolding check_vector
    check_vector_iff testcase =
        rw (computed testcase) (check_address_iff testcase (answer testcase).0 (answer testcase).1)

    -- With a hash of 32 bytes and a parseHexString that writes inside its buffer, WalletAddressEncoding
    -- ends with no failed expectation and no read past a buffer if and only if, for each of its
    -- vectors, the encoder succeeds on the hash of the key that parseHexString leaves, and the text
    -- that it leaves ends inside its buffer and is the address of the vector.
    pub wallet_passes_iff :
        (vectors : List SovereignWalletAddress)
        → (wallet_address_encoding c f parse_hex_string vectors ≡ some []) ↔ AllEncode vectors
    unfolding wallet_address_encoding
    wallet_passes_iff [] = (λ h. tt, λ h. refl)
    wallet_passes_iff (testcase ∷ rest) =
        let first = check_vector_iff testcase in
        let later = wallet_passes_iff rest in
        let both =
          followed_by_iff (check_vector c f parse_hex_string testcase)
            (wallet_address_encoding c f parse_hex_string rest) in
        grind (arith, first, later, both)
