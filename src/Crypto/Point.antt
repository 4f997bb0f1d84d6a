-- ===== src/Crypto/Point.antt =====
-- The public key that crypto_extractPublicKey writes, beside the compressed point of RFC 8032, 5.1.2:
-- the y coordinate in little-endian order, with the parity of x as its top bit.
use ledger_sovereign.Base.{
  ℕ, zero, suc, ◌+◌, ◌*◌, ◌%◌, ◌^◌, ◌≤◌, ◌<◌, ◌≡◌, refl, ap, ◌∙◌, sym, some, List, [], ◌∷◌, ◌++◌,
  arith, length, take, drop, get_or, length-append, inl, inr, Bool-cases, false, ==_iff, ◌==◌,
}
use ledger_sovereign.Base.Memory.{copy_into}
use ledger_sovereign.Base.Bits.{bit_or_sign}
use ledger_sovereign.Codes.{ZxErr}
use ledger_sovereign.Platform.{Cx, WritesSizes}
use ledger_sovereign.Crypto.{copy_y, mark_sign, crypto_extract_public_key}
use ledger_sovereign.Crypto.Signing.{zeroed, point_of, crypto_extract_public_key_lem}
use ledger_sovereign.Crypto.Values.{
  le_value, be_value, be_from-snoc, take-snoc, get_or-drop, down, le_value-down, take-copy_y,
  le_value-copy_into,
}

pub take-copy_into :
    (n : ℕ) (xs : List ℕ) (i : ℕ) (src : List ℕ)
    → take n (copy_into xs i src) ≡ copy_into (take n xs) i src
take-copy_into zero xs i src = refl
take-copy_into (suc n) [] i src = refl
take-copy_into (suc n) (x ∷ xs) zero [] = refl
take-copy_into (suc n) (x ∷ xs) zero (y ∷ src) = ap (λ l. y ∷ l) (take-copy_into n xs zero src)
take-copy_into (suc n) (x ∷ xs) (suc i) src = ap (λ l. x ∷ l) (take-copy_into n xs i src)

get_or-take : (n i : ℕ) (xs : List ℕ) → i < n → get_or (take n xs) i 0 ≡ get_or xs i 0
get_or-take zero i xs h = absurd (omega arith)
get_or-take (suc n) i [] h = refl
get_or-take (suc n) zero (x ∷ xs) h = refl
get_or-take (suc n) (suc i) (x ∷ xs) h = get_or-take n i xs (omega arith)

pub get_or-append : (xs ys : List ℕ) (i : ℕ) → i < length xs → get_or (xs ++ ys) i 0 ≡ get_or xs i 0
get_or-append [] ys i h = absurd (omega arith)
get_or-append (x ∷ xs) ys zero h = refl
get_or-append (x ∷ xs) ys (suc i) h = get_or-append xs ys i (omega arith)

pub drop-append_exact : (n : ℕ) (xs ys : List ℕ) → length xs ≡ n → drop n (xs ++ ys) ≡ ys
drop-append_exact zero [] ys h = refl
drop-append_exact zero (x ∷ xs) ys h = absurd (omega arith)
drop-append_exact (suc n) [] ys h = absurd (omega arith)
drop-append_exact (suc n) (x ∷ xs) ys h = drop-append_exact n xs ys (omega arith)

pub take_exact : (n : ℕ) (xs : List ℕ) → length xs ≡ n → take n xs ≡ xs
take_exact zero [] h = refl
take_exact zero (x ∷ xs) h = absurd (omega arith)
take_exact (suc n) [] h = absurd (omega arith)
take_exact (suc n) (x ∷ xs) h = ap (λ l. x ∷ l) (take_exact n xs (omega arith))

-- The parity of a big-endian number is that of its last byte.
be_value_parity : (n : ℕ) (xs : List ℕ) → length xs ≡ suc n → be_value xs % 2 ≡ get_or xs n 0 % 2
be_value_parity n xs h = omega (
  arith,
  ap be_value (sym (take_exact (suc n) xs h) ∙ take-snoc n xs (omega arith)),
  be_from-snoc 0 (take n xs) (get_or xs n 0),
)

odd_of_test : (n : ℕ) → (n % 2 == 0) ≡ false → n % 2 ≡ 1
odd_of_test n h = ground arith

module _ (tag : ℕ) (xs ys out : List ℕ) (hx : length xs ≡ 32) (hy : length ys ≡ 32)
    (ho : 32 ≤ length out) (top : get_or ys 0 0 < 128) where
  -- The point `W`: a tag, x and y.
  abbrev w : List ℕ
  w = tag ∷ xs ++ ys

  abbrev copied : List ℕ
  copied = copy_y w out 32 0

  written : take 32 copied ≡ down w 64 32
  written = take-copy_y w out 32 0 (omega arith)

  value_written : le_value (take 32 copied) ≡ be_value ys
  value_written =
      ap le_value written
      ∙ le_value-down w 32 33 (omega (arith, length-append xs ys)) (omega arith)
      ∙ ap (λ l. be_value (take 32 l)) (drop-append_exact 32 xs ys hx)
      ∙ ap be_value (take_exact 32 ys hy)

  x_parity : get_or w 32 0 % 2 ≡ be_value xs % 2
  x_parity = ap (λ k. k % 2) (get_or-append xs ys 31 (omega arith)) ∙ sym (be_value_parity 31 xs hx)

  last_byte : get_or (take 32 copied) 31 0 ≡ get_or ys 0 0
  last_byte =
      ap (λ l. get_or l 31 0) written
      ∙ sym (get_or-drop 33 0 w)
      ∙ ap (λ l. get_or l 0 0) (drop-append_exact 32 xs ys hx)

  top_byte : get_or copied 31 0 ≡ get_or ys 0 0
  top_byte = sym (get_or-take 32 31 copied (omega arith)) ∙ last_byte

  -- The 32 bytes are y in little-endian order, with the parity of x in bit 255.
  pub mark_sign_value :
      le_value (take 32 (mark_sign w copied)) ≡ be_value ys + 2 ^ 255 * (be_value xs % 2)
  unfolding mark_sign
  mark_sign_value = elim (Bool-cases (get_or w 32 0 % 2 == 0)) [
    | inl even ↦ rw even (omega (arith, value_written, x_parity, (==_iff _ _).0 even))
    | inr odd ↦
        rw (odd, top_byte, bit_or_sign (get_or ys 0 0) top, take-copy_into)
          (omega (
            arith,
            value_written,
            x_parity,
            last_byte,
            odd_of_test (get_or w 32 0) odd,
            le_value-copy_into (take 32 copied) 31 (get_or ys 0 0 + 0x80)
                (omega (arith, ap length written)),
          ))
  ]

-- crypto_extractPublicKey, into a buffer of at least 32 bytes, for a path whose key has the point
-- `tag, x, y` of 32-byte coordinates, y below 2^255, when what the library writes has its documented
-- sizes: it succeeds, no byte of the private key or its data outlives the call, and the first 32
-- bytes of the buffer are the point as RFC 8032 encodes it: y in little-endian order, with the
-- parity of x in the top bit.
pub crypto_extract_public_key_encodes :
    (c : Cx) (laws : WritesSizes c) (hd_path stack buffer : List ℕ) (tag : ℕ) (xs ys : List ℕ)
    → length stack ≡ c.private_key_size
    → 32 ≤ length buffer
    → length xs ≡ 32
    → length ys ≡ 32
    → get_or ys 0 0 < 128
    → point_of c hd_path ≡ some (tag ∷ xs ++ ys)
    → (key : List ℕ) × (crypto_extract_public_key c hd_path stack (some buffer) (length buffer)
        ≡ (ZxErr.ok, some key, some (zeroed c.private_key_size)))
      × (le_value (take 32 key) ≡ be_value ys + 2 ^ 255 * (be_value xs % 2))
crypto_extract_public_key_encodes c laws hd_path stack buffer tag xs ys hs hb hx hy top point = (
  mark_sign (tag ∷ xs ++ ys) (copy_y (tag ∷ xs ++ ys) buffer 32 0),
  crypto_extract_public_key_lem c laws hd_path stack hs buffer (length buffer) hb ∙ rw point,
  mark_sign_value tag xs ys buffer hx hy hb top,
)
