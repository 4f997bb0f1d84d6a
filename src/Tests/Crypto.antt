-- ===== src/Tests/Crypto.antt =====
-- Keys, signatures and addresses at concrete inputs.
use mathlib.Core.Option
use ledger_sovereign.Base.{
  ℕ, ◌+◌, ◌^◌, ◌≡◌, refl, ◌∙◌, none, some, List, [], ◌∷◌, ◌++◌, arith, length, take, replicate,
}
use ledger_sovereign.Base.Memory.{memzero, copy_into}
use ledger_sovereign.Codes.{ZxErr}
use ledger_sovereign.Crypto.{
  mark_sign, copy_y, crypto_sign, crypto_extract_public_key, crypto_fill_address,
}
use ledger_sovereign.Crypto.Signing.{
  crypto_extract_public_key_lem, signature_of, point_of, zeroed, crypto_sign_lem,
}
use ledger_sovereign.Crypto.Point.{crypto_extract_public_key_encodes}
use ledger_sovereign.Crypto.Values.{le_value}
use ledger_sovereign.Crypto.Filled.{filled, crypto_fill_address_lem}
use ledger_sovereign.Crypto.Encoded.{encoded_point}
use ledger_sovereign.Actions.{app_sign}
use ledger_sovereign.Session.Endings.{app_sign_fails}
use ledger_sovereign.Platform.{Format, WritesTexts}
use ledger_sovereign.Crypto.Address.{encoded_address}
use ledger_sovereign.Tests.Sample.{
  keyless, keyless_sizes, shown, point_found, point, cx, format, platform, sizes, texts, now, path,
  message,
}

shown_signs : signature_of cx path message 257 ≡ some (replicate 64 70)
unfolding Option.bind
shown_signs = refl

no_point : point_of keyless path ≡ none
unfolding Option.bind
no_point = refl

keyless_signs : signature_of keyless path message 257 ≡ none
unfolding Option.bind
keyless_signs = refl

-- A library that encodes no address.
abbrev textless : Format
textless = record format { bech32m_encode = λ out size hrp input n pad. (ZxErr.unknown, out) }

textless_texts : WritesTexts textless
textless_texts = record {
  encoded = λ out input text n pad h. absurd (cc h);
  code = λ buffer offset value h. refl;
}

crypto_sign_lem_example :
    crypto_sign cx path (now.stack) (some (replicate 64 1)) 64 (some message) 3
    ≡ elim (signature_of cx path message 64) [
      | none ↦ (ZxErr.unknown, some (replicate 64 0), some (zeroed 4))
      | some s ↦ (ZxErr.ok, some (copy_into (replicate 64 1) 0 s), some (zeroed 4))
    ]
crypto_sign_lem_example =
    crypto_sign_lem cx sizes path now.stack refl (replicate 64 1) message 64 3 (omega arith)
      (omega arith)

crypto_extract_public_key_encodes_example :
    (key : List ℕ) × (crypto_extract_public_key cx path now.stack (some (replicate 40 3)) 40
      ≡ (ZxErr.ok, some key, some (zeroed 4)))
    × (le_value (take 32 key) ≡ 1 + 2 ^ 255)
crypto_extract_public_key_encodes_example =
    crypto_extract_public_key_encodes cx sizes path now.stack (replicate 40 3) 4
      (replicate 31 0 ++ 1 ∷ []) (replicate 31 0 ++ 1 ∷ []) refl (omega arith) refl refl
      (omega arith) point_found

-- The address of the path, in a buffer of 100 bytes.
crypto_fill_address_lem_example :
    crypto_fill_address cx format path now.stack (some (replicate 100 3)) 100 (some 0)
    ≡ elim (point_of cx path) [
      | none ↦ (ZxErr.unknown, some (replicate 100 0), some 0)
      | some w ↦ filled w 100 0 (encoded_address cx format (encoded_point w))
    ]
crypto_fill_address_lem_example =
    crypto_fill_address_lem cx format sizes texts path now.stack refl (replicate 100 3)
      (omega arith) 0

address_fills :
    crypto_fill_address cx format path now.stack (some (replicate 100 3)) 100 (some 0)
    ≡ (ZxErr.ok, some (encoded_point point ++ (115 ∷ 49 ∷ []) ++ replicate 66 0), some 34)
address_fills =
    crypto_fill_address_lem cx format sizes texts path now.stack refl (replicate 100 3)
      (omega arith) 0
    ∙ rw point_found refl

keyless_fills :
    crypto_fill_address keyless format path now.stack (some (replicate 100 3)) 100 (some 7)
    ≡ (ZxErr.unknown, some (replicate 100 0), some 7)
keyless_fills =
    crypto_fill_address_lem keyless format keyless_sizes texts path now.stack refl (replicate 100 3)
      (omega arith) 7
    ∙ rw no_point refl

textless_fills :
    crypto_fill_address cx textless path now.stack (some (replicate 100 3)) 100 (some 7)
    ≡ (ZxErr.unknown, some (replicate 100 0), some 7)
textless_fills =
    crypto_fill_address_lem cx textless sizes textless_texts path now.stack refl (replicate 100 3)
      (omega arith) 7
    ∙ rw point_found refl

app_sign_fails_example :
    ((app_sign (record platform { cx = keyless }) now shown).0 ≡ 0x6F ∷ 0x01 ∷ [])
    × (length (app_sign (record platform { cx = keyless }) now shown).1.apdu ≡ 260)
app_sign_fails_example =
    app_sign_fails (record platform { cx = keyless }) now shown texts (omega arith) keyless_sizes
      refl (omega arith) (λ e. cc) (omega arith) keyless_signs

crypto_extract_public_key_lem_example :
    crypto_extract_public_key keyless path now.stack (some (replicate 40 3)) 40
    ≡ elim (point_of keyless path) [
      | none ↦ (ZxErr.unknown, some (memzero (replicate 40 3) 40), some (zeroed 4))
      | some w ↦ (ZxErr.ok, some (mark_sign w (copy_y w (replicate 40 3) 32 0)), some (zeroed 4))
    ]
crypto_extract_public_key_lem_example =
    crypto_extract_public_key_lem keyless keyless_sizes path now.stack refl (replicate 40 3) 40
      (omega arith)
