-- ===== src/Platform/Defs.antt =====
-- The parameters: operations only.
use ledger_sovereign.Base.{ℕ, Bool, Option, List}
use ledger_sovereign.Codes.{ZxErr}

-- The device of the build: TARGET_NANOS, or one of the larger ones.
pub data Target : Type 0 where
  nano_s large : Target

-- Macros of the SDK, of app_main.h and of the makefile.
pub record Build : Type 0 where
  pub target : Target
  -- APP_TESTING is defined
  pub testing : Bool
  pub ins_test : ℕ
  pub major_version : ℕ
  pub minor_version : ℕ
  pub patch_version : ℕ
  pub target_id : ℕ
  -- IO_APDU_BUFFER_SIZE and APDU_MIN_LENGTH
  pub apdu_size : ℕ
  pub apdu_min_length : ℕ
  -- EXCEPTION_IO_RESET and IO_ASYNCH_REPLY
  pub io_reset : ℕ
  pub io_asynch_reply : ℕ

-- The calls of the SDK. A call that can fail returns `none` for any error code but CX_OK; what it
-- writes on success is the value. Keys are the bytes of their structs, `W` for a public key.
pub record Cx : Type 0 where
  -- sizeof(cx_ecfp_private_key_t)
  pub private_key_size : ℕ
  -- os_derive_bip32_with_seed_no_throw on a path, for HDW_ED25519_SLIP10: the private key data
  pub derive_bip32 : List ℕ → Option (List ℕ)
  -- cx_ecfp_init_private_key_no_throw on the key's bytes
  pub init_private_key : List ℕ → Option (List ℕ)
  -- cx_ecfp_init_public_key_no_throw with no point
  pub init_public_key : Option (List ℕ)
  -- cx_ecfp_generate_pair_no_throw: public key, private key, the new `W`
  pub generate_pair : List ℕ → List ℕ → Option (List ℕ)
  -- cx_eddsa_sign_no_throw: private key, message, the room for the signature
  pub eddsa_sign : List ℕ → List ℕ → ℕ → Option (List ℕ)
  -- cx_hash_sha256; in the host build, SHA-256 of picohash.h
  pub sha256 : List ℕ → List ℕ

-- zxformat.h and bech32.h. A function that fills a buffer returns its new content.
pub record Format : Type 0 where
  -- bech32EncodeFromBytes: output, its size, prefix, input, its length, padding
  pub bech32m_encode : List ℕ → ℕ → List ℕ → List ℕ → ℕ → ℕ → ZxErr × List ℕ
  -- pageString and pageStringHex: output, its size, input, page; the output and the page count
  pub page_string : List ℕ → ℕ → List ℕ → ℕ → List ℕ × ℕ
  pub page_string_hex : List ℕ → ℕ → List ℕ → ℕ → List ℕ × ℕ
  -- bip32_to_str on a buffer of the given size
  pub bip32_to_str : ℕ → List ℕ → List ℕ
  -- set_code(buffer, offset, code)
  pub set_code : List ℕ → ℕ → ℕ → List ℕ

-- buffering.h, over the library's own state `B`.
pub record Buffering (B : Type 0) : Type 0 where
  -- buffering_init with the sizes of the RAM and flash areas
  pub buffering_init : ℕ → ℕ → B → B
  pub buffering_reset : B → B
  pub buffering_append : List ℕ → B → B × ℕ
  -- the `pos` bytes at the data pointer of buffering_get_buffer
  pub contents : B → List ℕ
  -- how many bytes it takes at most
  pub capacity : B → ℕ

pub record Platform (B : Type 0) : Type 0 where
  pub build : Build
  pub open build use *
  pub cx : Cx
  pub open cx use *
  pub format : Format
  pub open format use *
  pub buffering : Buffering B
  pub open buffering use *
