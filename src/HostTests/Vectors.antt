-- ===== src/HostTests/Vectors.antt =====
-- tests/address_encoding.cpp, tests/address_encoding.h and tests/parser_impl.cpp: the tests that run
-- the encoder of addresses and the parser on fixed bytes. parseHexString is an argument: what it
-- leaves in a buffer of the given size for a text in hex, and the number that it returns. `c.sha256` is
-- the hash that the host build calls in place of the device's.
pub mod Table
pub mod Wallet
pub mod Agreement
pub mod Hex
use ledger_sovereign.Base.{
  ℕ, zero, suc, ◌+◌, ◌-◌, ◌/◌, ◌%◌, Bool, true, false, ◌&&◌, Option, none, some, List, [], ◌∷◌,
  ◌++◌, ltb, ◌==◌, if◌then◌else◌, length, get_or, replicate,
}
use ledger_sovereign.Base.Text.{codes}
use ledger_sovereign.Codes.{ZxErr, pk_len_25519, address_max_length}
use ledger_sovereign.Platform.{Cx, Format}
use ledger_sovereign.Crypto.{crypto_compute_address}
use ledger_sovereign.Parser.{ParserError, ParserContext, ParserTx, parser_parse}
use ledger_sovereign.HostTests.{text_in}

-- The argument that stands for parseHexString: buffer, its size, text.
abbrev pub ParseHex : Type 0
ParseHex = List ℕ → ℕ → List ℕ → List ℕ × ℕ

pub record SovereignWalletAddress : Type 0 where
  pub public_key : List ℕ
  pub address : List ℕ

-- An expectation that failed: on `err`, or on the text.
pub data Failure : Type 0 where
  not_ok : ZxErr → Failure
  other_text : List ℕ → Failure

-- `==` of two strings
unfoldable pub same_text : List ℕ → List ℕ → Bool
same_text [] [] = true
same_text (x ∷ xs) (y ∷ ys) = x == y && same_text xs ys
same_text xs ys = false

-- EXPECT_EQ(err, zxerr_ok)
unfoldable pub expect_ok : ZxErr → List Failure
expect_ok ZxErr.ok = []
expect_ok failed = not_ok failed ∷ []

-- EXPECT_EQ(str, testcase.address)
unfoldable pub expect_text : List ℕ → List ℕ → List Failure
expect_text str address = if same_text str address then [] else other_text str ∷ []

-- The failures of two steps, none where one of them faults.
unfoldable pub followed_by : Option (List Failure) → Option (List Failure) → Option (List Failure)
followed_by none later = none
followed_by (some failed) none = none
followed_by (some failed) (some later) = some (failed ++ later)

-- The two digits of a byte, under std::hex, setfill('0') and setw(2).
abbrev pub hex_digit : ℕ → ℕ
hex_digit d = if ltb d 10 then 48 + d else 87 + d

abbrev pub hex_number : ℕ → List ℕ
hex_number n = if ltb n 16 then hex_digit n ∷ [] else hex_digit (n / 16) ∷ hex_digit (n % 16) ∷ []

abbrev pub set_width : ℕ → List ℕ → List ℕ
set_width width text = replicate (width - length text) 48 ++ text

-- The loop over `i`: rounds left, then `i` and the stream. A read past the end of the data is `none`.
unfoldable pub hex_loop : List ℕ → ℕ → ℕ → List ℕ → Option (List ℕ)
hex_loop bytes zero i stream = some stream
hex_loop bytes (suc rounds) i stream =
    let more =
      hex_loop bytes rounds (i + 1) (stream ++ set_width 2 (hex_number (get_or bytes i 0))) in
    if ltb i (length bytes) then more else none

unfoldable pub to_hex_string : List ℕ → ℕ → Option (List ℕ)
to_hex_string bytes size = hex_loop bytes size 0 []

-- What parseHexString leaves in `internalPubkey` for the key of a vector.
abbrev pub internal_pubkey : ParseHex → SovereignWalletAddress → List ℕ
internal_pubkey parse_hex_string testcase =
    (parse_hex_string (replicate pk_len_25519 0) pk_len_25519 testcase.public_key).0

module _ (c : Cx) (f : Format) (parse_hex_string : ParseHex) where
  -- The expectations on what crypto_computeAddress leaves. `none` is a text with no NUL in its buffer.
  unfoldable pub check_address :
      SovereignWalletAddress → ZxErr × Option (List ℕ) → Option (List Failure)
  check_address testcase (err, none) = none
  check_address testcase (err, some address) = elim (text_in address) [
    | none ↦ none
    | some str ↦ some (expect_ok err ++ expect_text str testcase.address)
  ]

  unfoldable pub check_vector : SovereignWalletAddress → Option (List Failure)
  check_vector testcase = check_address testcase (
      crypto_compute_address c f (some (replicate 66 0)) 66
        (some (internal_pubkey parse_hex_string testcase)))

  -- WalletAddressEncoding over the vectors: the expectations that fail, in order.
  unfoldable pub wallet_address_encoding : List SovereignWalletAddress → Option (List Failure)
  wallet_address_encoding [] = some []
  wallet_address_encoding (testcase ∷ rest) =
      followed_by (check_vector testcase) (wallet_address_encoding rest)

-- ReadBytes, up to the expectations, which are commented out: what the parser answers, for what the
-- stack holds in `ctx`, in `tx_obj` and in the 100 bytes of `buffer`.
unfoldable pub scale_read_bytes :
    ParseHex → ParserContext → ParserTx → List ℕ → ParserError × ParserContext × ParserTx
scale_read_bytes parse_hex_string ctx tx_obj buffer =
    let (buffer', buffer_len) =
      parse_hex_string buffer 100 (codes "4512345612345678901234567890") in
    parser_parse ctx (some buffer') buffer_len tx_obj
