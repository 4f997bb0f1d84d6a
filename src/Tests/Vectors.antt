-- ===== src/Tests/Vectors.antt =====
-- The tests on fixed bytes, run on the sample platform and on its own vectors.
use mathlib.Core.Option
use mathlib.Core.List.{Memᴰ}
use ledger_sovereign.Codes.Path.{is_ours}
use ledger_sovereign.Base.{
  ℕ, ◌≡◌, ◌↔◌, refl, Bool, true, false, ◌&&◌, none, some, List, [], ◌∷◌, ◌++◌, ◌==◌, arith, ltb,
  length, take, replicate,
}
use ledger_sovereign.Base.Memory.{copy_into, length-copy_into, words32}
use ledger_sovereign.Base.Text.{codes}
use ledger_sovereign.Codes.{hrp}
use ledger_sovereign.Parser.{ParserError, parser_parse, parser_init_context, read}
use ledger_sovereign.Tx.{zero_tx}
use ledger_sovereign.Apdu.{is_mainnet}
use ledger_sovereign.Crypto.{mark_sign, copy_y, crypto_compute_sha256, crypto_compute_address}
use ledger_sovereign.Crypto.Encoded.{encoded_point}
use ledger_sovereign.Protocol.Machine.{reject}
use ledger_sovereign.Session.Trace.{perform, run_events}
use ledger_sovereign.HostTests.Vectors.{
  ParseHex, SovereignWalletAddress, other_text, same_text, expect_ok, expect_text, followed_by,
  hex_loop, to_hex_string, check_address, check_vector, wallet_address_encoding, scale_read_bytes,
}
use ledger_sovereign.HostTests.Vectors.Table.{testvector_wallet}
use ledger_sovereign.HostTests.Vectors.Wallet.{AllEncode, wallet_passes_iff}
use ledger_sovereign.HostTests.Vectors.Hex.{from_hex, to_hex_string_reads_back}
use ledger_sovereign.HostTests.Vectors.Agreement.{address_command, device_sends_vectors}
use ledger_sovereign.Tests.Sample.{
  cx, format, platform, sizes, now, start, path_bytes, point, point_found, sound, usual,
}

-- A reader of hex that keeps to its buffer.
abbrev read_hex : ParseHex
read_hex buffer size text =
    let bytes = take size (Option.get_or (from_hex text) []) in
    (copy_into buffer 0 bytes, length bytes)

in_place : (buffer text : List ℕ) (size : ℕ) → length (read_hex buffer size text).0 ≡ length buffer
in_place buffer text size = length-copy_into buffer 0 (take size (Option.get_or (from_hex text) []))

-- The key of every path of the sample, and the address that its library makes of it.
abbrev testcase : SovereignWalletAddress
testcase = record {
  public_key = codes "0100000000000000000000000000000000000000000000000000000000000080";
  address = codes "s1";
}

-- A vector with another address.
abbrev other : SovereignWalletAddress
other = record testcase { address = codes "s2" }

passes : wallet_address_encoding cx format read_hex (testcase ∷ testcase ∷ []) ≡ some []
unfolding wallet_address_encoding check_vector check_address followed_by expect_ok expect_text
    same_text crypto_compute_address crypto_compute_sha256
passes = refl

other_fails :
    wallet_address_encoding cx format read_hex (testcase ∷ other ∷ [])
    ≡ some (other_text (codes "s1") ∷ [])
unfolding wallet_address_encoding check_vector check_address followed_by expect_ok expect_text
    same_text crypto_compute_address crypto_compute_sha256
other_fails = refl

wallet_passes_iff_example :
    (wallet_address_encoding cx format read_hex (testcase ∷ other ∷ []) ≡ some [])
    ↔ AllEncode cx format read_hex (testcase ∷ other ∷ [])
wallet_passes_iff_example =
    wallet_passes_iff cx format read_hex sizes in_place (testcase ∷ other ∷ [])

-- The vectors of the repository: each key has 32 bytes, in lower case, and each address is "sov1" and
-- at most 61 characters more.
well_formed : List SovereignWalletAddress → Bool
well_formed [] = true
well_formed (v ∷ rest) =
    length (Option.get_or (from_hex v.public_key) []) == 32
    && same_text (take 4 v.address) (hrp ++ codes "1")
    && ltb (length v.address) 66
    && well_formed rest

vectors_well_formed : well_formed testvector_wallet ≡ true
unfolding well_formed same_text
vectors_well_formed = refl

key_matches : encoded_point point ≡ (read_hex (replicate 32 0) 32 testcase.public_key).0
unfolding mark_sign copy_y
key_matches = refl

path_ours : is_ours (words32 (take 12 path_bytes)) ≡ true
unfolding is_mainnet
path_ours = refl

nothing_shown : (run_events platform start (reject now ∷ [])).review ≡ none
unfolding run_events perform
nothing_shown = refl

device_sends_vectors_example :
    (perform platform
      (run_events platform start (reject now ∷ []))
      (address_command platform now 0 12 path_bytes)).0
    ≡ some ((encoded_point point ++ codes "s1") ++ 0x90 ∷ 0 ∷ [])
device_sends_vectors_example =
    device_sends_vectors platform now 0 12 path_bytes cx sizes (λ input. refl) read_hex in_place
      start (reject now ∷ []) (testcase ∷ testcase ∷ []) testcase point sound usual
      (λ e. cc, λ e. cc, λ e. cc) refl refl (usual, tt) nothing_shown refl (omega arith)
      (omega arith) (omega arith) path_ours point_found key_matches (Memᴰ.head refl) passes

to_hex_string_reads_back_example :
    (text : List ℕ) × (to_hex_string (0x0f ∷ 0xa0 ∷ 7 ∷ []) 2 ≡ some text)
    × (length text ≡ 4)
    × (from_hex text ≡ some (0x0f ∷ 0xa0 ∷ []))
to_hex_string_reads_back_example =
    to_hex_string_reads_back (0x0f ∷ 0xa0 ∷ 7 ∷ []) 2
      (omega arith, (omega arith, (omega arith, tt))) (omega arith)

hex_digits : to_hex_string (0x0f ∷ 0xa0 ∷ []) 2 ≡ some (codes "0fa0")
unfolding to_hex_string hex_loop
hex_digits = refl

hex_past_end : to_hex_string (0x0f ∷ 0xa0 ∷ []) 3 ≡ none
unfolding to_hex_string hex_loop
hex_past_end = refl

-- The parser accepts the fourteen bytes of ReadBytes.
bytes_read :
    (scale_read_bytes read_hex
      (record { buffer = none; buffer_len = 7; offset = 3; tx_obj = false })
      zero_tx
      (replicate 100 1)).0
    ≡ ParserError.ok
unfolding scale_read_bytes parser_parse parser_init_context read
bytes_read = refl
