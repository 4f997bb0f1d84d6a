-- ===== src/Codes.antt =====
-- The constants of app/src/coin.h and app/src/crypto_helper.h, the return codes and the frame
-- layout of docs/APDUSPEC.md, and the error type of the Zondax library.
pub mod Code
pub mod Path
pub mod Wire
use ledger_sovereign.Base.{ℕ, ◌+◌, ◌≡◌, ◌≢◌, ◌⊎◌, inl, inr, refl, List}
use ledger_sovereign.Base.Text.{codes}

-- coin.h
abbrev pub cla : ℕ
cla = 0x64

abbrev pub hdpath_len : ℕ
hdpath_len = 3

abbrev pub hdpath_0 : ℕ
hdpath_0 = 0x8000_0000 + 0x2c

abbrev pub hdpath_1 : ℕ
hdpath_1 = 0x8000_0000 + 0x60f

abbrev pub sk_len_25519 : ℕ
sk_len_25519 = 64

abbrev pub scalar_len_ed25519 : ℕ
scalar_len_ed25519 = 32

abbrev pub ed25519_signature_size : ℕ
ed25519_signature_size = 64

abbrev pub pk_len_25519 : ℕ
pk_len_25519 = 32

abbrev pub address_max_length : ℕ
address_max_length = 66

-- crypto_helper.h
abbrev pub pubkey_sha_len : ℕ
pubkey_sha_len = 28

abbrev pub hrp : List ℕ
hrp = codes "sov"

-- The instructions, and the values of P1 in a sign command.
abbrev pub ins_get_version : ℕ
ins_get_version = 0

abbrev pub ins_get_addr : ℕ
ins_get_addr = 1

abbrev pub ins_sign : ℕ
ins_sign = 2

abbrev pub p1_init : ℕ
p1_init = 0

abbrev pub p1_add : ℕ
p1_add = 1

abbrev pub p1_last : ℕ
p1_last = 2

-- The layout of a command.
abbrev pub offset_cla : ℕ
offset_cla = 0

abbrev pub offset_ins : ℕ
offset_ins = 1

abbrev pub offset_p1 : ℕ
offset_p1 = 2

abbrev pub offset_data : ℕ
offset_data = 5

-- `zxerr_t`: the values that the program names, and all others.
pub data ZxErr : Type 0 where
  unknown ok no_data buffer_too_small out_of_bounds encoding_failed : ZxErr
  invalid_crypto_settings ledger_api_error : ZxErr
  other : ℕ → ZxErr

-- Whether a call has succeeded.
pub ok-cases : (e : ZxErr) → (e ≡ ZxErr.ok) ⊎ (e ≢ ZxErr.ok)
ok-cases ZxErr.ok = inl refl
ok-cases e = inr (λ h. cc)
