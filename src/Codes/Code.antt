-- ===== src/Codes/Code.antt =====
-- The return codes of docs/APDUSPEC.md.
use ledger_sovereign.Base.{ℕ}

abbrev pub execution_error : ℕ
execution_error = 0x6400

abbrev pub wrong_length : ℕ
wrong_length = 0x6700

abbrev pub output_buffer_too_small : ℕ
output_buffer_too_small = 0x6983

abbrev pub data_invalid : ℕ
data_invalid = 0x6984

abbrev pub command_not_allowed : ℕ
command_not_allowed = 0x6986

abbrev pub tx_not_initialized : ℕ
tx_not_initialized = 0x6987

abbrev pub invalid_p1_p2 : ℕ
invalid_p1_p2 = 0x6B00

abbrev pub ins_not_supported : ℕ
ins_not_supported = 0x6D00

abbrev pub cla_not_supported : ℕ
cla_not_supported = 0x6E00

abbrev pub sign_verify_error : ℕ
sign_verify_error = 0x6F01

abbrev pub success : ℕ
success = 0x9000
