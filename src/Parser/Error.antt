-- ===== src/Parser/Error.antt =====
-- `parser_error_t` of common/parser_common.h and its descriptions in app/src/parser_impl.c.
use ledger_sovereign.Base.{List, ℕ}
use ledger_sovereign.Base.Text.{codes}
use ledger_sovereign.Codes.{ZxErr}

pub data ParserError : Type 0 where
  ok no_data init_context_empty display_idx_out_of_range display_page_out_of_range : ParserError
  unexpected_error unexpected_type unexpected_method unexpected_buffer_end : ParserError
  unexpected_value unexpected_number_items unexpected_version unexpected_characters : ParserError
  unexpected_field duplicated_field value_out_of_range invalid_address : ParserError
  unexpected_chain missing_field unknown_transaction : ParserError

unfoldable pub parser_get_error_description : ParserError → List ℕ
parser_get_error_description ParserError.ok = codes "No error"
parser_get_error_description ParserError.no_data = codes "No more data"
parser_get_error_description ParserError.init_context_empty = codes "Initialized empty context"
parser_get_error_description ParserError.unexpected_buffer_end = codes "Unexpected buffer end"
parser_get_error_description ParserError.unexpected_version = codes "Unexpected version"
parser_get_error_description ParserError.unexpected_characters = codes "Unexpected characters"
parser_get_error_description ParserError.unexpected_field = codes "Unexpected field"
parser_get_error_description ParserError.duplicated_field = codes "Unexpected duplicated field"
parser_get_error_description ParserError.value_out_of_range = codes "Value out of range"
parser_get_error_description ParserError.unexpected_chain = codes "Unexpected chain"
parser_get_error_description ParserError.missing_field = codes "missing field"
parser_get_error_description ParserError.display_idx_out_of_range =
    codes "display index out of range"
parser_get_error_description ParserError.display_page_out_of_range =
    codes "display page out of range"
parser_get_error_description _ = codes "Unrecognized error code"

unfoldable pub parser_get_zx_error_description : ZxErr → List ℕ
parser_get_zx_error_description ZxErr.unknown = codes "error unknown"
parser_get_zx_error_description ZxErr.ok = codes "No error"
parser_get_zx_error_description ZxErr.no_data = codes "No more data"
parser_get_zx_error_description ZxErr.buffer_too_small = codes "Buffer too small"
parser_get_zx_error_description ZxErr.out_of_bounds = codes "Out of bound"
parser_get_zx_error_description ZxErr.encoding_failed = codes "Encoding failed"
parser_get_zx_error_description ZxErr.invalid_crypto_settings = codes "Invalid crypto settings"
parser_get_zx_error_description ZxErr.ledger_api_error = codes "Api error"
parser_get_zx_error_description _ = codes "Unrecognized error code"
