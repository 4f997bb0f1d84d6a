-- ===== src/Tests/Session.antt =====
-- An upload and its review, and the theorems about sessions at it.
use mathlib.Core.Option
use ledger_sovereign.Codes.Path.{is_ours}
use ledger_sovereign.Base.{
  ◌≡◌, ◌≢◌, ◌≤◌, refl, true, none, some, [], ◌∷◌, ◌++◌, arith, length, replicate,
}
use ledger_sovereign.Device.{
  Review, Device, returned, choose, throw_if, read_byte, read_bytes, write_bytes,
}
use ledger_sovereign.Parser.{
  parser_init_context, read, parser_parse, parser_get_num_items, parser_get_item, show_item,
  show_blob, validate_from, parser_validate,
}
use ledger_sovereign.Tx.{tx_initialize, tx_reset, tx_append, tx_get_buffer, tx_parse}
use ledger_sovereign.Tx.Parse.{Shows}
use ledger_sovereign.Crypto.Signing.{signature_of}
use ledger_sovereign.Actions.{app_sign}
use ledger_sovereign.Apdu.{
  is_mainnet, status_word, extract_hd_path, append_payload, chunk_init, chunk_last, process_chunk,
  parse_message, conclude_sign, handle_sign, report, catch_code, dispatch, handle_apdu,
}
use ledger_sovereign.Apdu.Upload.{chunk}
use ledger_sovereign.Apdu.Refine.{Refines, process_chunk-Refines}
use ledger_sovereign.Session.{receive, command, Reach, here, next}
use ledger_sovereign.Session.Safety.{IsSafe}
use ledger_sovereign.Session.Command.{handle_apdu-IsSafe}
use ledger_sovereign.Session.Reviews.{reviewed_is_signed}
use ledger_sovereign.Session.Approval.{approval_signs_what_is_shown}
use ledger_sovereign.Tests.Sample.{
  Kept, cx, buffering, platform, sizes, texts, keeps, now, start, path_bytes, path, message, rest,
}

-- The device when the first chunk has come, when it is handled, and the same for the last.
abbrev first_in : Device Kept
first_in = receive start (0x64 ∷ 2 ∷ 0 ∷ 0 ∷ 12 ∷ path_bytes ++ rest)

abbrev first_done : Device Kept
first_done = (handle_apdu platform now 17 first_in).1

abbrev last_in : Device Kept
last_in = receive first_done (0x64 ∷ 2 ∷ 2 ∷ 0 ∷ 3 ∷ message ++ rest)

abbrev reviewing : Device Kept
reviewing = (handle_apdu platform now 8 last_in).1

first_runs : handle_apdu platform now 17 first_in ≡ (returned tt, first_done)
unfolding handle_apdu dispatch catch_code report status_word handle_sign process_chunk chunk_init
    extract_hd_path choose throw_if read_byte read_bytes write_bytes is_mainnet tx_initialize
    tx_reset
first_runs = refl

first_quiet : (first_done.review ≡ none) × (first_done.hd_path ≡ path) × (first_done.tx ≡ 2)
unfolding handle_apdu dispatch catch_code report status_word handle_sign process_chunk chunk_init
    extract_hd_path choose throw_if read_byte read_bytes write_bytes is_mainnet tx_initialize
    tx_reset
first_quiet = (refl, refl, refl)

last_runs : handle_apdu platform now 8 last_in ≡ (returned tt, reviewing)
unfolding handle_apdu dispatch catch_code report status_word handle_sign process_chunk chunk_init
    chunk_last append_payload extract_hd_path choose throw_if read_byte read_bytes write_bytes
    is_mainnet tx_initialize tx_reset tx_append parse_message conclude_sign tx_parse parser_parse
    read parser_init_context parser_validate validate_from parser_get_item show_item show_blob
    parser_get_num_items
last_runs = refl

review_on : (reviewing.review ≡ some Review.transaction) × (length reviewing.apdu ≡ 268)
unfolding handle_apdu dispatch catch_code report status_word handle_sign process_chunk chunk_init
    chunk_last append_payload extract_hd_path choose throw_if read_byte read_bytes write_bytes
    is_mainnet tx_initialize tx_reset tx_append parse_message conclude_sign tx_parse parser_parse
    read parser_init_context parser_validate validate_from parser_get_item show_item show_blob
    parser_get_num_items
review_on = (refl, refl)

review_signs :
    signature_of cx reviewing.hd_path (tx_get_buffer buffering reviewing.txs) 257
    ≡ some (replicate 64 70)
unfolding Option.bind handle_apdu dispatch catch_code report status_word handle_sign process_chunk
    chunk_init chunk_last append_payload extract_hd_path choose throw_if read_byte read_bytes
    write_bytes is_mainnet tx_initialize tx_reset tx_append parse_message conclude_sign tx_parse
    parser_parse read parser_init_context parser_validate validate_from parser_get_item show_item
    show_blob parser_get_num_items
review_signs = refl

reached : Reach platform start reviewing
reached =
    next (next here (command now 0x64 2 0 0 12 path_bytes rest refl (omega arith) first_runs))
      (command now 0x64 2 2 0 3 message rest (first_quiet.0) (omega arith) last_runs)

approval_signs_what_is_shown_example :
    (is_ours reviewing.hd_path ≡ true)
    × Shows reviewing.txs (tx_get_buffer buffering reviewing.txs)
    × ((app_sign platform now reviewing).0 ≡ replicate 64 70 ++ 0x90 ∷ 0 ∷ [])
approval_signs_what_is_shown_example =
    approval_signs_what_is_shown platform now start reviewing (replicate 64 70) keeps sizes texts
      refl (omega arith) (omega (arith, review_on.1)) refl refl reached (review_on.0) review_signs

reviewed_is_signed_example :
    (is_ours reviewing.hd_path ≡ true)
    × (tx_get_buffer buffering reviewing.txs ≢ [])
    × (length (tx_get_buffer buffering reviewing.txs) ≤ 8192)
    × Shows reviewing.txs (tx_get_buffer buffering reviewing.txs)
reviewed_is_signed_example =
    reviewed_is_signed platform keeps start reviewing refl refl reached (review_on.0)

-- A first chunk, with no upload before it.
process_chunk-Refines_example :
    Refines platform (chunk 8192 none 0 path_bytes) (process_chunk platform 17 first_in)
process_chunk-Refines_example =
    process_chunk-Refines platform keeps {d = first_in} {class = 0x64} {ins = 2} {p1 = 0} {p2 = 0}
      {l = 12} {payload = path_bytes} {rest = rest} (record { frame = refl; short = omega arith })
      (record { path = λ e. cc; bounded = λ e. cc })

handle_apdu-IsSafe_example : IsSafe platform (handle_apdu platform now 17 first_in).1
handle_apdu-IsSafe_example =
    handle_apdu-IsSafe platform now keeps {d = first_in} {class = 0x64} {ins = 2} {p1 = 0} {p2 = 0}
      {l = 12} {payload = path_bytes} {rest = rest} (record { frame = refl; short = omega arith })
      refl (λ e. cc, λ e. cc, λ e. cc)
