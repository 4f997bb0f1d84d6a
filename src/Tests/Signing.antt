-- ===== src/Tests/Signing.antt =====
-- A session that asks about a message, and what follows.
use mathlib.Core.Option
use ledger_sovereign.Codes.Path.{is_ours}
use ledger_sovereign.Base.{
  ℕ, Option, replicate, ◌≡◌, ◌≢◌, refl, true, some, List, [], ◌∷◌, ◌++◌, arith, ◌+◌, ◌-◌, ◌%◌, ap,
  sym, get_or,
}
use ledger_sovereign.Parser.{
  parser_init_context, read, parser_parse, parser_get_num_items, parser_get_item, show_item,
  show_blob, validate_from, parser_validate,
}
use ledger_sovereign.Tx.{tx_initialize, tx_reset, tx_append, tx_get_buffer, tx_parse}
use ledger_sovereign.Crypto.Signing.{signature_of}
use ledger_sovereign.Device.{Review, Device, choose, throw_if, read_byte, read_bytes, write_bytes}
use ledger_sovereign.Actions.{app_sign}
use ledger_sovereign.Apdu.{
  is_mainnet, status_word, extract_hd_path, append_payload, chunk_init, chunk_last, process_chunk,
  parse_message, conclude_sign, handle_sign, report, catch_code, dispatch, handle_apdu,
}
use ledger_sovereign.Protocol.{version_text}
use ledger_sovereign.Protocol.Machine.{Event, command, approve, reject, signed_reply}
use ledger_sovereign.Session.Trace.{perform, perform_all, run_events}
use ledger_sovereign.Platform.{Cx, WritesSizes}
use ledger_sovereign.Session.Simulate.Keys.{AgreeInPublic, rekeyed, replies_hide_keys}
use ledger_sovereign.Session.Simulate.Consent.{resigned, no_signature_unapproved}
use ledger_sovereign.Session.Simulate.Answers.{version_command, version_after_reject}
use ledger_sovereign.Session.Simulate.Signing.{
  DisplaysItems, message_signed_is_shown, signed_was_uploaded,
}
use ledger_sovereign.Session.Simulate.History.{newest_first, Delivered}
use ledger_sovereign.Tests.Sample.{
  Kept, cx, buffering, platform, sound, usual, now, start, path_bytes, message, outputs,
}

abbrev asked_events : List Event
asked_events = command now 0x64 2 0 0 12 path_bytes ∷ command now 0x64 2 2 0 3 message ∷ []

abbrev asked : Device Kept
asked = run_events platform start asked_events

message_asked : asked.review ≡ some Review.transaction
unfolding run_events perform handle_apdu dispatch catch_code report status_word handle_sign
    process_chunk chunk_init chunk_last append_payload extract_hd_path choose throw_if read_byte
    read_bytes write_bytes is_mainnet tx_initialize tx_reset tx_append parse_message conclude_sign
    tx_parse parser_parse read parser_init_context parser_validate validate_from parser_get_item
    show_item show_blob parser_get_num_items
message_asked = refl

message_signed_is_shown_example :
    (is_ours asked.hd_path ≡ true)
    × (tx_get_buffer buffering asked.txs ≢ [])
    × DisplaysItems platform asked.txs (tx_get_buffer buffering asked.txs) outputs 17 17 1
    × ((app_sign platform now asked).0
        ≡ signed_reply (signature_of cx asked.hd_path (tx_get_buffer buffering asked.txs) 257))
message_signed_is_shown_example =
    message_signed_is_shown platform sound start asked_events now outputs 17 17 1
      (λ e. cc, λ e. cc, λ e. cc) refl refl ((omega arith, usual), ((omega arith, usual), tt))
      message_asked usual (omega arith) (omega arith)

signed_was_uploaded_example :
    Delivered platform
      (newest_first [] asked_events)
      asked.hd_path
      (tx_get_buffer buffering asked.txs)
signed_was_uploaded_example =
    signed_was_uploaded platform sound start asked_events refl refl refl
      ((omega arith, usual), ((omega arith, usual), tt)) message_asked

version_after_reject_example :
    let d = (perform platform asked (reject now)).1 in
    (perform platform d (version_command platform now 0 0 2 (7 ∷ 8 ∷ []))).0
    ≡ some (version_text platform now ++ 0x90 ∷ 0 ∷ [])
version_after_reject_example =
    version_after_reject platform now 0 0 2 (7 ∷ 8 ∷ []) start asked_events sound usual
      (λ e. cc, λ e. cc, λ e. cc) refl refl ((omega arith, usual), ((omega arith, usual), tt))
      (omega arith) (omega arith)

-- A library that signs with other bytes.
abbrev other_sign : List ℕ → List ℕ → ℕ → Option (List ℕ)
other_sign key text room = some (replicate 64 1)

-- An approval with nothing on the screen, then an upload that is rejected.
no_signature_unapproved_example :
    perform_all platform start (approve now ∷ asked_events ++ reject now ∷ [])
    ≡ perform_all
        (resigned platform other_sign)
        start
        (approve now ∷ asked_events ++ reject now ∷ [])
no_signature_unapproved_example =
    no_signature_unapproved platform other_sign sound (λ key text room s h. ground arith) start
      (approve now ∷ asked_events ++ reject now ∷ []) refl refl refl
      (usual, ((omega arith, usual), ((omega arith, usual), (usual, tt))))
      ((λ e. cc), (tt, (tt, (tt, tt))))

-- A library with other private keys, and the same public points and signatures.
abbrev shifted : Cx
shifted = record cx {
  derive_bip32 = λ path. some (replicate 64 (get_or path 2 0 + 1));
  eddsa_sign =
      λ key text room. some (replicate 64 ((get_or text 0 0 + (get_or key 0 0 - 1)) % 256));
}

shifted_sizes : WritesSizes shifted
shifted_sizes = record {
  derived = λ path key h. ground arith;
  key = λ bytes key h. ground arith;
  point = λ empty key w h. ground arith;
  signature = λ key text room s h. ground arith;
  digest = λ input. refl;
}

same_points : AgreeInPublic platform shifted
unfolding Option.bind
same_points = record { points = λ path. refl; hashes = λ input. refl; key_size = refl }

same_signed :
    (path text : List ℕ) (room : ℕ)
    → signature_of cx path text room ≡ signature_of shifted path text room
unfolding Option.bind
same_signed path text room =
    let back : get_or path 2 0 + 1 - 1 ≡ get_or path 2 0 = omega arith in
    ap (λ k. some (replicate 64 ((get_or text 0 0 + k) % 256))) (sym back)

abbrev uploaded : Device Kept
uploaded =
    let first = (perform platform start (command now 0x64 2 0 0 12 path_bytes)).1 in
    (perform platform first (command now 0x64 2 2 0 3 message)).1

replies_hide_keys_example :
    perform_all platform start (asked_events ++ approve now ∷ [])
    ≡ perform_all (rekeyed platform shifted) start (asked_events ++ approve now ∷ [])
replies_hide_keys_example =
    replies_hide_keys platform shifted sound shifted_sizes same_points start
      (asked_events ++ approve now ∷ []) refl refl refl
      ((omega arith, usual), ((omega arith, usual), (usual, tt)))
      (
        tt,
        (tt, ((λ on. same_signed uploaded.hd_path (tx_get_buffer buffering uploaded.txs) 257), tt)),
      )
