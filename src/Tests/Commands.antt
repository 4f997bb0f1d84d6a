-- ===== src/Tests/Commands.antt =====
-- Commands, replies and callbacks at concrete inputs.
use ledger_sovereign.Codes.Path.{is_ours}
use ledger_sovereign.Base.{
  ◌≡◌, refl, true, false, none, [], ◌∷◌, ◌++◌, arith, drop, take, replicate,
}
use ledger_sovereign.Base.Memory.{copy_into}
use ledger_sovereign.Base.Text.{codes}
use ledger_sovereign.Codes.Code
use ledger_sovereign.Device.{Device, returned, thrown, choose, throw_if, read_byte, read_bytes}
use ledger_sovereign.Tx.{tx_append}
use ledger_sovereign.Tx.Parse.{after_parse}
use ledger_sovereign.Crypto.Encoded.{encoded_point}
use ledger_sovereign.Session.Replies.{app_reject_replies}
use ledger_sovereign.Actions.{app_reject}
use ledger_sovereign.Apdu.{
  is_mainnet, status_word, append_payload, chunk_last, process_chunk, handle_sign, catch_code,
  handle_apdu, handle_get_addr, extract_hd_path,
}
use ledger_sovereign.Apdu.Sign.{sign_empty}
use ledger_sovereign.Protocol.{version_text}
use ledger_sovereign.Apdu.Path.{extract_hd_path_reads}
use ledger_sovereign.Codes.Path.{path_payload}
use ledger_sovereign.Apdu.Report.{status_word_lem, catch_code_lem}
use ledger_sovereign.Apdu.GetAddr.{get_addr_answers}
use ledger_sovereign.Apdu.Version.{version_replies}
use ledger_sovereign.Session.{receive}
use ledger_sovereign.Tests.Sample.{
  shown, answered, point_found, Kept, point, buffering, platform, sizes, texts, now, start,
  path_bytes, path, rest,
}

status_of_code : status_word 0x1234 ≡ 0x6A34
status_of_code = status_word_lem 0x1234

-- A code behind a reply of three bytes.
catch_code_lem_example :
    catch_code platform (thrown Code.data_invalid, record shown { tx = 3 })
    ≡ (returned tt, record shown { apdu = 0 ∷ 0 ∷ 0 ∷ 0x69 ∷ 0x84 ∷ drop 5 shown.apdu; tx = 5 })
catch_code_lem_example =
    catch_code_lem platform Code.data_invalid (record shown { tx = 3 }) (omega arith)

abbrev version_in : Device Kept
version_in = receive start (0x64 ∷ 0 ∷ 0 ∷ 0 ∷ 0 ∷ rest)

version_replies_example :
    let (o, d') = handle_apdu platform now 5 version_in in
    (o ≡ returned tt)
    × (d'.tx ≡ 14)
    × (take 14 d'.apdu ≡ version_text platform now ++ 0x90 ∷ 0 ∷ [])
version_replies_example =
    version_replies platform now {d = version_in} {p1 = 0} {p2 = 0} {l = 0} {payload = []}
      {rest = rest} (record { frame = refl; short = omega arith }) (omega arith) refl (omega arith)
      (omega arith) (omega arith)

-- A last chunk that completes an empty message.
abbrev empty_in : Device Kept
empty_in = record (receive start (0x64 ∷ 2 ∷ 2 ∷ 0 ∷ 0 ∷ rest)) {
  tx_initialized = true;
  hd_path = path;
}

abbrev empty_done : Device Kept
empty_done = record empty_in { tx_initialized = false; txs = record start.txs { buffer = (0, []) } }

empty_last : process_chunk platform 5 empty_in ≡ (returned true, empty_done)
unfolding process_chunk chunk_last append_payload choose throw_if read_byte read_bytes tx_append
empty_last = refl

sign_empty_example : handle_sign platform 5 empty_in ≡ (
  thrown Code.data_invalid,
  record empty_done {
    txs = after_parse buffering empty_done.txs;
    apdu = copy_into empty_done.apdu 0 (codes "Initialized empty context");
    tx = 25;
  },
)
sign_empty_example =
    sign_empty platform 5 empty_in empty_done empty_last (omega arith) refl (omega arith)
      (omega arith)

reject_replies :
    ((app_reject platform now answered).0 ≡ 0x69 ∷ 0x86 ∷ [])
    × ((app_reject platform now answered).1.review ≡ none)
reject_replies = app_reject_replies platform now answered texts (omega arith)

-- An address command without a confirmation.
abbrev addr_in : Device Kept
addr_in = receive start (0x64 ∷ 1 ∷ 0 ∷ 0 ∷ 12 ∷ path_bytes ++ replicate 243 0)

path_ours : is_ours path ≡ true
unfolding is_mainnet
path_ours = refl

get_addr_answers_example : handle_get_addr platform now 17 addr_in ≡ (
  thrown Code.success,
  record addr_in {
    hd_path = path;
    addr_response_len = 34;
    apdu = encoded_point point ++ (115 ∷ 49 ∷ []) ++ replicate 226 0;
    tx = 34;
  },
)
get_addr_answers_example =
    get_addr_answers platform now point (115 ∷ 49 ∷ 0 ∷ []) sizes texts refl (omega arith)
      {d = addr_in} {class = 0x64} {ins = 1} {p1 = 0} {p2 = 0} {l = 12} {payload = path_bytes}
      {rest = replicate 243 0} (record { frame = refl; short = omega arith }) refl (omega arith)
      path_ours point_found refl

-- A path of another coin.
abbrev foreign_in : Device Kept
foreign_in = receive start (
    0x64 ∷ 1 ∷ 0 ∷ 0 ∷ 12 ∷ path_payload (0x8000002c ∷ 0x80000001 ∷ 0x01020304 ∷ [])
    ++ replicate 243 0)

extract_hd_path_reads_example : extract_hd_path 17 5 foreign_in ≡ (
  thrown Code.data_invalid,
  record foreign_in { tx_initialized = false; hd_path = 0x8000002c ∷ 0x80000001 ∷ 0x01020304 ∷ [] },
)
extract_hd_path_reads_example =
    extract_hd_path_reads {d = foreign_in} {class = 0x64} {ins = 1} {p1 = 0} {p2 = 0} {l = 12}
      {rest = replicate 243 0} 0x8000002c 0x80000001 0x01020304 []
      (record { frame = refl; short = omega arith }) (omega arith) (omega arith) (omega arith)
