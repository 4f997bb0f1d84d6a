-- ===== src/Tests/Sample.antt =====
-- A platform to run the definitions on: a buffer that keeps whole appends up to its capacity, a
-- cryptographic library that fills in constant bytes, and a device with its two uploads.
use ledger_sovereign.Base.{
  ◌≡◌, ℕ, ◌+◌, ◌/◌, ◌%◌, refl, true, false, none, some, List, [], ◌∷◌, ◌++◌, arith, leb,
  if◌then◌else◌, length, replicate, get_or,
}
use ledger_sovereign.Base.Memory.{copy_into, print_text}
use ledger_sovereign.Codes.{ZxErr}
use ledger_sovereign.Platform.{
  nano_s, Build, Cx, Format, Buffering, Platform, WritesSizes, WritesTexts, Keeps,
}
use ledger_sovereign.Device.{Review, Device, Moment}
use mathlib.Core.Option
use ledger_sovereign.Protocol.Laws.{IsSound, IsUsual}
use ledger_sovereign.Parser.{Item}
use ledger_sovereign.Crypto.Signing.{point_of}

-- The capacity, and the bytes kept.
abbrev pub Kept : Type 0
Kept = ℕ × List ℕ

abbrev pub build : Build
build = record {
  target = nano_s;
  testing = false;
  ins_test = 100;
  major_version = 0;
  minor_version = 1;
  patch_version = 2;
  target_id = 0x31100004;
  apdu_size = 260;
  apdu_min_length = 5;
  io_reset = 16;
  io_asynch_reply = 16;
}

-- A key is its path's first byte; the point of every key has an odd x and y = 1.
abbrev pub point : List ℕ
point = 4 ∷ (replicate 31 0 ++ 1 ∷ []) ++ (replicate 31 0 ++ 1 ∷ [])

abbrev pub cx : Cx
cx = record {
  private_key_size = 4;
  derive_bip32 = λ path. some (replicate 64 (get_or path 2 0));
  init_private_key = λ bytes. some (replicate 4 (get_or bytes 0 0));
  init_public_key = some (replicate 65 0);
  generate_pair = λ empty key. some point;
  eddsa_sign =
      λ key message room. some (replicate 64 ((get_or message 0 0 + get_or key 0 0) % 256));
  sha256 = λ input. replicate 32 (get_or input 0 0);
}

abbrev pub format : Format
format = record {
  bech32m_encode = λ out size hrp input n pad. (ZxErr.ok, 115 ∷ 49 ∷ 0 ∷ []);
  page_string = λ out size input page. (print_text out size input, 1);
  page_string_hex = λ out size input page. (print_text out size input, 1);
  bip32_to_str = λ size path. replicate size 0;
  set_code = λ buffer offset code. copy_into buffer offset (code / 256 ∷ code % 256 ∷ []);
}

abbrev append_bytes : List ℕ → Kept → Kept × ℕ
append_bytes bytes (n, kept) =
    if leb (length kept + length bytes) n
    then ((n, kept ++ bytes), length bytes)
    else ((n, kept), length bytes + 1)

abbrev pub buffering : Buffering Kept
buffering = record {
  buffering_init = λ ram flash s. (flash, s.1);
  buffering_reset = λ s. (s.0, []);
  buffering_append = append_bytes;
  contents = λ s. s.1;
  capacity = λ s. s.0;
}

abbrev pub platform : Platform Kept
platform = record { build = build; cx = cx; format = format; buffering = buffering }

pub sizes : WritesSizes cx
sizes = record {
  derived = λ path key h. ground arith;
  key = λ bytes key h. ground arith;
  point = λ empty key w h. ground arith;
  signature = λ key message room s h. ground arith;
  digest = λ input. refl;
}

pub texts : WritesTexts format
texts = record {
  encoded = λ out input text n pad h. ground arith;
  code = λ buffer offset value h. refl;
}

pub keeps : Keeps buffering
keeps = record {
  reset_empty = λ s. refl;
  reset_capacity = λ s. refl;
  init_capacity = λ ram flash s. refl;
  append_capacity = λ bytes s. ground arith;
  append_fits = λ bytes s h. ground arith;
  append_full = λ bytes s h. ground arith;
}

abbrev pub now : Moment
now = record { pin_check = none; ux_allowed = true; stack = 9 ∷ 8 ∷ 7 ∷ 6 ∷ [] }

abbrev pub start : Device Kept
start = record {
  apdu = replicate 260 0;
  hd_path = replicate 3 0;
  addr_response_len = 0;
  tx_initialized = false;
  txs = record {
    buffer = (0, []);
    tx_obj = record { tx_blind_signature = record { ptr = none; len = 0 } };
    ctx_parsed_tx = record { buffer = none; buffer_len = 0; offset = 0; tx_obj = false };
  };
  review = none;
  tx = 0;
  flags = 0;
}

-- m/44'/1551'/5, a message of three bytes, and what else the APDU buffer holds.
abbrev pub path_bytes : List ℕ
path_bytes = 0x2c ∷ 0 ∷ 0 ∷ 0x80 ∷ 0x0f ∷ 6 ∷ 0 ∷ 0x80 ∷ 5 ∷ 0 ∷ 0 ∷ 0 ∷ []

abbrev pub path : List ℕ
path = 0x8000002c ∷ 0x8000060f ∷ 5 ∷ []

abbrev pub message : List ℕ
message = 65 ∷ 66 ∷ 67 ∷ []

abbrev pub rest : List ℕ
rest = replicate 260 0

-- A device with the message under review, and all its buffers as they are then.
abbrev pub shown : Device Kept
shown = record start {
  hd_path = path;
  txs = record {
    buffer = (8192, message);
    tx_obj = record { tx_blind_signature = record { ptr = some message; len = 3 } };
    ctx_parsed_tx = record { buffer = some message; buffer_len = 3; offset = 0; tx_obj = true };
  };
  review = some Review.transaction;
}

pub point_found : point_of cx path ≡ some point
unfolding Option.bind
point_found = refl

abbrev pub outputs : Item
outputs = record { out_key = replicate 20 9; out_val = replicate 20 9; page_count = 0 }

-- A device with an address in its buffer.
abbrev pub answered : Device Kept
answered = record shown {
  apdu = replicate 32 7 ++ (115 ∷ 49 ∷ []) ++ replicate 226 0;
  addr_response_len = 34;
  review = some Review.address;
}

pub sound : IsSound platform
sound = record {
  sane = record {
    min_header = omega arith;
    room = omega arith;
    word_size = omega arith;
    reset_small = omega arith;
  };
  sizes = sizes;
  texts = texts;
  keeps = keeps;
}

pub usual : IsUsual platform now
usual = record { stack_size = refl; no_reset = λ e h same. cc h }

-- A library with no key for any path.
abbrev pub keyless : Cx
keyless = record cx { derive_bip32 = λ path. none }

pub keyless_sizes : WritesSizes keyless
keyless_sizes = record {
  derived = λ path key h. ground arith;
  key = λ bytes key h. ground arith;
  point = λ empty key w h. ground arith;
  signature = λ key message room s h. ground arith;
  digest = λ input. refl;
}
