-- ===== src/Protocol/Kept.antt =====
-- What process_chunk leaves alone.
use ledger_sovereign.Base.{ℕ, ◌≡◌, arith}
use ledger_sovereign.Platform.{Platform}
use ledger_sovereign.Device.{Device, choose, throw_if, read_byte, read_bytes}
use ledger_sovereign.Apdu.{
  extract_hd_path, append_payload, chunk_init, chunk_add, chunk_last, process_chunk,
}

-- The APDU buffer, the reply and the screen are as before.
pub record SameReply {B : Type 0} (d d' : Device B) : Type 0 where
  pub apdu : d'.apdu ≡ d.apdu
  pub tx : d'.tx ≡ d.tx
  pub flags : d'.flags ≡ d.flags
  pub review : d'.review ≡ d.review

module _ {B : Type 0} (p : Platform B) (rx : ℕ) (d : Device B) where
  init-SameReply : SameReply d (chunk_init p rx d).1
  unfolding chunk_init extract_hd_path throw_if read_bytes
  init-SameReply = ground arith

  add-SameReply : SameReply d (chunk_add p rx d).1
  unfolding chunk_add append_payload choose throw_if read_bytes
  add-SameReply = ground arith

  last-SameReply : SameReply d (chunk_last p rx d).1
  unfolding chunk_last append_payload choose throw_if read_bytes
  last-SameReply = ground arith

  pub process_chunk-SameReply : SameReply d (process_chunk p rx d).1
  unfolding process_chunk choose throw_if read_byte
  process_chunk-SameReply = ground (arith, init-SameReply, add-SameReply, last-SameReply)
