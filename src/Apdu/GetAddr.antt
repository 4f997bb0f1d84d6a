-- ===== src/Apdu/GetAddr.antt =====
-- handleGetAddr, when no call of the library fails.
use mathlib.Core.Path.{subst}
use ledger_sovereign.Base.{
  ℕ, ◌+◌, ◌-◌, ◌≡◌, ◌≤◌, true, false, some, List, ◌++◌, ◌==◌, ltb, length, take, refl, arith,
  get_elem?, replicate, bit_or, if◌then◌else◌, le→ltb, length-replicate,
}
use ledger_sovereign.Base.Memory.{memzero, c_string, words32}
use ledger_sovereign.Codes.{ZxErr}
use ledger_sovereign.Codes.Code
use ledger_sovereign.Platform.{Platform, WritesSizes, WritesTexts}
use ledger_sovereign.Device.{Device, Moment, Review, returned, thrown, choose, throw_if}
use ledger_sovereign.Device.Rules.{read_byte_lem}
use ledger_sovereign.Crypto.{crypto_fill_address}
use ledger_sovereign.Crypto.Signing.{point_of, memzero_to}
use ledger_sovereign.Crypto.Address.{encoded_address, crypto_fill_address_answers}
use ledger_sovereign.Crypto.Encoded.{encoded_point}
use ledger_sovereign.Actions.{app_fill_address}
use ledger_sovereign.Codes.Path.{is_ours}
use ledger_sovereign.Apdu.{extract_hd_path, handle_get_addr}
use ledger_sovereign.Apdu.Frame.{Holds, extract_hd_path_lem}

module _ {B : Type 0} (p : Platform B) (now : Moment) (w text : List ℕ) (laws : WritesSizes p.cx)
    (texts : WritesTexts p.format) (stack_size : length now.stack ≡ p.private_key_size)
    (room : 98 ≤ p.apdu_size) where
  -- The answer: the encoded point and the text of its address.
  abbrev pub answer_size : ℕ
  answer_size = 32 + length (c_string text)

  abbrev pub answer : List ℕ
  answer =
      encoded_point w ++ c_string text ++ replicate (p.apdu_size - 32 - length (c_string text)) 0

  pub fill_address_answers :
      (d : Device B)
      → length d.apdu ≡ p.apdu_size
      → point_of p.cx d.hd_path ≡ some w
      → encoded_address p.cx p.format (encoded_point w) ≡ (ZxErr.ok, text)
      → app_fill_address p now d
        ≡ (returned ZxErr.ok, record d { apdu = answer; addr_response_len = answer_size })
  unfolding app_fill_address throw_if
  fill_address_answers d size point encoded =
      let zeros : List ℕ = replicate p.apdu_size 0 in
      let cleared : memzero d.apdu p.apdu_size ≡ zeros = memzero_to d.apdu p.apdu_size size in
      let count : length zeros ≡ p.apdu_size = length-replicate p.apdu_size 0 in
      let filled : crypto_fill_address p.cx p.format d.hd_path now.stack (some zeros) p.apdu_size
            (some 0)
          ≡ (ZxErr.ok, some answer, some answer_size) =
        subst
          (λ n. crypto_fill_address p.cx p.format d.hd_path now.stack (some zeros) n (some 0) ≡ (
            ZxErr.ok,
            some
                (encoded_point w ++ c_string text ++ replicate (n - 32 - length (c_string text)) 0),
            some answer_size,
          ))
          count
          (crypto_fill_address_answers p.cx p.format laws d.hd_path now.stack stack_size zeros
            (omega arith) 0 w point text texts encoded) in
      ground (arith, cleared, filled)

  -- An address command with a path of this application, when the library finds the point of the
  -- path's key and encodes its address, with an APDU buffer of at least 98 bytes and the documented
  -- sizes and texts. In both cases the upload ends, and the buffer holds the encoded point, the text
  -- of its address and zeros. With a P1 of zero the code for success is thrown at once, the length
  -- of the answer in `*tx`; with any other P1 the answer waits for a review of the address.
  pub get_addr_answers :
      {d : Device B} {class ins p1 p2 l : ℕ} {payload rest : List ℕ}
      (holds : Holds d class ins p1 p2 l payload rest)
      → length d.apdu ≡ p.apdu_size
      → 12 ≤ length payload
      → is_ours (words32 (take 12 payload)) ≡ true
      → point_of p.cx (words32 (take 12 payload)) ≡ some w
      → encoded_address p.cx p.format (encoded_point w) ≡ (ZxErr.ok, text)
      → let ready : Device B = record d {
        tx_initialized = false;
        hd_path = words32 (take 12 payload);
        addr_response_len = answer_size;
        apdu = answer;
      } in
        handle_get_addr p now (5 + length payload) d ≡ (
          if p1 == 0 then (thrown Code.success, record ready { tx = answer_size }) else (
            returned tt,
            record ready { review = some Review.address; flags = bit_or d.flags p.io_asynch_reply },
          ))
  unfolding handle_get_addr choose
  get_addr_answers {d} {p1 = p1} {payload = payload} holds size long ours point encoded =
      let path : List ℕ = words32 (take 12 payload) in
      let d1 : Device B = record d { tx_initialized = false; hd_path = path } in
      let enough : ltb (length payload) 12 ≡ false = le→ltb (length payload) 12 long in
      let extracted : extract_hd_path (5 + length payload) 5 d ≡ (returned tt, d1) =
        ground (arith, extract_hd_path_lem holds, enough, ours) in
      let p1_byte : get_elem? d.apdu 2 ≡ some p1 = rw holds.frame refl in
      ground (
        arith,
        extracted,
        read_byte_lem d1 2 p1 p1_byte,
        fill_address_answers d1 size point encoded,
      )
