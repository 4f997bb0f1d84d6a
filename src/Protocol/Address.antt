-- ===== src/Protocol/Address.antt =====
-- handleGetAddr against its verdict.
use ledger_sovereign.Base.{
  suc, ap, ◌<◌, ℕ, ◌+◌, ◌-◌, ◌≡◌, ◌≤◌, inl, inr, refl, arith, none, some, List, [], ◌++◌, bit_or,
  length, take, replicate, true, false, ltb, ◌==◌, Bool-cases, length-replicate, length-append,
  take-append_exact, get_elem?,
}
use ledger_sovereign.Base.Memory.{words32, c_string}
use ledger_sovereign.Codes.{ZxErr}
use ledger_sovereign.Codes.Code
use ledger_sovereign.Platform.{Platform}
use ledger_sovereign.Crypto.Signing.{point_of}
use ledger_sovereign.Crypto.Address.{encoded_address}
use ledger_sovereign.Crypto.Encoded.{encoded_point, length-encoded_point}
use ledger_sovereign.Device.{Device, Moment, returned, thrown}
use ledger_sovereign.Device.Rules.{read_byte_lem}
use ledger_sovereign.Codes.Path.{is_ours}
use ledger_sovereign.Apdu.{extract_hd_path, handle_get_addr}
use ledger_sovereign.Apdu.Frame.{Holds, path_outcome, path_after, extract_hd_path_lem}
use ledger_sovereign.Apdu.GetAddr.{get_addr_answers}
use ledger_sovereign.Protocol.{reply, address_of, found_verdict, address_verdict}
use ledger_sovereign.Protocol.Laws.{IsSound, IsUsual}
use ledger_sovereign.Protocol.Reply.{Fresh, Yields, resets, plain_Yields}
use ledger_sovereign.Protocol.Found.{no_key, no_text, found, find, fill_fails}

ltb→le : (a b : ℕ) → ltb a b ≡ false → b ≤ a
ltb→le a b h = ground arith

module _ {B : Type 0} (p : Platform B) (now : Moment) (sound : IsSound p)
    (usual : IsUsual p now) where
  module _ {d : Device B} {class ins p1 p2 l : ℕ} {payload rest : List ℕ}
      (holds : Holds d class ins p1 p2 l payload rest) (fresh : Fresh p d) where
    abbrev path : List ℕ
    path = words32 (take 12 payload)

    -- The device once extractHDPath has run.
    abbrev pathed : Device B
    pathed = record d { tx_initialized = false; hd_path = path_after d.hd_path payload }

    path_refused :
        (e : ℕ)
        → 4096 ≤ e
        → path_outcome payload ≡ thrown e
        → Yields p (none, reply [] e) (handle_get_addr p now (5 + length payload) d)
    unfolding handle_get_addr
    path_refused e code h =
        plain_Yields p sound.sane none e (handle_get_addr p now (5 + length payload) d) pathed
          (resets p sound.sane e code) (ground (arith, extract_hd_path_lem holds, h)) refl
          (record { tx = fresh.tx; flags = fresh.flags; review = fresh.review; size = fresh.size })

    module _ (long : ltb (length payload) 12 ≡ false) (ours : is_ours path ≡ true) where
      abbrev ready : Device B
      ready = record d { tx_initialized = false; hd_path = path }

      address_refused :
          address_of p path ≡ none
          → Yields p
              (none, reply [] Code.execution_error)
              (handle_get_addr p now (5 + length payload) d)
      unfolding handle_get_addr
      address_refused none_found =
          let extracted : extract_hd_path (5 + length payload) 5 d ≡ (returned tt, ready) =
            ground (arith, extract_hd_path_lem holds, long, ours) in
          let p1_byte : get_elem? d.apdu 2 ≡ some p1 = rw holds.frame refl in
          plain_Yields p sound.sane none Code.execution_error
            (handle_get_addr p now (5 + length payload) d)
            (record ready { apdu = replicate p.apdu_size 0; addr_response_len = 0 })
            (resets p sound.sane Code.execution_error (omega arith))
            (ground (
              arith,
              extracted,
              read_byte_lem ready 2 p1 p1_byte,
              fill_fails p now sound usual ready fresh.size none_found,
            ))
            refl
            (record {
              tx = fresh.tx;
              flags = fresh.flags;
              review = fresh.review;
              size = length-replicate p.apdu_size 0;
            })

      address_found :
          (w text : List ℕ)
          → point_of p.cx path ≡ some w
          → encoded_address p.cx p.format (encoded_point w) ≡ (ZxErr.ok, text)
          → Yields p
              (none, found_verdict p1 path (some (encoded_point w ++ c_string text)))
              (handle_get_addr p now (5 + length payload) d)
      address_found w text point coded =
          let key : List ℕ = encoded_point w in
          let shown : List ℕ = key ++ c_string text in
          let pad : List ℕ = replicate (p.apdu_size - 32 - length (c_string text)) 0 in
          let room : 260 ≤ p.apdu_size = sound.sane.room in
          let short : length (c_string text) < 66 =
            sound.texts.encoded (replicate 66 0) (p.sha256 key) text 28 1 coded in
          let count : 32 + length (c_string text) ≡ length shown =
            omega (arith, length-append key (c_string text), length-encoded_point w) in
          let front : take (length shown) (shown ++ pad) ≡ shown = take-append_exact shown pad in
          let whole : length (shown ++ pad) ≡ p.apdu_size = omega (
            arith,
            length-append shown pad,
            length-replicate {A = ℕ} (p.apdu_size - 32 - length (c_string text)) 0,
          ) in
          let spare : ℕ = p.apdu_size - 33 - length (c_string text) in
          let zeros_left : p.apdu_size - 32 - length (c_string text) ≡ suc spare = omega arith in
          let answered =
            get_addr_answers p now w text sound.sizes sound.texts usual.stack_size (omega arith)
              holds fresh.size (ltb→le (length payload) 12 long) ours point coded in
          elim (Bool-cases (p1 == 0)) [
            | inl at_once ↦
                rw (answered, at_once)
                  (
                    refl,
                    resets p sound.sane Code.success (omega arith),
                    refl,
                    fresh.review,
                    fresh.flags,
                    count,
                    front,
                    whole,
                    omega arith,
                  )
            | inr asked ↦
                rw (answered, asked)
                  (
                    refl,
                    refl,
                    ap (λ n. bit_or n p.io_asynch_reply) fresh.flags,
                    (
                      refl,
                      refl,
                      count,
                      front,
                      whole,
                      omega (arith, count),
                      (omega (arith, count), spare, ap (λ n. shown ++ replicate n 0) zeros_left),
                    ),
                  )
          ]

    -- The answer to an address command that passes the PIN check.
    pub get_addr_Yields :
        Yields p (none, address_verdict p p1 payload) (handle_get_addr p now (5 + length payload) d)
    get_addr_Yields = elim (Bool-cases (ltb (length payload) 12)) [
      | inl small ↦ rw small (path_refused Code.wrong_length (omega arith) (rw small refl))
      | inr long ↦ rw long (elim (Bool-cases (is_ours path)) [
        | inr foreign ↦
            rw foreign (path_refused Code.data_invalid (omega arith) (rw (long, foreign) refl))
        | inl ours ↦ rw ours (elim (find p path) [
          | no_key point e ↦ rw e (address_refused long ours e)
          | no_text w point bad e ↦ rw e (address_refused long ours e)
          | found w text point coded e ↦ rw e (address_found long ours w text point coded)
        ])
      ])
    ]
