-- ===== src/Apdu/Chunks.antt =====
-- process_chunk and its three cases on a received command, as equations.
use ledger_sovereign.Base.{
  not, ℕ, ◌+◌, ◌≡◌, refl, ap, true, false, List, arith, ◌==◌, if◌then◌else◌, length, le→ltb,
}
use ledger_sovereign.Codes.Code
use ledger_sovereign.Platform.{Platform}
use ledger_sovereign.Tx.{TxState, tx_initialize, tx_reset, tx_append}
use ledger_sovereign.Device.{Device, returned, thrown, fault, choose}
use ledger_sovereign.Device.Rules.{throw_if-true, throw_if-false, read_byte_lem}
use ledger_sovereign.Apdu.{chunk_init, chunk_add, chunk_last, process_chunk}
use ledger_sovereign.Apdu.Frame.{
  Holds, size, path_outcome, path_after, extract_hd_path_lem, append_payload_lem,
}

module _ {B : Type 0} (p : Platform B) {d : Device B} {class ins p1 p2 l : ℕ}
    {payload rest : List ℕ} (holds : Holds d class ins p1 p2 l payload rest) where
  -- The state of tx.c after tx_initialize and tx_reset.
  abbrev pub cleared : TxState B
  cleared = tx_reset p.buffering (tx_initialize p.buffering p.target d.txs)

  abbrev pub appended : TxState B
  appended = (tx_append p.buffering payload d.txs).0

  abbrev pub added : ℕ
  added = (tx_append p.buffering payload d.txs).1

  pub chunk_init_lem : chunk_init p (5 + length payload) d ≡ (
    elim (path_outcome payload) [
      | returned _ ↦ returned false
      | thrown e ↦ thrown e
      | fault ↦ fault
    ],
    record d {
      txs = cleared;
      hd_path = path_after d.hd_path payload;
      tx_initialized = elim (path_outcome payload) [ returned _ ↦ true | _ ↦ false ];
    },
  )
  unfolding chunk_init
  chunk_init_lem = ground (
    arith,
    extract_hd_path_lem {d = record d { txs = cleared }}
        (record { frame = holds.frame; short = holds.short }),
  )

  pub chunk_add_refused :
      d.tx_initialized ≡ false
      → chunk_add p (5 + length payload) d ≡ (thrown Code.tx_not_initialized, d)
  unfolding chunk_add
  chunk_add_refused h = ground (arith, throw_if-true d Code.tx_not_initialized (ap not h))

  pub chunk_add_lem :
      d.tx_initialized ≡ true
      → chunk_add p (5 + length payload) d ≡ (
          if added == length payload then (returned false, record d { txs = appended }) else (
            thrown Code.output_buffer_too_small,
            record d { txs = appended; tx_initialized = false },
          ))
  unfolding chunk_add choose
  chunk_add_lem h = ground (
    arith,
    size holds,
    append_payload_lem holds p,
    throw_if-false d Code.tx_not_initialized (ap not h),
  )

  pub chunk_last_refused :
      d.tx_initialized ≡ false
      → chunk_last p (5 + length payload) d ≡ (thrown Code.tx_not_initialized, d)
  unfolding chunk_last
  chunk_last_refused h = ground (arith, throw_if-true d Code.tx_not_initialized (ap not h))

  pub chunk_last_lem :
      d.tx_initialized ≡ true
      → chunk_last p (5 + length payload) d ≡ (
        if added == length payload then returned true else thrown Code.output_buffer_too_small,
        record d { txs = appended; tx_initialized = false },
      )
  unfolding chunk_last choose
  chunk_last_lem h = ground (
    arith,
    size holds,
    append_payload_lem holds p,
    throw_if-false d Code.tx_not_initialized (ap not h),
  )

  -- The switch on P1.
  pub process_chunk_lem : process_chunk p (5 + length payload) d ≡ (
      if p1 == 0
      then chunk_init p (5 + length payload) d
      else (if p1 == 1
          then chunk_add p (5 + length payload) d
          else (if p1 == 2
              then chunk_last p (5 + length payload) d
              else (thrown Code.invalid_p1_p2, d))))
  unfolding process_chunk choose
  process_chunk_lem = ground (
    arith,
    read_byte_lem d 2 p1 (rw holds.frame refl),
    throw_if-false d Code.wrong_length (le→ltb (5 + length payload) 5 (omega arith)),
  )
