-- ===== src/Protocol/Reply.antt =====
-- What a handler owes to a verdict, and what the CATCH clauses make of it.
use mathlib.Core.Path.{subst}
use ledger_sovereign.Base.{
  suc, replicate, ap, ◌∙◌, ◌<◌, ℕ, ◌+◌, ◌/◌, ◌%◌, ◌^◌, ◌≡◌, ◌≢◌, ◌≤◌, refl, arith, none, some, List,
  [], ◌∷◌, ◌++◌, bit_or, length, take,
}
use ledger_sovereign.Base.Memory.{length-copy_into}
use ledger_sovereign.Platform.{Platform, IsSane}
use ledger_sovereign.Tx.{tx_get_buffer}
use ledger_sovereign.Tx.Parse.{Shows}
use ledger_sovereign.Device.{Review, Device, Outcome, returned, thrown, choose, write_bytes}
use ledger_sovereign.Codes.Wire.{status}
use ledger_sovereign.Apdu.{status_word, byte_of, report, catch_code}
use ledger_sovereign.Apdu.Report.{thrown_code_replies}
use ledger_sovereign.Apdu.Upload.{Upload}
use ledger_sovereign.Apdu.Refine.{upload}
use ledger_sovereign.Protocol.{Verdict, reply, ask_address, ask_sign}

-- A key of 32 bytes and the text behind it are in the buffer, and then zeros, which end the text.
abbrev pub Displays : {B : Type 0} → List ℕ → Device B → Type 0
Displays answer d = (32 ≤ length answer) × (n : ℕ) × (d.apdu ≡ answer ++ replicate (suc n) 0)

-- The address is in the buffer, and the user is asked about it.
abbrev pub AsksAddress : {B : Type 0} → Platform B → List ℕ → List ℕ → Device B → Type 0
AsksAddress p path answer d' =
    (d'.review ≡ some Review.address)
    × (d'.hd_path ≡ path)
    × (d'.addr_response_len ≡ length answer)
    × (take (length answer) d'.apdu ≡ answer)
    × (length d'.apdu ≡ p.apdu_size)
    × (length answer + 2 ≤ p.apdu_size)
    × Displays answer d'

-- The user is asked about the message, which is in the transaction buffer and on the screen.
abbrev pub AsksSign : {B : Type 0} → Platform B → List ℕ → List ℕ → Device B → Type 0
AsksSign p path message d' =
    (d'.review ≡ some Review.transaction)
    × (d'.hd_path ≡ path)
    × (tx_get_buffer p.buffering d'.txs ≡ message)
    × Shows d'.txs message
    × (length d'.apdu ≡ p.apdu_size)

-- A command has been received: nothing is in the reply yet, and no review is on the screen.
pub record Fresh {B : Type 0} (p : Platform B) (d : Device B) : Type 0 where
  pub tx : d.tx ≡ 0
  pub flags : d.flags ≡ 0
  pub review : d.review ≡ none
  pub size : length d.apdu ≡ p.apdu_size

-- A handler with a verdict: it throws the code behind the answer, or returns with a question.
abbrev pub Yields :
    {B : Type 0} → Platform B → Upload × Verdict → Outcome (Unit {0}) × Device B → Type 0
Yields p (u, reply bytes e) (o, d') =
    (o ≡ thrown e)
    × (e ≢ p.io_reset)
    × (upload p d' ≡ u)
    × (d'.review ≡ none)
    × (d'.flags ≡ 0)
    × (d'.tx ≡ length bytes)
    × (take (length bytes) d'.apdu ≡ bytes)
    × (length d'.apdu ≡ p.apdu_size)
    × (length bytes + 2 ≤ p.apdu_size)
Yields p (u, ask_address path answer) (o, d') =
    (o ≡ returned tt)
    × (upload p d' ≡ u)
    × (d'.flags ≡ bit_or 0 p.io_asynch_reply)
    × AsksAddress p path answer d'
Yields p (u, ask_sign path message) (o, d') =
    (o ≡ returned tt)
    × (upload p d' ≡ u)
    × (d'.flags ≡ bit_or 0 p.io_asynch_reply)
    × AsksSign p path message d'

-- handleApdu with a verdict: it returns, and the first `*tx` bytes of the buffer are the answer and
-- the status word, or the user is asked and IO_ASYNCH_REPLY is set.
abbrev pub Conforms :
    {B : Type 0} → Platform B → Upload × Verdict → Outcome (Unit {0}) × Device B → Type 0
Conforms p (u, reply bytes e) (o, d') =
    (o ≡ returned tt)
    × (upload p d' ≡ u)
    × (d'.review ≡ none)
    × (d'.flags ≡ 0)
    × (d'.tx ≡ length bytes + 2)
    × (take (length bytes + 2) d'.apdu ≡ bytes ++ status e / 2 ^ 8 % 2 ^ 8 ∷ status e % 2 ^ 8 ∷ [])
    × (length d'.apdu ≡ p.apdu_size)
Conforms p (u, ask_address path answer) (o, d') =
    (o ≡ returned tt)
    × (upload p d' ≡ u)
    × (d'.flags ≡ bit_or 0 p.io_asynch_reply)
    × AsksAddress p path answer d'
Conforms p (u, ask_sign path message) (o, d') =
    (o ≡ returned tt)
    × (upload p d' ≡ u)
    × (d'.flags ≡ bit_or 0 p.io_asynch_reply)
    × AsksSign p path message d'

module _ {B : Type 0} (p : Platform B) (sane : IsSane p.build) where
  pub resets : (e : ℕ) → 4096 ≤ e → e ≢ p.io_reset
  resets e h same = let small : p.io_reset < 4096 = sane.reset_small in omega (arith, same)

  -- A code alone, from a handler that has written nothing to the reply.
  pub plain_Yields :
      (u : Upload) (e : ℕ) (run : Outcome (Unit {0}) × Device B) (d1 : Device B)
      → e ≢ p.io_reset
      → run ≡ (thrown e, d1)
      → upload p d1 ≡ u
      → Fresh p d1
      → Yields p (u, reply [] e) run
  plain_Yields u e run d1 other h up fresh =
      let room : 260 ≤ p.apdu_size = sane.room in
      rw h (refl, other, up, fresh.review, fresh.flags, fresh.tx, refl, fresh.size, omega arith)

  report_keeps :
      (e : ℕ) (d : Device B)
      → let d' = (report p e d).1 in
        (upload p d' ≡ upload p d)
        × (d'.review ≡ d.review)
        × (d'.flags ≡ d.flags)
        × (length d'.apdu ≡ length d.apdu)
  unfolding report choose write_bytes
  report_keeps e d = ground (
    arith,
    length-copy_into d.apdu d.tx (byte_of (status_word e) 1 ∷ byte_of (status_word e) 0 ∷ []),
  )

  caught_reply :
      (e : ℕ) (d : Device B)
      → let d' = (catch_code p (thrown e, d)).1 in
        (upload p d' ≡ upload p d)
        × (d'.review ≡ d.review)
        × (d'.flags ≡ d.flags)
        × (length d'.apdu ≡ length d.apdu)
  unfolding catch_code
  caught_reply e d = report_keeps e d

  pub Yields→Conforms :
      (u : Upload) (v : Verdict) (o : Outcome (Unit {0})) (d : Device B)
      → Yields p (u, v) (o, d)
      → Conforms p (u, v) (catch_code p (o, d))
  unfolding catch_code
  Yields→Conforms u (reply bytes e) o d (throws, other, up, idle, flags, count, front, size, room) =
      let d' : Device B = (catch_code p (thrown e, d)).1 in
      let w : ℕ = status e in
      let word : List ℕ = w / 2 ^ 8 % 2 ^ 8 ∷ w % 2 ^ 8 ∷ [] in
      let small : p.apdu_size < 65536 = sane.word_size in
      let (done, next, text) = thrown_code_replies p e d other (omega arith) (omega arith) in
      let (up', idle', flags', size') = caught_reply e d in
      rw throws (
        done,
        up' ∙ up,
        idle' ∙ idle,
        flags' ∙ flags,
        next ∙ ap (λ n. n + 2) count,
        subst (λ n. take (n + 2) d'.apdu ≡ take n d.apdu ++ word) count text
            ∙ ap (λ l. l ++ word) front,
        size' ∙ size,
      )
  Yields→Conforms u (ask_address path answer) o d (done, up, flags, asks) =
      rw (done, catch_code) (refl, up, flags, asks)
  Yields→Conforms u (ask_sign path message) o d (done, up, flags, asks) =
      rw (done, catch_code) (refl, up, flags, asks)
