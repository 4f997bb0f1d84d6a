-- ===== src/Apdu/Refine.antt =====
-- process_chunk, beside the upload of `Apdu.Upload`.
use mathlib.Core.Path.{subst}
use ledger_sovereign.Base.{
  ℕ, ◌+◌, ◌≤◌, ◌<◌, ◌≡◌, ◌≢◌, refl, ap, ◌∙◌, sym, Bool, true, false, none, some, List, [], ◌++◌,
  arith, ltb, leb, ◌==◌, ==_iff, if◌then◌else◌, length, take, leb→le, leb→lt, length-append,
  Bool-cases, inl, inr,
}
use ledger_sovereign.Base.Memory.{words32}
use ledger_sovereign.Codes.Code
use ledger_sovereign.Platform.{Platform, Keeps}
use ledger_sovereign.Tx.{flash_buffer_size, tx_initialize, tx_reset, tx_append, tx_get_buffer}
use ledger_sovereign.Device.{Device, Outcome, returned, thrown}
use ledger_sovereign.Codes.Path.{is_ours}
use ledger_sovereign.Apdu.{chunk_init, chunk_add, chunk_last, process_chunk}
use ledger_sovereign.Apdu.Frame.{Holds}
use ledger_sovereign.Apdu.Upload.{Upload, Answer, more, complete, refused, begin, extend, chunk}
use ledger_sovereign.Apdu.Chunks.{
  cleared, appended, added, chunk_init_lem, chunk_add_refused, chunk_add_lem, chunk_last_refused,
  chunk_last_lem, process_chunk_lem,
}

-- The upload that the state of the device stands for.
abbrev pub upload : {B : Type 0} → Platform B → Device B → Upload
upload p d = if d.tx_initialized then some (d.hd_path, tx_get_buffer p.buffering d.txs) else none

-- The outcome of process_chunk, and the state behind it, for each answer.
abbrev pub Answers : {B : Type 0} → Platform B → Answer → Outcome Bool → Device B → Type 0
Answers p more o d = o ≡ returned false
Answers p (complete path message) o d =
    (o ≡ returned true)
    × (d.hd_path ≡ path)
    × (tx_get_buffer p.buffering d.txs ≡ message)
    × (length message ≤ flash_buffer_size p.target)
Answers p (refused e) o d = o ≡ thrown e

-- While an upload is under way, the path is one of this application, and the buffer is bounded by
-- the flash area and holds no more than that.
pub record Uploading {B : Type 0} (p : Platform B) (d : Device B) : Type 0 where
  pub path : d.tx_initialized ≡ true → is_ours d.hd_path ≡ true
  pub bounded : d.tx_initialized ≡ true → p.capacity d.txs.buffer ≡ flash_buffer_size p.target

-- What a run of process_chunk owes to the upload's step.
abbrev pub Refines : {B : Type 0} → Platform B → Upload × Answer → Outcome Bool × Device B → Type 0
Refines p (u, a) (o, d) = (upload p d ≡ u) × Answers p a o d × Uploading p d

-- With no upload under way nothing is asked.
idle : {B : Type 0} {p : Platform B} {d : Device B} → d.tx_initialized ≡ false → Uploading p d
idle h = record { path = λ e. cc; bounded = λ e. cc }

not_equal : {a b : ℕ} → a ≢ b → (a == b) ≡ false
not_equal h = ground arith

module _ {B : Type 0} (p : Platform B) (keeps : Keeps p.buffering) {d : Device B}
    {class ins p1 p2 l : ℕ} {payload rest : List ℕ} (holds : Holds d class ins p1 p2 l payload rest)
    (ready : Uploading p d) where
  cleared_empty : tx_get_buffer p.buffering (cleared p holds) ≡ []
  unfolding tx_reset tx_initialize
  cleared_empty = keeps.reset_empty _

  cleared_capacity : p.capacity (cleared p holds).buffer ≡ flash_buffer_size p.target
  unfolding tx_reset tx_initialize
  cleared_capacity = keeps.reset_capacity _ ∙ keeps.init_capacity _ _ _

  init-Refines : Refines p (begin payload) (chunk_init p (5 + length payload) d)
  init-Refines = rw (chunk_init_lem p holds) (elim (Bool-cases (ltb (length payload) 12)) [
    | inl small ↦ rw small (refl, refl, idle refl)
    | inr large ↦ rw large (elim (Bool-cases (is_ours (words32 (take 12 payload)))) [
      | inl ours ↦ rw ours (
        ap (λ m. some (words32 (take 12 payload), m)) cleared_empty,
        refl,
        record { path = λ _. ours; bounded = λ _. cleared_capacity },
      )
      | inr foreign ↦ rw foreign (refl, refl, idle refl)
    ])
  ])

  -- The two cases of an append, with an upload under way.
  fits_all :
      length (tx_get_buffer p.buffering d.txs) + length payload ≤ p.capacity d.txs.buffer
      → (added p holds ≡ length payload)
        × (tx_get_buffer p.buffering (appended p holds)
            ≡ tx_get_buffer p.buffering d.txs ++ payload)
  unfolding tx_append
  fits_all h = keeps.append_fits payload d.txs.buffer h

  too_many :
      p.capacity d.txs.buffer < length (tx_get_buffer p.buffering d.txs) + length payload
      → (added p holds == length payload) ≡ false
  unfolding tx_append
  too_many h = not_equal (keeps.append_full payload d.txs.buffer h)

  same_capacity : p.capacity (appended p holds).buffer ≡ p.capacity d.txs.buffer
  unfolding tx_append
  same_capacity = keeps.append_capacity payload d.txs.buffer

  -- The message so far, and whether the payload fits behind it.
  abbrev message : List ℕ
  message = tx_get_buffer p.buffering d.txs

  abbrev fitting : Bool
  fitting = leb (length message + length payload) (flash_buffer_size p.target)

  added_all :
      d.tx_initialized ≡ true
      → fitting ≡ true
      → ((added p holds == length payload) ≡ true)
        × (tx_get_buffer p.buffering (appended p holds) ≡ message ++ payload)
  added_all h room =
      let (count, bytes) =
        fits_all (rw (ready.bounded h) (leb→le (length message + length payload) _ room)) in
      ((==_iff _ _).1 count, bytes)

  added_some : d.tx_initialized ≡ true → fitting ≡ false → (added p holds == length payload) ≡ false
  added_some h full =
      too_many (rw (ready.bounded h) (leb→lt (length message + length payload) _ full))

  add-Refines :
      d.tx_initialized ≡ true
      → Refines p
          (extend (flash_buffer_size p.target) false (some (d.hd_path, message)) payload)
          (chunk_add p (5 + length payload) d)
  add-Refines h = rw (chunk_add_lem p holds h) (elim (Bool-cases fitting) [
    | inl room ↦
        let (count, bytes) = added_all h room in
        rw (room, count)
          (
            simp h (ap (λ m. some (d.hd_path, m)) bytes),
            refl,
            record { path = ready.path; bounded = λ e. same_capacity ∙ ready.bounded e },
          )
    | inr full ↦ rw (full, added_some h full) (refl, refl, idle refl)
  ])

  last-Refines :
      d.tx_initialized ≡ true
      → Refines p
          (extend (flash_buffer_size p.target) true (some (d.hd_path, message)) payload)
          (chunk_last p (5 + length payload) d)
  last-Refines h = rw (chunk_last_lem p holds h) (elim (Bool-cases fitting) [
    | inl room ↦
        let (count, bytes) = added_all h room in
        let small = leb→le (length message + length payload) _ room in
        rw (room, count)
          (
            refl,
            (refl, refl, bytes, omega (arith, small, length-append message payload)),
            idle refl,
          )
    | inr full ↦ rw (full, added_some h full) (refl, refl, idle refl)
  ])

  upload-some : d.tx_initialized ≡ true → upload p d ≡ some (d.hd_path, message)
  upload-some h = simp h

  upload-none : d.tx_initialized ≡ false → upload p d ≡ none
  upload-none h = simp h

  -- A chunk that adds to the message, with and without an upload under way.
  either-Refines :
      (last : Bool) (run : Outcome Bool × Device B)
      → (d.tx_initialized ≡ false → run ≡ (thrown Code.tx_not_initialized, d))
      → (d.tx_initialized ≡ true
          → Refines p
              (extend (flash_buffer_size p.target) last (some (d.hd_path, message)) payload)
              run)
      → Refines p (extend (flash_buffer_size p.target) last (upload p d) payload) run
  either-Refines last run stopped runs = elim (Bool-cases d.tx_initialized) [
    | inl yes_ready ↦
        subst (λ u. Refines p (extend (flash_buffer_size p.target) last u payload) run)
          (sym (upload-some yes_ready)) (runs yes_ready)
    | inr not_ready ↦
        subst (λ u. Refines p (extend (flash_buffer_size p.target) last u payload) run)
          (sym (upload-none not_ready))
          (rw (stopped not_ready) (upload-none not_ready, refl, ready))
  ]

  -- With a buffer that keeps whole appends up to its capacity, on a received command with at most
  -- 255 bytes of payload, and with any upload under way for a path of this application into the flash
  -- area: process_chunk does to the upload what the specification says for its P1 and payload. It
  -- answers alike, stands for the next upload afterwards, and an upload that is then under way is
  -- again for such a path and area; a complete message is in the buffer, its path in hdPath, and
  -- fits the flash area.
  pub process_chunk-Refines :
      Refines p
        (chunk (flash_buffer_size p.target) (upload p d) p1 payload)
        (process_chunk p (5 + length payload) d)
  process_chunk-Refines = rw (process_chunk_lem p holds) (elim (Bool-cases (p1 == 0)) [
    | inl init ↦ rw init init-Refines
    | inr not_init ↦ rw not_init (elim (Bool-cases (p1 == 1)) [
      | inl add ↦ rw add (
          either-Refines false (chunk_add p (5 + length payload) d) (chunk_add_refused p holds)
            add-Refines)
      | inr not_add ↦ rw not_add (elim (Bool-cases (p1 == 2)) [
        | inl last ↦ rw last (
            either-Refines true (chunk_last p (5 + length payload) d) (chunk_last_refused p holds)
              last-Refines)
        | inr unknown ↦ rw unknown (refl, refl, ready)
      ])
    ])
  ])
