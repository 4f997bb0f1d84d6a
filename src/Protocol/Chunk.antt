-- ===== src/Protocol/Chunk.antt =====
-- The specification of the upload: complete messages, refusals, and the state that stands for it.
use ledger_sovereign.Base.{
  ℕ, ◌≤◌, ◌<◌, ◌≡◌, ◌^◌, true, false, none, some, List, arith, inl, inr, Bool-cases,
}
use ledger_sovereign.Platform.{Platform, Target, nano_s, large}
use ledger_sovereign.Tx.{flash_buffer_size}
use ledger_sovereign.Device.{Device}
use ledger_sovereign.Codes.Path.{is_ours}
use ledger_sovereign.Apdu.Upload.{Upload, complete, refused, chunk}
use ledger_sovereign.Apdu.Refine.{Uploading, upload}

pub flash-lt : (t : Target) → flash_buffer_size t < 2 ^ 16
flash-lt nano_s = omega arith
flash-lt large = omega arith

pub le_trans_lt : {a b c : ℕ} → a ≤ b → b < c → a < c
le_trans_lt h k = omega arith

-- A complete message is for a path of this application.
pub complete_path :
    (room p1 : ℕ) (payload : List ℕ) (u : Upload) (path message : List ℕ)
    → ((q m : List ℕ) → u ≡ some (q, m) → is_ours q ≡ true)
    → (chunk room u p1 payload).1 ≡ complete path message
    → is_ours path ≡ true
complete_path room p1 payload none path message ours h = ground arith
complete_path room p1 payload (some (q, m)) path message ours h = ground (arith, ours q m)

-- Behind a complete message no upload is under way.
pub complete_over :
    (room p1 : ℕ) (payload : List ℕ) (u : Upload) (path message : List ℕ)
    → (chunk room u p1 payload).1 ≡ complete path message
    → (chunk room u p1 payload).0 ≡ none
complete_over room p1 payload none path message h = ground arith
complete_over room p1 payload (some (q, m)) path message h = ground arith

-- A chunk is refused with a code that is no reset of the link.
pub chunk_codes :
    (room : ℕ) (u : Upload) (p1 : ℕ) (payload : List ℕ) (e : ℕ)
    → (chunk room u p1 payload).1 ≡ refused e
    → 4096 ≤ e
chunk_codes room none p1 payload e h = ground arith
chunk_codes room (some (path, message)) p1 payload e h = ground arith

module _ {B : Type 0} (p : Platform B) where
  pub upload_over : (d : Device B) → upload p d ≡ none → d.tx_initialized ≡ false
  upload_over d h = ground arith

  pub upload_ours :
      (d : Device B) → Uploading p d → (q m : List ℕ) → upload p d ≡ some (q, m) → is_ours q ≡ true
  upload_ours d ready q m h = elim (Bool-cases d.tx_initialized) [
    | inl yes_ready ↦ ground (arith, ready.path yes_ready)
    | inr not_ready ↦ ground arith
  ]
