-- ===== src/Session/Reviews.antt =====
-- The states that commands and button presses can reach.
use mathlib.Core.Path.{subst}
use ledger_sovereign.Apdu.Frame.{Holds}
use ledger_sovereign.Base.{
  ℕ, ◌≡◌, ◌≢◌, ◌≤◌, true, false, none, some, List, [], ◌∷◌, ◌++◌, length, refl, arith,
}
use ledger_sovereign.Platform.{Platform, Keeps}
use ledger_sovereign.Tx.{flash_buffer_size, tx_get_buffer}
use ledger_sovereign.Tx.Parse.{Shows}
use ledger_sovereign.Device.{Review, Device, Moment}
use ledger_sovereign.Actions.{app_sign, app_reject, app_reply_address}
use ledger_sovereign.Codes.Path.{is_ours}
use ledger_sovereign.Session.{
  receive, Step, command, short_command, sign, show_address, reject, Reach, here, next,
}
use ledger_sovereign.Session.Safety.{IsSafe}
use ledger_sovereign.Session.Command.{handle_apdu-IsSafe, short_command_IsSafe}

-- A button press ends the review and touches neither the path nor the upload.
abbrev pub Ended : {B : Type 0} → Device B → Device B → Type 0
Ended d d' =
    (d'.tx_initialized ≡ d.tx_initialized)
    × (d'.hd_path ≡ d.hd_path)
    × (d'.txs ≡ d.txs)
    × (d'.review ≡ none)

module _ {B : Type 0} (p : Platform B) (now : Moment) (d : Device B) where
  pub sign_Ended : Ended d (app_sign p now d).1
  unfolding app_sign
  sign_Ended = ground arith

  pub reject_Ended : Ended d (app_reject p now d).1
  unfolding app_reject
  reject_Ended = ground arith

  pub reply_address_Ended : Ended d (app_reply_address p now d).1
  unfolding app_reply_address
  reply_address_Ended = ground arith

pub Ended→Safe :
    {B : Type 0} (p : Platform B) (d d' : Device B) → Ended d d' → IsSafe p d → IsSafe p d'
Ended→Safe p d d' (s0, s1, s2, s3) (path, bounded, _) = rw (s0, s1, s2, s3) (path, bounded, λ e. cc)

module _ {B : Type 0} (p : Platform B) (keeps : Keeps p.buffering) where
  Step-IsSafe : {d d' : Device B} → Step p d d' → IsSafe p d → IsSafe p d'
  Step-IsSafe {d} {d'} (command now class ins p1 p2 l payload rest idle short runs) safe =
      let bytes : List ℕ = class ∷ ins ∷ p1 ∷ p2 ∷ l ∷ payload ++ rest in
      let ready : IsSafe p (receive d bytes) = safe in
      let holds : Holds (receive d bytes) class ins p1 p2 l payload rest = record {
        frame = refl;
        short = short;
      } in
      subst (λ r. IsSafe p r.1) runs (handle_apdu-IsSafe p now keeps holds idle ready)
  Step-IsSafe {d} {d'} (short_command now rx class rest idle short runs) safe =
      let ready : IsSafe p (receive d (class ∷ rest)) = safe in
      subst (λ r. IsSafe p r.1) runs
        (short_command_IsSafe p now (receive d (class ∷ rest)) rx class rest refl short ready)
  Step-IsSafe {d} {d'} (sign now r e) safe =
      rw e (Ended→Safe p d (app_sign p now d).1 (sign_Ended p now d) safe)
  Step-IsSafe {d} {d'} (show_address now r e) safe =
      rw e (Ended→Safe p d (app_reply_address p now d).1 (reply_address_Ended p now d) safe)
  Step-IsSafe {d} {d'} (reject now s r e) safe =
      rw e (Ended→Safe p d (app_reject p now d).1 (reject_Ended p now d) safe)

  Reach-IsSafe : {start d : Device B} → Reach p start d → IsSafe p start → IsSafe p d
  Reach-IsSafe here safe = safe
  Reach-IsSafe (next before step) safe = Step-IsSafe step (Reach-IsSafe before safe)

  -- With a buffer that keeps whole appends up to its capacity, from a state with no upload and no
  -- review, whatever commands and button presses follow: while
  -- a transaction is under review, hdPath is a path of this application, the message in the buffer
  -- is not empty and fits the flash area, and the context from which the screen is drawn is over
  -- that very message.
  pub reviewed_is_signed :
      (start d : Device B)
      → start.tx_initialized ≡ false
      → start.review ≡ none
      → Reach p start d
      → d.review ≡ some Review.transaction
      → (is_ours d.hd_path ≡ true)
        × (tx_get_buffer p.buffering d.txs ≢ [])
        × (length (tx_get_buffer p.buffering d.txs) ≤ flash_buffer_size p.target)
        × Shows d.txs (tx_get_buffer p.buffering d.txs)
  reviewed_is_signed start d off idle reached reviewing =
      (Reach-IsSafe reached (λ e. cc, λ e. cc, λ e. cc)).2 reviewing
