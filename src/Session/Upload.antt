-- ===== src/Session/Upload.antt =====
-- An upload, command by command, from the host's first chunk to the reply with the signature.
use mathlib.Core.Path.{subst}
use ledger_sovereign.Base.{
  ℕ, ◌+◌, ◌-◌, ◌^◌, ◌≤◌, ◌<◌, ◌≡◌, ◌≢◌, refl, ap, sym, ◌∙◌, arith, false, Option, none, some, List,
  [], ◌∷◌, ◌++◌, length, ltb, le→ltb, length-append, append_assoc,
}
use ledger_sovereign.Codes.{cla, ins_sign}
use ledger_sovereign.Codes.Path.{path_payload}
use ledger_sovereign.Platform.{Platform}
use ledger_sovereign.Tx.{flash_buffer_size}
use ledger_sovereign.Crypto.Signing.{signature_of}
use ledger_sovereign.Device.{Device, Moment}
use ledger_sovereign.Apdu.Upload.{Upload, complete, chunk}
use ledger_sovereign.Apdu.Refine.{upload}
use ledger_sovereign.Protocol.{sign_answer}
use ledger_sovereign.Protocol.Laws.{IsSound, IsUsual}
use ledger_sovereign.Protocol.Machine.{
  Event, command, approve, State, waiting, asking_sign, settle, signed_reply, respond,
}
use ledger_sovereign.Protocol.Reply.{AsksSign}
use ledger_sovereign.Tx.Parse.{Shows}
use ledger_sovereign.Session.Safety.{IsSafe}
use ledger_sovereign.Session.Trace.{perform, perform_all, run_events}
use ledger_sovereign.Session.Host.{path_of, joined, AllShort, add_lem, last_lem, first_lem}
use ledger_sovereign.Session.Simulate.{Matches, Possible, Follows}
use ledger_sovereign.Session.Simulate.Behaviour.{event-Follows}

-- The commands that send a message in chunks: P1 is 1 for each chunk, and 2 for the last.
abbrev pub chunk_commands : Moment → List (List ℕ) → List ℕ → List Event
chunk_commands now [] last = command now cla ins_sign 2 0 (length last) last ∷ []
chunk_commands now (c ∷ chunks) last =
    command now cla ins_sign 1 0 (length c) c ∷ chunk_commands now chunks last

-- Before them, the command with the path of an account: P1 is 0.
abbrev pub upload_commands : Moment → ℕ → List (List ℕ) → List ℕ → List Event
upload_commands now account chunks last =
    command now cla ins_sign 0 0 12 (path_payload (path_of account))
    ∷ chunk_commands now chunks last

-- Every chunk is answered with 0x9000 at once, but the last: then the device waits for the user.
abbrev pub accepted : List (List ℕ) → List (Option (List ℕ))
accepted [] = none ∷ []
accepted (c ∷ chunks) = some (0x90 ∷ 0 ∷ []) ∷ accepted chunks

performed-append :
    {B : Type 0} (p : Platform B) (d : Device B) (events : List Event) (e : Event)
    → perform_all p d (events ++ e ∷ [])
      ≡ perform_all p d events ++ (perform p (run_events p d events) e).0 ∷ []
unfolding perform_all run_events
performed-append p d [] e = refl
performed-append p d (first ∷ events) e =
    ap (λ l. (perform p d first).0 ∷ l) (performed-append p (perform p d first).1 events e)

module _ {B : Type 0} (p : Platform B) (now : Moment) (sound : IsSound p) (usual : IsUsual p now)
    (unlocked : now.pin_check ≡ none) (header : p.apdu_min_length ≤ 5) where
  abbrev flash_room : ℕ
  flash_room = flash_buffer_size p.target

  respond-chunk :
      (u : Upload) (p1 l : ℕ) (payload : List ℕ)
      → respond p (waiting u) (command now cla ins_sign p1 0 l payload)
        ≡ settle (sign_answer (chunk flash_room u p1 payload))
  unfolding respond
  respond-chunk u p1 l payload =
      let long : ltb (5 + length payload) p.apdu_min_length ≡ false =
        le→ltb (5 + length payload) p.apdu_min_length (omega arith) in
      rw (long, unlocked) refl

  -- A step of the device, from one of the machine.
  follows :
      (d : Device B) (s : State) (e : Event) (v : Option (List ℕ) × State)
      → Matches p d s
      → Possible p e
      → respond p s e ≡ v
      → Follows p (perform p d e) v
  follows d s e v m h same =
      subst (λ v. Follows p (perform p d e) v) same (event-Follows p sound d s e m h)

  -- A completed message that is not empty is shown.
  settle_complete :
      (path message : List ℕ)
      → message ≢ []
      → settle (sign_answer (none, complete path message)) ≡ (none, asking_sign none path message)
  settle_complete path [] filled = absurd (filled refl)
  settle_complete path (b ∷ message) filled = refl

  send_chunks :
      (path : List ℕ) (chunks : List (List ℕ)) (last before : List ℕ) (d : Device B)
      → Matches p d (waiting (some (path, before)))
      → AllShort chunks
      → length last ≤ 255
      → length (before ++ joined chunks last) ≤ flash_buffer_size p.target
      → before ++ joined chunks last ≢ []
      → (perform_all p d (chunk_commands now chunks last) ≡ accepted chunks)
        × Matches p
            (run_events p d (chunk_commands now chunks last))
            (asking_sign none path (before ++ joined chunks last))
  unfolding perform_all run_events
  send_chunks path [] last before d m short brief bounded filled =
      let u : Upload = some (path, before) in
      let e : Event = command now cla ins_sign 2 0 (length last) last in
      let h =
        respond-chunk u 2 (length last) last
        ∙ ap (λ r. settle (sign_answer r))
            (last_lem flash_room path before last (omega (arith, length-append before last)))
        ∙ settle_complete path (before ++ last) filled in
      let (said, m') = follows d (waiting u) e _ m (brief, usual) h in (ap (λ r. r ∷ []) said, m')
  send_chunks path (c ∷ chunks) last before d m (small, short) brief bounded filled =
      let u : Upload = some (path, before) in
      let all : List ℕ = joined chunks last in
      let e : Event = command now cla ins_sign 1 0 (length c) c in
      let split : (before ++ c) ++ all ≡ before ++ (c ++ all) = append_assoc before c all in
      let count = length-append before (c ++ all) in
      let rest = length-append c all in
      let h =
        respond-chunk u 1 (length c) c
        ∙ ap (λ r. settle (sign_answer r)) (add_lem flash_room path before c (omega arith)) in
      let (said, m') = follows d (waiting u) e _ m (small, usual) h in
      let (others, asks) =
        send_chunks path chunks last (before ++ c) (perform p d e).1 m' short brief
          (rw split bounded) (λ e. filled (sym split ∙ e)) in
      (
        λ i. said i ∷ others i,
        subst
            (λ t.
              Matches p (run_events p (perform p d e).1 (chunk_commands now chunks last))
                (asking_sign none path t))
            split asks,
      )

  sent :
      (start : Device B) (account : ℕ) (chunks : List (List ℕ)) (last : List ℕ)
      → account < 2 ^ 32
      → start.review ≡ none
      → IsSafe p start
      → length start.apdu ≡ p.apdu_size
      → AllShort chunks
      → length last ≤ 255
      → length (joined chunks last) ≤ flash_buffer_size p.target
      → joined chunks last ≢ []
      → let events = upload_commands now account chunks last in
        (perform_all p start events ≡ some (0x90 ∷ 0 ∷ []) ∷ accepted chunks)
        × Matches p
            (run_events p start events)
            (asking_sign none (path_of account) (joined chunks last))
  unfolding perform_all run_events
  sent start account chunks last small idle safe size short brief bounded filled =
      let payload : List ℕ = path_payload (path_of account) in
      let u : Upload = upload p start in
      let e : Event = command now cla ins_sign 0 0 12 payload in
      let h =
        respond-chunk u 0 12 payload
        ∙ ap (λ r. settle (sign_answer r)) (first_lem flash_room u account small) in
      let (said, m) =
        follows start (waiting u) e _ ((safe, size, refl), idle) (omega arith, usual) h in
      let (others, asks) =
        send_chunks (path_of account) chunks last [] (perform p start e).1 m short brief bounded
          filled in
      (λ i. said i ∷ others i, asks)

  approved :
      (u : Upload) (path message s : List ℕ) (later : Moment)
      → signature_of p.cx path message (p.apdu_size - 3) ≡ some s
      → (respond p (asking_sign u path message) (approve later)).0 ≡ some (s ++ 0x90 ∷ 0 ∷ [])
  unfolding respond
  approved u path message s later signed = ap (λ o. some (signed_reply o)) signed

  -- With libraries that keep to their laws, an unlocked device and APDU_MIN_LENGTH at most the size of
  -- a header, to a device that is safe, waits for a command and has an APDU buffer of the build's
  -- size: a host sends the path of an account in a command with P1 0, then a message that is not
  -- empty and fits the flash area, in chunks of at most 255 bytes, each in a command with P1 1, and
  -- the last in a command with P1 2. Whatever upload was under way before, every command but the
  -- last is answered with 0x9000 and nothing else, the last is not answered, and after it the device
  -- asks the user about that very message, for the path of that account.
  pub upload_is_reviewed :
      (start : Device B) (account : ℕ) (chunks : List (List ℕ)) (last : List ℕ)
      → account < 2 ^ 32
      → start.review ≡ none
      → IsSafe p start
      → length start.apdu ≡ p.apdu_size
      → AllShort chunks
      → length last ≤ 255
      → length (joined chunks last) ≤ flash_buffer_size p.target
      → joined chunks last ≢ []
      → let events = upload_commands now account chunks last in
        (perform_all p start events ≡ some (0x90 ∷ 0 ∷ []) ∷ accepted chunks)
        × AsksSign p (path_of account) (joined chunks last) (run_events p start events)
  upload_is_reviewed start account chunks last small idle safe size short brief bounded filled =
      let (said, m) =
        sent start account chunks last small idle safe size short brief bounded filled in
      let ((safe', size', up), on, same_path, bytes) = m in
      let (ours, not_empty, fits, shows) = safe'.2 on in
      (
        said,
        (
          on,
          same_path,
          bytes,
          subst (λ t. Shows (run_events p start (upload_commands now account chunks last)).txs t)
              bytes shows,
          size',
        ),
      )

  -- With libraries that keep to their laws, an unlocked device and APDU_MIN_LENGTH at most the size of
  -- a header, to a device that is safe, waits for a command and has an APDU buffer of the build's
  -- size: a host sends the path of an account in a command with P1 0, then a message that is not
  -- empty and fits the flash area, in chunks of at most 255 bytes, each in a command with P1 1, and
  -- the last in a command with P1 2; and the user approves, at a moment with a whole key on the
  -- stack and no PIN check that throws a reset of the link. Where the library has a key for that
  -- path and a signature of that message that fits the reply, the replies are, in this order: 0x9000
  -- for every command but the last, none for the last, and for the approval that signature and
  -- 0x9000.
  pub upload_is_signed :
      (start : Device B) (account : ℕ) (chunks : List (List ℕ)) (last s : List ℕ) (later : Moment)
      → account < 2 ^ 32
      → start.review ≡ none
      → IsSafe p start
      → length start.apdu ≡ p.apdu_size
      → AllShort chunks
      → length last ≤ 255
      → length (joined chunks last) ≤ flash_buffer_size p.target
      → joined chunks last ≢ []
      → IsUsual p later
      → signature_of p.cx (path_of account) (joined chunks last) (p.apdu_size - 3) ≡ some s
      → perform_all p start (upload_commands now account chunks last ++ approve later ∷ [])
        ≡ (some (0x90 ∷ 0 ∷ []) ∷ accepted chunks) ++ some (s ++ 0x90 ∷ 0 ∷ []) ∷ []
  upload_is_signed start account chunks last s later small idle safe size short brief bounded filled
        usual_later signed =
      let events : List Event = upload_commands now account chunks last in
      let message : List ℕ = joined chunks last in
      let (said, m) =
        sent start account chunks last small idle safe size short brief bounded filled in
      let (reply, _) =
        event-Follows p sound (run_events p start events)
          (asking_sign none (path_of account) message) (approve later) m usual_later in
      let answered = reply ∙ approved none (path_of account) message s later signed in
      performed-append p start events (approve later) ∙ (λ i. said i ++ answered i ∷ [])
