-- ===== src/Session/Simulate/Keys.antt =====
-- What a session tells of the keys: two libraries with other keys and signatures, over the same
-- events.
use mathlib.Core.Option
use mathlib.Core.Path.{subst}
use ledger_sovereign.Base.{
  ℕ, ◌-◌, ◌≡◌, refl, sym, ap, ◌∙◌, false, none, some, List, [], ◌∷◌, length, take, replicate,
}
use ledger_sovereign.Base.Memory.{words32}
use ledger_sovereign.Platform.{Platform, Cx, WritesSizes}
use ledger_sovereign.Tx.{tx_get_buffer}
use ledger_sovereign.Crypto.Signing.{point_of, signature_of}
use ledger_sovereign.Crypto.Encoded.{encoded_point}
use ledger_sovereign.Codes.{hrp}
use ledger_sovereign.Device.{Review, Device, Moment}
use ledger_sovereign.Protocol.{address_of, address_text}
use ledger_sovereign.Protocol.Laws.{IsSound, IsUsual}
use ledger_sovereign.Protocol.Machine.{
  Event, command, fragment, approve, reject, State, waiting, asking_address, asking_sign, respond,
  signed_reply,
}
use ledger_sovereign.Session.Trace.{perform, perform_all}
use ledger_sovereign.Session.Simulate.{Matches, Possible}
use ledger_sovereign.Session.Simulate.Behaviour.{AllPossible, start-Matches, event-Follows}

module _ {B : Type 0} (p : Platform B) (other : Cx) where
  -- The same platform with another library for keys and signatures.
  abbrev pub rekeyed : Platform B
  rekeyed = record p { cx = other }

  -- Both libraries have the same signature of a message for a path, or both none.
  abbrev SameSigned : List ℕ → List ℕ → Type 0
  SameSigned path message =
      signature_of p.cx path message (p.apdu_size - 3)
      ≡ signature_of other path message (p.apdu_size - 3)

  -- Where the event approves a transaction under review, both libraries have the same signature.
  abbrev pub SameSignature : Device B → Event → Type 0
  SameSignature d (approve now) =
      d.review ≡ some Review.transaction → SameSigned d.hd_path (tx_get_buffer p.buffering d.txs)
  SameSignature d e = Unit {0}

  abbrev pub AllSameSignatures : Device B → List Event → Type 0
  AllSameSignatures d [] = Unit {0}
  AllSameSignatures d (e ∷ events) = SameSignature d e × AllSameSignatures (perform p d e).1 events

  -- The libraries have the same public points and the same hash, and private keys of one size.
  pub record AgreeInPublic : Type 0 where
    pub points : (path : List ℕ) → point_of p.cx path ≡ point_of other path
    pub hashes : (input : List ℕ) → p.sha256 input ≡ other.sha256 input
    pub key_size : p.private_key_size ≡ other.private_key_size

  module _ (sound : IsSound p) (sizes : WritesSizes other) (agree : AgreeInPublic) where
    rekeyed-IsSound : IsSound rekeyed
    rekeyed-IsSound = record {
      sane = sound.sane;
      sizes = sizes;
      texts = sound.texts;
      keeps = sound.keeps;
    }

    rekeyed-IsUsual : (now : Moment) → IsUsual p now → IsUsual rekeyed now
    rekeyed-IsUsual now usual = record {
      stack_size = usual.stack_size ∙ agree.key_size;
      no_reset = usual.no_reset;
    }

    rekeyed-Possible : (e : Event) → Possible p e → Possible rekeyed e
    rekeyed-Possible (command now class ins p1 p2 l payload) (short, usual) =
        (short, rekeyed-IsUsual now usual)
    rekeyed-Possible (fragment now class rest) (short, usual) = (short, rekeyed-IsUsual now usual)
    rekeyed-Possible (approve now) usual = rekeyed-IsUsual now usual
    rekeyed-Possible (reject now) usual = rekeyed-IsUsual now usual

    same_address : (path : List ℕ) → address_of p path ≡ address_of rekeyed path
    same_address path = λ i. Option.bind (agree.points path i) (λ w.
        address_text (encoded_point w)
          (p.bech32m_encode (replicate 66 0) 66 hrp (agree.hashes (encoded_point w) i) 28 1))

    same_response :
        (d : Device B) (s : State) (e : Event)
        → Matches p d s
        → SameSignature d e
        → respond p s e ≡ respond rekeyed s e
    unfolding respond
    same_response d (waiting u) (command now class ins p1 p2 l payload) m h =
        rw (same_address (words32 (take 12 payload))) refl
    same_response d (asking_sign u path message) (approve now) (_, asked, is_path, is_message) h =
        let same : SameSigned d.hd_path (tx_get_buffer p.buffering d.txs) = h asked in
        let same' = subst (λ m. SameSigned d.hd_path m) is_message same in
        ap (λ s. (some (signed_reply s), waiting u))
          (subst (λ k. SameSigned k message) is_path same')
    same_response d (waiting u) (fragment now class rest) m h = refl
    same_response d (waiting u) (approve now) m h = refl
    same_response d (waiting u) (reject now) m h = refl
    same_response d (asking_address u shown) (command now class ins p1 p2 l payload) m h = refl
    same_response d (asking_address u shown) (fragment now class rest) m h = refl
    same_response d (asking_address u shown) (approve now) m h = refl
    same_response d (asking_address u shown) (reject now) m h = refl
    same_response d (asking_sign u path message) (command now class ins p1 p2 l payload) m h = refl
    same_response d (asking_sign u path message) (fragment now class rest) m h = refl
    same_response d (asking_sign u path message) (reject now) m h = refl

    all_same :
        (events : List Event) (d d' : Device B) (s : State)
        → Matches p d s
        → Matches rekeyed d' s
        → AllPossible p events
        → AllSameSignatures d events
        → perform_all p d events ≡ perform_all rekeyed d' events
    unfolding perform_all
    all_same [] d d' s m m' h u = refl
    all_same (e ∷ events) d d' s m m' (one, others) (approved, later) =
        let (same, n) = event-Follows p sound d s e m one in
        let (same', n') =
          event-Follows rekeyed rekeyed-IsSound d' s e m' (rekeyed-Possible e one) in
        let agree = same_response d s e m approved in
        let first : (perform p d e).0 ≡ (perform rekeyed d' e).0 =
          same ∙ ap (λ r. r.0) agree ∙ sym same' in
        let n'' =
          subst (λ s'. Matches rekeyed (perform rekeyed d' e).1 s') (sym (ap (λ r. r.1) agree))
            n' in
        let rest =
          all_same events (perform p d e).1 (perform rekeyed d' e).1 (respond p s e).1 n n'' others
            later in
        λ i. first i ∷ rest i

    -- The replies tell of the keys the public points and the signatures of approved messages alone. Two
    -- devices are alike but for their libraries, which keep to their laws and have the same public
    -- point for each path, the same hash and private keys of one size. The device has no upload, no
    -- review and an APDU buffer of the build's size. Over the same events, commands of one to four bytes,
    -- or of a header and at most 255 bytes of payload, and button presses, each at a moment with a whole
    -- key on the stack and no PIN check that throws a reset of the link, such that for each approval of a
    -- transaction under review both libraries have the same signature of its message, or both none, both
    -- send the same replies.
    pub replies_hide_keys :
        (start : Device B) (events : List Event)
        → start.tx_initialized ≡ false
        → start.review ≡ none
        → length start.apdu ≡ p.apdu_size
        → AllPossible p events
        → AllSameSignatures start events
        → perform_all p start events ≡ perform_all rekeyed start events
    replies_hide_keys start events off idle size h approved =
        all_same events start start (waiting none) (start-Matches p start off idle size)
          (start-Matches rekeyed start off idle size) h approved
