-- ===== src/Session/Simulate/Consent.antt =====
-- What a session without the approval of a message sends, for two libraries that sign differently.
use ledger_sovereign.Base.{ℕ, ◌≡◌, ◌≢◌, refl, false, none, some, List, [], ◌∷◌, length, Option}
use ledger_sovereign.Platform.{Platform, WritesSizes}
use ledger_sovereign.Device.{Review, Device}
use ledger_sovereign.Protocol.Laws.{IsSound}
use ledger_sovereign.Protocol.Machine.{Event, command, fragment, approve, reject}
use ledger_sovereign.Session.Trace.{perform, perform_all}
use ledger_sovereign.Session.Simulate.Keys.{
  AgreeInPublic, SameSignature, AllSameSignatures, replies_hide_keys,
}
use ledger_sovereign.Session.Simulate.Behaviour.{AllPossible}

-- The event is no approval of a message under review.
abbrev Unapproved : {B : Type 0} → Device B → Event → Type 0
Unapproved d (approve now) = d.review ≢ some Review.transaction
Unapproved d e = Unit {0}

abbrev pub AllUnapproved : {B : Type 0} → Platform B → Device B → List Event → Type 0
AllUnapproved p d [] = Unit {0}
AllUnapproved p d (e ∷ events) = Unapproved d e × AllUnapproved p (perform p d e).1 events

module _ {B : Type 0} (p : Platform B) (sign : List ℕ → List ℕ → ℕ → Option (List ℕ)) where
  -- The same platform with another library for signatures.
  abbrev pub resigned : Platform B
  resigned = record p { cx = record p.cx { eddsa_sign = sign } }

  module _ (sound : IsSound p)
      (signs : (key message : List ℕ) (room : ℕ) (s : List ℕ)
        → sign key message room ≡ some s
        → length s ≡ 64) where
    resigned_sizes : WritesSizes resigned.cx
    resigned_sizes = record {
      derived = sound.sizes.derived;
      key = sound.sizes.key;
      point = sound.sizes.point;
      signature = signs;
      digest = sound.sizes.digest;
    }

    agree : AgreeInPublic p resigned.cx
    agree = record { points = λ path. refl; hashes = λ input. refl; key_size = refl }

    Unapproved-agree : (d : Device B) (e : Event) → Unapproved d e → SameSignature p resigned.cx d e
    Unapproved-agree d (command now class ins p1 p2 l payload) h = tt
    Unapproved-agree d (fragment now class rest) h = tt
    Unapproved-agree d (approve now) h = λ asked. absurd (h asked)
    Unapproved-agree d (reject now) h = tt

    AllUnapproved-agree :
        (d : Device B) (events : List Event)
        → AllUnapproved p d events
        → AllSameSignatures p resigned.cx d events
    AllUnapproved-agree d [] h = tt
    AllUnapproved-agree d (e ∷ events) (first, later) =
        (Unapproved-agree d e first, AllUnapproved-agree (perform p d e).1 events later)

    -- No signature leaves the device without the user's approval of the message. Two devices are
    -- alike but for what their libraries sign; both libraries keep to their laws. The device has no
    -- upload, no review and an APDU buffer of the build's size. Over the same events, commands of one to
    -- four bytes, or of a header and at most 255 bytes of payload, and button presses, each at a moment
    -- with a whole key on the stack and no PIN check that throws a reset of the link, and none of them
    -- the approval of a transaction that is under review, both send the same replies.
    pub no_signature_unapproved :
        (start : Device B) (events : List Event)
        → start.tx_initialized ≡ false
        → start.review ≡ none
        → length start.apdu ≡ p.apdu_size
        → AllPossible p events
        → AllUnapproved p start events
        → perform_all p start events ≡ perform_all resigned start events
    no_signature_unapproved start events off idle size h unapproved =
        replies_hide_keys p resigned.cx sound resigned_sizes agree start events off idle size h
          (AllUnapproved-agree start events unapproved)
