-- ===== src/Sr25519/Verifier.antt =====
-- Verification of a Schnorr signature over ristretto255, as the schnorrkel crate documents it: what a
-- verifier puts into its transcript, the challenge that it draws, and the commitment that it
-- recovers. It uses the operations of the crates, and nothing of the code that signs.
use ledger_sovereign.Base.{ℕ, ◌-◌, Option, none, some, List, [], ◌∷◌, ltb, if◌then◌else◌, get_or}
use ledger_sovereign.Base.Memory.{copy_into}
use ledger_sovereign.Base.Text.{codes}
use ledger_sovereign.Sr25519.Interfaces.{Crates, Points}

module _ {S T P : Type 0} (c : Crates S T) (g : Points S P) where
  -- Labelled messages, put into a transcript in order.
  abbrev pub absorb : List (List ℕ × List ℕ) → T → T
  absorb [] t = t
  absorb ((label, bytes) ∷ messages) t = absorb messages (c.append_message label bytes t)

  -- The messages to which a signature is bound.
  abbrev pub bound_messages : List ℕ → List ℕ → List ℕ → List ℕ → List (List ℕ × List ℕ)
  bound_messages pk context message commitment =
      ([], context)
      ∷ (codes "sign-bytes", message)
      ∷ (codes "proto-name", codes "Schnorr-sig")
      ∷ (codes "sign:pk", pk)
      ∷ (codes "sign:R", commitment)
      ∷ []

  abbrev pub verifier_transcript : List ℕ → List ℕ → List ℕ → List ℕ → T
  verifier_transcript pk context message commitment =
      absorb (bound_messages pk context message commitment)
        (c.new_transcript (codes "SigningContext"))

  -- The challenge of a signature with the given commitment.
  abbrev pub challenge : List ℕ → List ℕ → List ℕ → List ℕ → S
  challenge pk context message commitment =
      c.from_bytes_mod_order_wide
        (c.challenge_bytes (codes "sign:c") 64
          (verifier_transcript pk context message commitment)).0

  -- The commitment that a verifier computes from the second half of a signature: none where the marker
  -- of a Schnorr signature is missing or the scalar is not canonical.
  abbrev pub recovered : P → List ℕ → List ℕ → List ℕ → List ℕ → Option (List ℕ)
  recovered key context message commitment half =
      let e = challenge (g.compress key) context message commitment in
      if ltb (get_or half 31 0) 128
      then none
      else (elim (g.from_canonical_bytes (copy_into half 31 ((get_or half 31 0 - 128) ∷ []))) [
        | none ↦ none
        | some s ↦ some (g.compress (g.minus (g.base_mul s) (g.scale e key)))
      ])

  -- The witness of a signer: bound to the same messages but the commitment, to the nonce seed of the key
  -- and to random bytes.
  abbrev pub drawn_witness : List ℕ → List ℕ → List ℕ → List ℕ → List ℕ → List ℕ
  drawn_witness seed random pk context message =
      let messages =
        ([], context)
        ∷ (codes "sign-bytes", message)
        ∷ (codes "proto-name", codes "Schnorr-sig")
        ∷ (codes "sign:pk", pk)
        ∷ (codes "nonce-bytes", seed)
        ∷ (codes "rng", random)
        ∷ [] in
      (c.challenge_bytes (codes "witness-bytes") 32
        (absorb messages (c.new_transcript (codes "SigningContext")))).0
