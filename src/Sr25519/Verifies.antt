-- ===== src/Sr25519/Verifies.antt =====
-- Both phases, and the verification of Schnorr signatures.
use ledger_sovereign.Base.{
  take_long, ℕ, ◌≤◌, ◌≡◌, refl, sym, ap, ◌∙◌, some, List, [], ◌∷◌, ◌++◌, length, take, drop,
  replicate, le→leb, arith, length-append, length-take,
}
use ledger_sovereign.Base.Memory.{length-copy_into, slice}
use ledger_sovereign.Base.Text.{codes}
use ledger_sovereign.Sr25519.{
  fill_bytes, from_raw_parts, phase1_transcript, get_witness_bytes_custom, sign_sr25519_phase1,
  sign_sr25519_phase2, ristretto_scalarmult, sign_sr25519,
}
use ledger_sovereign.Sr25519.Interfaces.{Crates, Points}
use ledger_sovereign.Sr25519.Buffers.{replace_part, read_part, copy_into_zeros, take-take, halves}
use ledger_sovereign.Sr25519.Laws.{IsGroup}
use ledger_sovereign.Sr25519.Halves.{scalar, half, second_half_lem, recovered-half}
use ledger_sovereign.Sr25519.Verifier.{challenge, recovered, drawn_witness}

module _ {S T P : Type 0} (c : Crates S T) (g : Points S P) (laws : IsGroup c g) where
  reads :
      (memory : List ℕ) (n : ℕ) → n ≤ length memory → from_raw_parts memory n ≡ some (take n memory)
  reads memory n h = rw (le→leb n (length memory) h) refl

  -- The witness of phase 1.
  abbrev witness : (ℕ → List ℕ) → List ℕ → List ℕ → List ℕ → List ℕ → List ℕ
  witness cx_rng sk pk context message =
      (get_witness_bytes_custom c cx_rng (phase1_transcript c pk context message)
        (slice sk 32 32 ∷ [])).0

  length-witness :
      (cx_rng : ℕ → List ℕ) (sk pk context message : List ℕ)
      → length (witness cx_rng sk pk context message) ≡ 32
  unfolding get_witness_bytes_custom
  length-witness cx_rng sk pk context message = length-copy_into (replicate 32 0) 0 _

  witness_drawn :
      (cx_rng : ℕ → List ℕ) (sk pk context message : List ℕ)
      → witness cx_rng sk pk context message
        ≡ drawn_witness c g (slice sk 32 32) (fill_bytes cx_rng 32) pk context message
  unfolding get_witness_bytes_custom phase1_transcript
  witness_drawn cx_rng sk pk context message =
      copy_into_zeros 32
        (drawn_witness c g (slice sk 32 32) (fill_bytes cx_rng 32) pk context message)
        (laws.challenge_size (codes "witness-bytes") 32 _)

  module _ (sk pk context msg : List ℕ) (n m : ℕ) (hk : 64 ≤ length sk) (hp : 32 ≤ length pk)
      (hc : n ≤ length context) (hm : m ≤ length msg) where
    phase1_lem :
        (cx_rng : ℕ → List ℕ) (a b rest : List ℕ)
        → length a ≡ 32
        → length b ≡ 32
        → sign_sr25519_phase1 c cx_rng sk pk context n msg m (a ++ (b ++ rest))
          ≡ some (
              a ++ (witness cx_rng (take 64 sk) (take 32 pk) (take n context) (take m msg) ++ rest))
    unfolding sign_sr25519_phase1
    phase1_lem cx_rng a b rest ha hb =
        rw
          (
            reads sk 64 hk,
            reads pk 32 hp,
            reads context n hc,
            reads msg m hm,
            reads (a ++ (b ++ rest)) 64
                (omega (arith, length-append a (b ++ rest), length-append b rest)),
          )
          (ap some (
            replace_part 32 a b rest
              (witness cx_rng (take 64 sk) (take 32 pk) (take n context) (take m msg)) ha
              (length-witness cx_rng (take 64 sk) (take 32 pk) (take n context) (take m msg)
                ∙ sym hb)))

    phase2_lem :
        (r x rest : List ℕ)
        → length r ≡ 32
        → length x ≡ 32
        → sign_sr25519_phase2 c sk pk context n msg m (r ++ (x ++ rest))
          ≡ some (
              r
              ++ (half c g laws
                    (take 32 sk)
                    x
                    (challenge c g (take 32 pk) (take n context) (take m msg) r)
                  ++ rest))
    unfolding sign_sr25519_phase2
    phase2_lem r x rest hr hx =
        rw
          (
            reads sk 64 hk,
            reads pk 32 hp,
            reads context n hc,
            reads msg m hm,
            reads (r ++ (x ++ rest)) 64
                (omega (arith, length-append r (x ++ rest), length-append x rest)),
            second_half_lem c g laws (take 64 sk) (take 32 pk) (take n context) (take m msg) r x
                rest (omega (arith, length-take 64 sk)) hr hx,
            take-take 32 64 sk (omega arith),
          )
          refl

  -- With crates of the documented behaviour and memory of the sizes that the functions read: the two
  -- phases over a key's 64 bytes, with the commitment put in between, fill the first 64 bytes of the
  -- buffer, and no others, with a signature of the message in the context that verifies for the
  -- key's public point: the commitment that a verifier computes from its second half, over the context,
  -- the message, the public key and the first half, is the first half. The commitment is that of a
  -- witness drawn from the context, the message, the public key, the nonce seed of the key and random
  -- bytes.
  pub sign_sr25519_verifies :
      (cx_rng : ℕ → List ℕ) (sk context msg sig : List ℕ) (context_len msg_len : ℕ)
      → 64 ≤ length sk
      → context_len ≤ length context
      → msg_len ≤ length msg
      → 64 ≤ length sig
      → let key = g.base_mul (c.from_bits (take 32 sk)) in
        (r s : List ℕ) × (sign_sr25519 c g cx_rng sk
            (g.compress key)
            context
            context_len
            msg
            msg_len
            sig
          ≡ some (r ++ (s ++ drop 64 sig)))
        × (length r ≡ 32)
        × (length s ≡ 32)
        × (recovered c g key (take context_len context) (take msg_len msg) r s ≡ some r)
        × (r
            ≡ g.compress (
                g.base_mul (
                  c.from_bits (
                    drawn_witness c g
                      (slice (take 64 sk) 32 32)
                      (fill_bytes cx_rng 32)
                      (g.compress key)
                      (take context_len context)
                      (take msg_len msg)))))
  unfolding sign_sr25519
  sign_sr25519_verifies cx_rng sk context msg sig context_len msg_len hk hc hm hs =
      let key = g.base_mul (c.from_bits (take 32 sk)) in
      let pk : List ℕ = g.compress key in
      let size : length pk ≡ 32 = laws.point_size key in
      let whole_key : take 32 pk ≡ pk = take_long 32 pk (omega arith) in
      let some_context : List ℕ = take context_len context in
      let message : List ℕ = take msg_len msg in
      let x : List ℕ = witness cx_rng (take 64 sk) (take 32 pk) some_context message in
      let hx : length x ≡ 32 =
        length-witness cx_rng (take 64 sk) (take 32 pk) some_context message in
      let r : List ℕ = g.compress (g.base_mul (c.from_bits x)) in
      let hr : length r ≡ 32 = laws.point_size (g.base_mul (c.from_bits x)) in
      let e = challenge c g pk some_context message r in
      let (a, b, split, ha, hb) = halves sig hs in
      let rest : List ℕ = drop 64 sig in
      let first =
        ap (λ l. sign_sr25519_phase1 c cx_rng sk pk context context_len msg msg_len l) split
        ∙ phase1_lem sk pk context msg context_len msg_len hk (omega arith) hc hm cx_rng a b rest ha
            hb in
      let second =
        phase2_lem sk pk context msg context_len msg_len hk (omega arith) hc hm r x rest hr hx in
      let commitment : ristretto_scalarmult c g x ≡ r =
        rw (ristretto_scalarmult, take_long 32 x (omega arith), copy_into_zeros 32 x hx) refl in
      (
        r,
        half c g laws (take 32 sk) x e,
        rw
            (
              first,
              read_part 32 32 a x rest ha hx,
              commitment,
              replace_part 0 [] a (x ++ rest) r refl (hr ∙ sym ha),
              second,
              whole_key,
            )
            refl,
        hr,
        length-copy_into (c.to_bytes (scalar c g laws (take 32 sk) x e)) 31 _
            ∙ laws.scalar_size (scalar c g laws (take 32 sk) x e),
        recovered-half c g laws (take 32 sk) some_context message r x hx refl,
        ap (λ l. g.compress (g.base_mul (c.from_bits l)))
            (witness_drawn cx_rng (take 64 sk) (take 32 pk) some_context message
              ∙ ap
                  (λ l.
                    drawn_witness c g (slice (take 64 sk) 32 32) (fill_bytes cx_rng 32) l
                      some_context message)
                  whole_key),
      )
