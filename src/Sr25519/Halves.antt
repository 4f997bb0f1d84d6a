-- ===== src/Sr25519/Halves.antt =====
-- The second half of a signature: what phase 2 computes, and what a verifier recovers from it.
use ledger_sovereign.Base.{
  ℕ, ◌+◌, ◌-◌, ◌≤◌, ◌<◌, ◌≡◌, refl, false, le→ltb, sym, ap, ◌∙◌, some, List, [], ◌∷◌, ◌++◌, ltb,
  bit_or, length, take, get_or, arith, length-take,
}
use ledger_sovereign.Base.Memory.{copy_into}
use ledger_sovereign.Base.Bits.{bit_or_sign}
use ledger_sovereign.Base.Text.{codes}
use ledger_sovereign.Sr25519.{mult_with_secret, phase2_transcript, second_half}
use ledger_sovereign.Sr25519.Interfaces.{Crates, Points}
use ledger_sovereign.Sr25519.Buffers.{
  mark_top, replace_part, read_part, get_or-copy_into_one, copy_into_restores, copy_into_zeros,
}
use ledger_sovereign.Sr25519.Verifier.{verifier_transcript, challenge, recovered}
use ledger_sovereign.Sr25519.Laws.{IsGroup}

module _ {S T P : Type 0} (c : Crates S T) (g : Points S P) where
  module _ (laws : IsGroup c g) where
    -- The scalar of a signature and the second half, from the secret, the witness and the challenge.
    abbrev pub scalar : List ℕ → List ℕ → S → S
    scalar seed x e = c.add (c.mul (c.add c.zero_scalar e) (c.from_bits seed)) (c.from_bits x)

    abbrev pub half : List ℕ → List ℕ → S → List ℕ
    half seed x e =
        let s = scalar seed x e in
        copy_into (c.to_bytes s) 31 (bit_or (get_or (c.to_bytes s) 31 0) 128 ∷ [])

    pub second_half_lem :
        (sk pk context message r x rest : List ℕ)
        → 32 ≤ length sk
        → length r ≡ 32
        → length x ≡ 32
        → second_half c sk pk context message (r ++ (x ++ rest))
          ≡ r ++ (half (take 32 sk) x (challenge c g pk context message r) ++ rest)
    unfolding second_half phase2_transcript
    second_half_lem sk pk context message r x rest hk hr hx =
        let t = verifier_transcript c g pk context message r in
        let seed : List ℕ = take 32 sk in
        let s =
          c.add
            (c.mul (c.add c.zero_scalar (challenge c g pk context message r)) (c.from_bits seed))
            (c.from_bits x) in
        let bytes : List ℕ = c.to_bytes s in
        rw
          (
            second_half,
            read_part 0 32 [] r (x ++ rest) refl hr,
            read_part 32 32 r x rest hr hx,
            copy_into_zeros 32 x hx,
            copy_into_zeros 64 (c.challenge_bytes (codes "sign:c") 64 t).0
                (laws.challenge_size (codes "sign:c") 64 t),
            mult_with_secret,
            copy_into_zeros 32 seed (omega (arith, length-take 32 sk)),
            replace_part 32 r x rest bytes hr (laws.scalar_size s ∙ sym hx),
          )
          (mark_top r bytes rest hr (laws.scalar_size s))

    pub recovered-half :
        (seed context message r x : List ℕ)
        → length x ≡ 32
        → let key = g.base_mul (c.from_bits seed) in
          r ≡ g.compress (g.base_mul (c.from_bits x))
          → recovered c g key context message r
              (half seed x (challenge c g (g.compress key) context message r))
            ≡ some r
    recovered-half seed context message r x hx hr =
        let key = g.base_mul (c.from_bits seed) in
        let e = challenge c g (g.compress key) context message r in
        let k = c.mul (c.add c.zero_scalar e) (c.from_bits seed) in
        let s = c.add k (c.from_bits x) in
        let bytes : List ℕ = c.to_bytes s in
        let low : get_or bytes 31 0 < 128 = laws.reduced k (c.from_bits x) in
        let b : ℕ = get_or bytes 31 0 in
        let top : get_or (half seed x e) 31 0 ≡ b + 128 =
          get_or-copy_into_one 31 (bit_or b 128) bytes (omega (arith, laws.scalar_size s))
          ∙ bit_or_sign b low in
        let marked : ltb (get_or (half seed x e) 31 0) 128 ≡ false = le→ltb _ _ (omega arith) in
        let cleared : get_or (half seed x e) 31 0 - 128 ≡ b = omega arith in
        let restored : copy_into (half seed x e) 31 ((get_or (half seed x e) 31 0 - 128) ∷ [])
            ≡ bytes =
          ap (λ v. copy_into (half seed x e) 31 (v ∷ [])) cleared
          ∙ copy_into_restores 31 (bit_or b 128) bytes in
        let point : g.minus (g.base_mul s) (g.scale e key) ≡ g.base_mul (c.from_bits x) =
          ap (λ w. g.minus w (g.scale e key))
            (laws.sum k (c.from_bits x)
              ∙ ap (λ w. g.plus w (g.base_mul (c.from_bits x)))
                  (laws.product (c.add c.zero_scalar e) (c.from_bits seed) ∙ laws.zero_sum e key))
          ∙ laws.difference (g.scale e key) (g.base_mul (c.from_bits x)) in
        rw (marked, restored, laws.canonical k (c.from_bits x), point) (ap some (sym hr))
