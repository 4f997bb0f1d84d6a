-- ===== src/Tests/Sr25519.antt =====
-- Signatures over the integers modulo 2, for which every law can be checked.
use ledger_sovereign.Base.{
  ℕ, ◌%◌, ◌≡◌, refl, Bool, true, false, not, ◌&&◌, some, List, [], ◌∷◌, ◌++◌, ◌==◌, if◌then◌else◌,
  length, get_or, replicate, length-replicate, arith,
}
use ledger_sovereign.Sr25519.{sign_sr25519}
use ledger_sovereign.Sr25519.Interfaces.{Crates, Points}
use ledger_sovereign.Sr25519.Laws.{IsGroup}
use ledger_sovereign.Sr25519.Verifier.{recovered, drawn_witness}
use ledger_sovereign.Sr25519.Verifies.{sign_sr25519_verifies}

abbrev xor : Bool → Bool → Bool
xor true b = not b
xor false b = b

abbrev bytes_of : Bool → List ℕ
bytes_of b = (if b then 1 else 0) ∷ replicate 31 0

-- A challenge depends on how much went into the transcript.
abbrev crates : Crates Bool (List ℕ)
crates = record {
  zero_scalar = false;
  from_bits = λ bytes. get_or bytes 0 0 % 2 == 1;
  from_bytes_mod_order_wide = λ bytes. get_or bytes 0 0 % 2 == 1;
  add = xor;
  mul = λ a b. a && b;
  to_bytes = bytes_of;
  new_transcript = λ label. label;
  append_message = λ label bytes t. t ++ label ++ bytes;
  challenge_bytes = λ label n t. (replicate n (length t), t ++ label);
  zeroize = λ t. [];
  from_ed25519_bytes = λ bytes. some bytes;
}

abbrev points : Points Bool Bool
points = record {
  base_mul = λ a. a;
  scale = λ a w. a && w;
  plus = xor;
  minus = xor;
  compress = bytes_of;
  from_canonical_bytes = λ bytes. some (get_or bytes 0 0 == 1);
}

cancel : (v w : Bool) → xor (xor v w) v ≡ w
cancel true true = refl
cancel true false = refl
cancel false true = refl
cancel false false = refl

read_back : (b : Bool) → (get_or (bytes_of b) 0 0 == 1) ≡ b
read_back true = refl
read_back false = refl

group : IsGroup crates points
group = record {
  sum = λ a b. refl;
  product = λ a b. refl;
  zero_sum = λ a w. refl;
  difference = cancel;
  canonical = λ a b. rw (read_back (xor a b)) refl;
  scalar_size = λ a. refl;
  reduced = λ a b. omega arith;
  point_size = λ w. refl;
  challenge_size = λ label n t. length-replicate n (length t);
}

-- A key with an odd scalar, a context of two bytes of which one is used, and a message of three.
sign_sr25519_verifies_example :
    (r s : List ℕ) × (sign_sr25519 crates points
        (λ n. replicate n 5)
        (replicate 64 3)
        (bytes_of true)
        (1 ∷ 2 ∷ [])
        1
        (65 ∷ 66 ∷ 67 ∷ [])
        3
        (replicate 66 9)
      ≡ some (r ++ (s ++ (9 ∷ 9 ∷ []))))
    × (length r ≡ 32)
    × (length s ≡ 32)
    × (recovered crates points true (1 ∷ []) (65 ∷ 66 ∷ 67 ∷ []) r s ≡ some r)
    × (r
        ≡ bytes_of (
            crates.from_bits (
              drawn_witness crates points
                (replicate 32 3)
                (replicate 32 5)
                (bytes_of true)
                (1 ∷ [])
                (65 ∷ 66 ∷ 67 ∷ []))))
sign_sr25519_verifies_example =
    sign_sr25519_verifies crates points group (λ n. replicate n 5) (replicate 64 3) (1 ∷ 2 ∷ [])
      (65 ∷ 66 ∷ 67 ∷ []) (replicate 66 9) 1 3 (omega arith) (omega arith) (omega arith)
      (omega arith)

-- The test's key, with another context and message.
abbrev expanded : List ℕ
expanded = (0 ∷ 1 ∷ 2 ∷ 3 ∷ 4 ∷ 5 ∷ 6 ∷ 7 ∷ []) ++ replicate 56 1
