-- ===== src/Base/Bits.antt =====
-- The masks that the program uses, as arithmetic: each is checked for every value of its word.
use ledger_sovereign.Base.{
  ℕ, zero, suc, ◌+◌, ◌*◌, ◌/◌, ◌<◌, bit_and, bit_or, ◌≡◌, refl, Bool, true, ◌&&◌, ◌⊎◌, inl, inr,
  arith, ◌==◌, ==_iff,
}

-- Whether `p` holds of every number whose digits above the lowest `k` bits are those of `b`. The
-- halving keeps the evaluation shallow.
every : ℕ → ℕ → (ℕ → Bool) → Bool
every zero b p = p b
every (suc k) b p = every k (b * 2) p && every k (b * 2 + 1) p

-- The number without its lowest `k` bits.
abbrev halve : ℕ → ℕ → ℕ
halve zero x = x
halve (suc k) x = halve k x / 2

every_sound : (k b x : ℕ) (p : ℕ → Bool) → every k b p ≡ true → halve k x ≡ b → p x ≡ true
unfolding every
every_sound zero b x p h e = rw e h
every_sound (suc k) b x p h e = elim (two_cases (halve k x) b e) [
  | inl even ↦ every_sound k (b * 2) x p (ground arith) even
  | inr odd ↦ every_sound k (b * 2 + 1) x p (ground arith) odd
]
  where
    two_cases : (n b : ℕ) → n / 2 ≡ b → (n ≡ b * 2) ⊎ (n ≡ b * 2 + 1)
    two_cases n b e = omega arith

top_table : every 16 0 (λ x. bit_and x 0xF000 == x / 4096 * 4096) ≡ true
unfolding every
top_table = refl

-- A uint16_t under the mask 0xF000 keeps its top digit.
pub bit_and_top : (e : ℕ) → e < 65536 → bit_and e 0xF000 ≡ e / 4096 * 4096
bit_and_top e h = (==_iff _ _).0 (every_sound 16 0 e _ top_table (omega arith))

status_table : every 11 0 (λ x. bit_or 0x6800 x == x + 0x6800) ≡ true
unfolding every
status_table = refl

-- The low eleven bits are free in 0x6800.
pub bit_or_status : (x : ℕ) → x < 2048 → bit_or 0x6800 x ≡ x + 0x6800
bit_or_status x h = (==_iff _ _).0 (every_sound 11 0 x _ status_table (omega arith))

sign_table : every 7 0 (λ x. bit_or x 0x80 == x + 0x80) ≡ true
unfolding every
sign_table = refl

-- Setting the top bit of a byte in which it is clear.
pub bit_or_sign : (x : ℕ) → x < 128 → bit_or x 0x80 ≡ x + 0x80
bit_or_sign x h = (==_iff _ _).0 (every_sound 7 0 x _ sign_table (omega arith))
