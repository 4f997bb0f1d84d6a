-- ===== src/Crypto/Values.antt =====
-- The numbers that bytes stand for, and what the loop of crypto_extractPublicKey does to them.
use native.Mathlib.Nat.{pow-suc}
use ledger_sovereign.Base.{
  ℕ, zero, suc, ◌+◌, ◌-◌, ◌*◌, ◌^◌, ◌≤◌, ◌<◌, ◌≡◌, refl, ap, ◌∙◌, sym, ap₂, append-nil,
  append_assoc, ◌≡⟨◌⟩◌, ◌∎, List, [], ◌∷◌, ◌++◌, arith, length, take, drop, get_or, length-drop,
}
use ledger_sovereign.Base.Memory.{copy_into, length-copy_into}
use ledger_sovereign.Crypto.{copy_y}

-- The numbers that bytes stand for, last byte first and first byte first.
abbrev pub le_value : List ℕ → ℕ
le_value [] = 0
le_value (x ∷ xs) = x + 256 * le_value xs

abbrev pub be_from : ℕ → List ℕ → ℕ
be_from acc [] = acc
be_from acc (x ∷ xs) = be_from (acc * 256 + x) xs

abbrev pub be_value : List ℕ → ℕ
be_value xs = be_from 0 xs

pub be_from-snoc :
    (acc : ℕ) (xs : List ℕ) (x : ℕ) → be_from acc (xs ++ x ∷ []) ≡ be_from acc xs * 256 + x
be_from-snoc acc [] x = refl
be_from-snoc acc (y ∷ xs) x = be_from-snoc (acc * 256 + y) xs x

pub take-snoc :
    (n : ℕ) (xs : List ℕ) → n < length xs → take (suc n) xs ≡ take n xs ++ get_or xs n 0 ∷ []
take-snoc n [] h = absurd (omega arith)
take-snoc zero (x ∷ xs) h = refl
take-snoc (suc n) (x ∷ xs) h = ap (λ l. x ∷ l) (take-snoc n xs (omega arith))

pub get_or-drop : (j n : ℕ) (xs : List ℕ) → get_or (drop j xs) n 0 ≡ get_or xs (j + n) 0
get_or-drop zero n xs = ap (λ k. get_or xs k 0) (omega arith)
get_or-drop (suc j) n [] = refl
get_or-drop (suc j) n (x ∷ xs) =
    let e : suc (j + n) ≡ suc j + n = omega arith in
    get_or-drop j n xs ∙ ap (λ k. get_or (x ∷ xs) k 0) e

-- `n` bytes of `w`, from index `k` downwards.
abbrev pub down : List ℕ → ℕ → ℕ → List ℕ
down w k zero = []
down w k (suc n) = get_or w k 0 ∷ down w (k - 1) n

-- Read downwards, bytes have as a little-endian number the value that they have as a big-endian
-- one read upwards.
pub le_value-down :
    (w : List ℕ) (n j : ℕ)
    → j + n ≤ length w
    → 0 < j
    → le_value (down w (j + n - 1) n) ≡ be_value (take n (drop j w))
le_value-down w zero j h hj = refl
le_value-down w (suc n) j h hj =
    let last : j + suc n - 1 ≡ j + n = omega arith in
    rw last (
      omega (
        arith,
        le_value-down w n j (omega arith) hj,
        ap be_value (take-snoc n (drop j w) (omega (arith, length-drop {0} j w))),
        be_from-snoc 0 (take n (drop j w)) (get_or (drop j w) n 0),
        get_or-drop j n w,
      ))

take-copy_into_one :
    (xs : List ℕ) (i v : ℕ)
    → i < length xs
    → take (suc i) (copy_into xs i (v ∷ [])) ≡ take i xs ++ v ∷ []
take-copy_into_one [] i v h = absurd (omega arith)
take-copy_into_one (x ∷ []) zero v h = refl
take-copy_into_one (x ∷ y ∷ xs) zero v h = refl
take-copy_into_one (x ∷ xs) (suc i) v h = ap (λ l. x ∷ l) (take-copy_into_one xs i v (omega arith))

-- The loop writes those bytes behind the ones that it has written.
pub take-copy_y :
    (w out : List ℕ) (n i : ℕ)
    → i + n ≤ length out
    → take (i + n) (copy_y w out n i) ≡ take i out ++ down w (64 - i) n
unfolding copy_y
take-copy_y w out zero i h =
    let e : i + 0 ≡ i = omega arith in ap (λ k. take k out) e ∙ sym (append-nil (take i out))
take-copy_y w out (suc n) i h =
    let next : i + suc n ≡ i + 1 + n = omega arith in
    let first : i + 1 ≡ suc i = omega arith in
    let below : 64 - (i + 1) ≡ 64 - i - 1 = omega arith in
    let out' = copy_into out i (get_or w (64 - i) 0 ∷ []) in
    take (i + suc n) (copy_y w out' n (i + 1))
    ≡⟨ ap (λ k. take k (copy_y w out' n (i + 1))) next ⟩ take (i + 1 + n) (copy_y w out' n (i + 1))
    ≡⟨ take-copy_y w out' n (i + 1)
        (omega (arith, length-copy_into out i (get_or w (64 - i) 0 ∷ []))) ⟩
      take (i + 1) out' ++ down w (64 - (i + 1)) n
    ≡⟨ ap₂ (λ k l. take k out' ++ down w l n) first below ⟩
      take (suc i) out' ++ down w (64 - i - 1) n
    ≡⟨ ap (λ l. l ++ down w (64 - i - 1) n)
        (take-copy_into_one out i (get_or w (64 - i) 0) (omega arith)) ⟩
      (take i out ++ get_or w (64 - i) 0 ∷ []) ++ down w (64 - i - 1) n
    ≡⟨ append_assoc (take i out) (get_or w (64 - i) 0 ∷ []) (down w (64 - i - 1) n) ⟩
      take i out ++ down w (64 - i) (suc n) ∎

-- Writing one byte changes the value by that byte's weight.
pub le_value-copy_into :
    (xs : List ℕ) (i v : ℕ)
    → i < length xs
    → le_value (copy_into xs i (v ∷ [])) + 256 ^ i * get_or xs i 0 ≡ le_value xs + 256 ^ i * v
le_value-copy_into [] i v h = absurd (omega arith)
le_value-copy_into (x ∷ []) zero v h = omega arith
le_value-copy_into (x ∷ y ∷ xs) zero v h = omega arith
le_value-copy_into (x ∷ xs) (suc i) v h =
    rw pow-suc (omega (arith, ap (λ t. 256 * t) (le_value-copy_into xs i v (omega arith))))
