-- ===== src/Sr25519/Buffers.antt =====
-- Buffers in parts: what a write into a part, or a read of one, does.
use mathlib.Core.Path.{subst}
use ledger_sovereign.Base.{
  ℕ, zero, suc, ◌+◌, ◌≤◌, ◌≡◌, refl, sym, ap, ap₂, ◌∙◌, List, [], ◌∷◌, ◌++◌, length, take, drop,
  get_or, replicate, ◌<◌, bit_or, length-append, length-take, length-drop, append_assoc,
  take-append_exact, arith,
}
use ledger_sovereign.Base.Memory.{drop-all, copy_into, slice, copy_into_after}

drop-append_exact : (xs ys : List ℕ) → drop (length xs) (xs ++ ys) ≡ ys
drop-append_exact [] ys = refl
drop-append_exact (x ∷ xs) ys = drop-append_exact xs ys

-- A part that is overwritten by as many bytes.
pub replace_part :
    (n : ℕ) (front part back new : List ℕ)
    → length front ≡ n
    → length new ≡ length part
    → copy_into (front ++ (part ++ back)) n new ≡ front ++ (new ++ back)
replace_part n front part back new h same =
    let fill =
      copy_into_after front (part ++ back) new (omega (arith, same, length-append part back)) in
    let rest : drop (length new) (part ++ back) ≡ back =
      ap (λ k. drop k (part ++ back)) same ∙ drop-append_exact part back in
    subst (λ k. copy_into (front ++ (part ++ back)) k new ≡ front ++ (new ++ back)) h
      (fill
        ∙ append_assoc front new (drop (length new) (part ++ back))
        ∙ ap (λ l. front ++ (new ++ l)) rest)

-- A part that is read.
pub read_part :
    (n m : ℕ) (front part back : List ℕ)
    → length front ≡ n
    → length part ≡ m
    → slice (front ++ (part ++ back)) n m ≡ part
read_part n m front part back h size =
    let behind : drop n (front ++ (part ++ back)) ≡ part ++ back =
      ap (λ k. drop k (front ++ (part ++ back))) (sym h) ∙ drop-append_exact front (part ++ back) in
    ap₂ take (sym size) behind ∙ take-append_exact part back

-- Whole and in parts.
pub take-take : (m n : ℕ) (xs : List ℕ) → m ≤ n → take m (take n xs) ≡ take m xs
take-take zero n xs h = refl
take-take (suc m) zero xs h = absurd (omega arith)
take-take (suc m) (suc n) [] h = refl
take-take (suc m) (suc n) (x ∷ xs) h = ap (λ l. x ∷ l) (take-take m n xs (omega arith))

-- An array of as many zeros takes all bytes.
pub copy_into_zeros : (n : ℕ) (xs : List ℕ) → length xs ≡ n → copy_into (replicate n 0) 0 xs ≡ xs
copy_into_zeros zero [] h = refl
copy_into_zeros zero (x ∷ xs) h = absurd (omega arith)
copy_into_zeros (suc n) [] h = absurd (omega arith)
copy_into_zeros (suc n) (x ∷ xs) h = ap (λ l. x ∷ l) (copy_into_zeros n xs (omega arith))

-- One byte of a part, by its place in the part.
pub get_or-behind :
    (n k : ℕ) (front xs : List ℕ)
    → length front ≡ n
    → get_or (front ++ xs) (n + k) 0 ≡ get_or xs k 0
get_or-behind zero k [] xs h = let e : 0 + k ≡ k = omega arith in ap (λ i. get_or xs i 0) e
get_or-behind zero k (x ∷ front) xs h = absurd (omega arith)
get_or-behind (suc n) k [] xs h = absurd (omega arith)
get_or-behind (suc n) k (x ∷ front) xs h =
    let e : suc n + k ≡ suc (n + k) = omega arith in
    ap (λ i. get_or (x ∷ (front ++ xs)) i 0) e ∙ get_or-behind n k front xs (omega arith)

pub get_or-within :
    (k : ℕ) (xs back : List ℕ) → k < length xs → get_or (xs ++ back) k 0 ≡ get_or xs k 0
get_or-within k [] back h = absurd (omega arith)
get_or-within zero (x ∷ xs) back h = refl
get_or-within (suc k) (x ∷ xs) back h = get_or-within k xs back (omega arith)

pub copy_into-behind :
    (n k : ℕ) (front xs new : List ℕ)
    → length front ≡ n
    → copy_into (front ++ xs) (n + k) new ≡ front ++ copy_into xs k new
copy_into-behind zero k [] xs new h =
    let e : 0 + k ≡ k = omega arith in ap (λ i. copy_into xs i new) e
copy_into-behind zero k (x ∷ front) xs new h = absurd (omega arith)
copy_into-behind (suc n) k [] xs new h = absurd (omega arith)
copy_into-behind (suc n) k (x ∷ front) xs new h =
    let e : suc n + k ≡ suc (n + k) = omega arith in
    ap (λ i. copy_into (x ∷ (front ++ xs)) i new) e
    ∙ ap (λ l. x ∷ l) (copy_into-behind n k front xs new (omega arith))

pub copy_into-within :
    (k v : ℕ) (xs back : List ℕ)
    → k < length xs
    → copy_into (xs ++ back) k (v ∷ []) ≡ copy_into xs k (v ∷ []) ++ back
copy_into-within k v [] back h = absurd (omega arith)
copy_into-within zero v (x ∷ []) [] h = refl
copy_into-within zero v (x ∷ []) (y ∷ back) h = refl
copy_into-within zero v (x ∷ x' ∷ xs) back h = refl
copy_into-within (suc k) v (x ∷ xs) back h =
    ap (λ l. x ∷ l) (copy_into-within k v xs back (omega arith))

-- One byte that is written.
pub get_or-copy_into_one :
    (k v : ℕ) (xs : List ℕ) → k < length xs → get_or (copy_into xs k (v ∷ [])) k 0 ≡ v
get_or-copy_into_one k v [] h = absurd (omega arith)
get_or-copy_into_one zero v (x ∷ xs) h = refl
get_or-copy_into_one (suc k) v (x ∷ xs) h = get_or-copy_into_one k v xs (omega arith)

-- Writing over it what was there restores the bytes.
pub copy_into_restores :
    (k v : ℕ) (xs : List ℕ) → copy_into (copy_into xs k (v ∷ [])) k (get_or xs k 0 ∷ []) ≡ xs
copy_into_restores k v [] = refl
copy_into_restores zero v (x ∷ []) = refl
copy_into_restores zero v (x ∷ y ∷ xs) = refl
copy_into_restores (suc k) v (x ∷ xs) = ap (λ l. x ∷ l) (copy_into_restores k v xs)

split_at : (n : ℕ) (xs : List ℕ) → xs ≡ take n xs ++ drop n xs
split_at zero xs = refl
split_at (suc n) [] = refl
split_at (suc n) (x ∷ xs) = ap (λ l. x ∷ l) (split_at n xs)

drop-drop : (m n : ℕ) (xs : List ℕ) → drop n (drop m xs) ≡ drop (m + n) xs
drop-drop zero n xs = let e : n ≡ 0 + n = omega arith in ap (λ k. drop k xs) e
drop-drop (suc m) n [] =
    drop-all n [] (omega arith) ∙ sym (drop-all {A = ℕ} (suc m + n) [] (omega arith))
drop-drop (suc m) n (x ∷ xs) =
    let e : suc (m + n) ≡ suc m + n = omega arith in drop-drop m n xs ∙ ap (λ k. drop k (x ∷ xs)) e

-- A buffer of at least 64 bytes is two halves and what is behind them.
pub halves :
    (xs : List ℕ)
    → 64 ≤ length xs
    → (a b : List ℕ) × (xs ≡ a ++ (b ++ drop 64 xs)) × (length a ≡ 32) × (length b ≡ 32)
halves xs h = (
  take 32 xs,
  take 32 (drop 32 xs),
  split_at 32 xs
      ∙ ap (λ l. take 32 xs ++ l)
          (split_at 32 (drop 32 xs) ∙ ap (λ l. take 32 (drop 32 xs) ++ l) (drop-drop 32 32 xs)),
  omega (arith, length-take 32 xs),
  omega (arith, length-take 32 (drop 32 xs), length-drop 32 xs),
)

-- The top bit of the last of the 32 bytes behind the first 32.
pub mark_top :
    (front bytes rest : List ℕ)
    → length front ≡ 32
    → length bytes ≡ 32
    → let all = front ++ (bytes ++ rest) in
      copy_into all 63 (bit_or (get_or all 63 0) 128 ∷ [])
      ≡ front ++ (copy_into bytes 31 (bit_or (get_or bytes 31 0) 128 ∷ []) ++ rest)
mark_top front bytes rest h hb =
    let v = bit_or (get_or bytes 31 0) 128 in
    let byte =
      get_or-behind 32 31 front (bytes ++ rest) h ∙ get_or-within 31 bytes rest (omega arith) in
    ap (λ b. copy_into (front ++ (bytes ++ rest)) 63 (bit_or b 128 ∷ [])) byte
    ∙ copy_into-behind 32 31 front (bytes ++ rest) (v ∷ []) h
    ∙ ap (λ l. front ++ l) (copy_into-within 31 v bytes rest (omega arith))
