-- ===== src/Base/Memory.antt =====
-- C memory as lists of bytes: what memcpy, memset, strlen and snprintf do to them.
-- A write past the end of the list writes the bytes that lie inside it; whether an access lies
-- inside is asked by `fits` or stated as a bound.
use ledger_sovereign.Base.{
  ℕ, zero, suc, ◌+◌, ◌-◌, ◌*◌, ◌≤◌, ◌≡◌, refl, ap, ◌∙◌, Bool, Option, List, [], ◌∷◌, ◌++◌, arith,
  leb, length, take, drop, replicate, length-append, length-take, append_assoc, ◌<◌,
}

-- A nullable pointer to bytes: `none` is NULL.
abbrev pub Pointer : Type 0
Pointer = Option (List ℕ)

-- memcpy(buffer + i, src, length src)
abbrev pub copy_into : List ℕ → ℕ → List ℕ → List ℕ
copy_into [] i src = []
copy_into (x ∷ xs) zero [] = x ∷ xs
copy_into (x ∷ xs) zero (y ∷ src) = y ∷ copy_into xs zero src
copy_into (x ∷ xs) (suc i) src = x ∷ copy_into xs i src

-- memset(buffer, 0, n)
abbrev pub memzero : List ℕ → ℕ → List ℕ
memzero buffer n = copy_into buffer 0 (replicate n 0)

-- The `n` bytes at `buffer + i`.
abbrev pub slice : List ℕ → ℕ → ℕ → List ℕ
slice buffer i n = take n (drop i buffer)

-- Whether `n` bytes at `buffer + i` lie inside the buffer.
abbrev pub fits : List ℕ → ℕ → ℕ → Bool
fits buffer i n = leb (i + n) (length buffer)

-- The bytes before the first NUL, which strlen counts.
abbrev pub c_string : List ℕ → List ℕ
c_string [] = []
c_string (zero ∷ xs) = []
c_string (suc c ∷ xs) = suc c ∷ c_string xs

-- snprintf(out, n, text) for a text with no conversion: at most n - 1 bytes of it, and a NUL.
abbrev pub print_text : List ℕ → ℕ → List ℕ → List ℕ
print_text out zero text = out
print_text out (suc n) text = copy_into out 0 (take n text ++ 0 ∷ [])

-- A uint32_t in memory is little-endian on the device's ARM core.
abbrev pub le32 : ℕ → ℕ → ℕ → ℕ → ℕ
le32 a b c d = a + b * 256 + c * 65536 + d * 16777216

-- The uint32_t array that a run of bytes holds.
abbrev pub words32 : List ℕ → List ℕ
words32 (a ∷ b ∷ c ∷ d ∷ rest) = le32 a b c d ∷ words32 rest
words32 other = []

pub length-copy_into :
    (xs : List ℕ) (i : ℕ) (src : List ℕ) → length (copy_into xs i src) ≡ length xs
length-copy_into [] i src = refl
length-copy_into (x ∷ xs) zero [] = refl
length-copy_into (x ∷ xs) zero (y ∷ src) = ap suc (length-copy_into xs zero src)
length-copy_into (x ∷ xs) (suc i) src = ap suc (length-copy_into xs i src)

pub copy_into_front :
    (xs src : List ℕ) → length src ≤ length xs → copy_into xs 0 src ≡ src ++ drop (length src) xs
copy_into_front [] [] h = refl
copy_into_front [] (y ∷ src) h = absurd (omega arith)
copy_into_front (x ∷ xs) [] h = refl
copy_into_front (x ∷ xs) (y ∷ src) h = ap (λ l. y ∷ l) (copy_into_front xs src (omega arith))

-- A write behind a prefix leaves the prefix alone.
pub copy_into_after :
    (front xs src : List ℕ)
    → length src ≤ length xs
    → copy_into (front ++ xs) (length front) src ≡ front ++ src ++ drop (length src) xs
copy_into_after [] xs src h = copy_into_front xs src h
copy_into_after (x ∷ front) xs src h = ap (λ l. x ∷ l) (copy_into_after front xs src h)

pub drop-all {ℓ} : {A : Type ℓ} (n : ℕ) (xs : List A) → length xs ≤ n → drop n xs ≡ []
drop-all zero [] h = refl
drop-all zero (x ∷ xs) h = absurd (omega arith)
drop-all (suc n) [] h = refl
drop-all (suc n) (x ∷ xs) h = drop-all n xs (omega arith)

-- Zeroing the whole buffer.
pub memzero_all : (xs : List ℕ) → memzero xs (length xs) ≡ replicate (length xs) 0
memzero_all [] = refl
memzero_all (x ∷ xs) = ap (λ l. 0 ∷ l) (memzero_all xs)

c_string-take :
    (n : ℕ) (text rest : List ℕ)
    → c_string text ≡ text
    → c_string (take n text ++ 0 ∷ rest) ≡ take n text
c_string-take zero text rest h = refl
c_string-take (suc n) [] rest h = refl
c_string-take (suc n) (zero ∷ text) rest h = cc
c_string-take (suc n) (suc c ∷ text) rest h =
    ap (λ l. suc c ∷ l) (c_string-take n text rest (ground arith))

-- What a reader of the buffer finds after snprintf: the text, cut to the room before the NUL.
pub c_string-print_text :
    (out : List ℕ) (n : ℕ) (text : List ℕ)
    → c_string text ≡ text
    → n < length out
    → c_string (print_text out (suc n) text) ≡ take n text
c_string-print_text out n text plain h =
    rw
      (
        copy_into_front out (take n text ++ 0 ∷ [])
            (omega (arith, length-append {0}, length-take {0})),
        append_assoc,
      )
      (c_string-take n text _ plain)

pub length-print_text :
    (out : List ℕ) (n : ℕ) (text : List ℕ) → length (print_text out n text) ≡ length out
length-print_text out zero text = refl
length-print_text out (suc n) text = length-copy_into out 0 (take n text ++ 0 ∷ [])

pub drop-replicate : (n m : ℕ) → drop {A = ℕ} n (replicate m 0) ≡ replicate (m - n) 0
drop-replicate zero m = let e : m ≡ m - 0 = omega arith in ap (λ k. replicate {A = ℕ} k 0) e
drop-replicate (suc n) zero =
    let e : 0 ≡ 0 - suc n = omega arith in ap (λ k. replicate {A = ℕ} k 0) e
drop-replicate (suc n) (suc m) =
    let e : m - n ≡ suc m - suc n = omega arith in
    drop-replicate n m ∙ ap (λ k. replicate {A = ℕ} k 0) e
