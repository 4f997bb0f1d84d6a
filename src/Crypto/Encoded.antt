-- ===== src/Crypto/Encoded.antt =====
-- The 32 bytes that crypto_extractPublicKey leaves for a point, in buffers of any size.
use ledger_sovereign.Base.{
  ℕ, zero, suc, ◌+◌, ◌-◌, ◌≤◌, ◌≡◌, refl, ap, ◌∙◌, List, [], ◌∷◌, ◌++◌, arith, bit_or, length,
  get_or, replicate, replicate-add,
}
use ledger_sovereign.Base.Memory.{copy_into, length-copy_into}
use ledger_sovereign.Crypto.{copy_y, mark_sign}
use ledger_sovereign.Crypto.Point.{get_or-append}

copy_into-nil : (xs : List ℕ) → copy_into xs 0 [] ≡ xs
copy_into-nil [] = refl
copy_into-nil (x ∷ xs) = refl

copy_into-append :
    (front rest : List ℕ) (i : ℕ) (src : List ℕ)
    → i + length src ≤ length front
    → copy_into (front ++ rest) i src ≡ copy_into front i src ++ rest
copy_into-append [] rest zero [] h = copy_into-nil rest
copy_into-append [] rest (suc i) [] h = absurd (omega arith)
copy_into-append [] rest i (y ∷ src) h = absurd (omega arith)
copy_into-append (x ∷ front) rest zero [] h = refl
copy_into-append (x ∷ front) rest zero (y ∷ src) h =
    ap (λ l. y ∷ l) (copy_into-append front rest zero src (omega arith))
copy_into-append (x ∷ front) rest (suc i) src h =
    ap (λ l. x ∷ l) (copy_into-append front rest i src (omega arith))

length-copy_y : (w out : List ℕ) (n i : ℕ) → length (copy_y w out n i) ≡ length out
unfolding copy_y
length-copy_y w out zero i = refl
length-copy_y w out (suc n) i =
    length-copy_y w (copy_into out i (get_or w (64 - i) 0 ∷ [])) n (i + 1)
    ∙ length-copy_into out i (get_or w (64 - i) 0 ∷ [])

copy_y-append :
    (w front rest : List ℕ) (n i : ℕ)
    → i + n ≤ length front
    → copy_y w (front ++ rest) n i ≡ copy_y w front n i ++ rest
unfolding copy_y
copy_y-append w front rest zero i h = refl
copy_y-append w front rest (suc n) i h =
    let byte = get_or w (64 - i) 0 ∷ [] in
    ap (λ l. copy_y w l n (i + 1)) (copy_into-append front rest i byte (omega arith))
    ∙ copy_y-append w (copy_into front i byte) rest n (i + 1)
        (omega (arith, length-copy_into front i byte))

-- The 32 bytes that crypto_extractPublicKey writes for a point.
abbrev pub encoded_point : List ℕ → List ℕ
encoded_point w = mark_sign w (copy_y w (replicate 32 0) 32 0)

length-mark_sign : (w out : List ℕ) → length (mark_sign w out) ≡ length out
unfolding mark_sign
length-mark_sign w out =
    ground (arith, length-copy_into out 31 (bit_or (get_or out 31 0) 0x80 ∷ []))

mark_sign-append :
    (w front rest : List ℕ)
    → length front ≡ 32
    → mark_sign w (front ++ rest) ≡ mark_sign w front ++ rest
unfolding mark_sign
mark_sign-append w front rest h = ground (
  arith,
  get_or-append front rest 31,
  copy_into-append front rest 31 (bit_or (get_or front 31 0) 0x80 ∷ []),
)

pub length-encoded_point : (w : List ℕ) → length (encoded_point w) ≡ 32
length-encoded_point w =
    length-mark_sign w (copy_y w (replicate 32 0) 32 0) ∙ length-copy_y w (replicate 32 0) 32 0

-- In a larger zeroed buffer the same bytes stand in front.
pub encoded_in_buffer :
    (w : List ℕ) (n : ℕ)
    → 32 ≤ n
    → mark_sign w (copy_y w (replicate n 0) 32 0) ≡ encoded_point w ++ replicate (n - 32) 0
encoded_in_buffer w n h =
    let sum : n ≡ 32 + (n - 32) = omega arith in
    ap (λ k. mark_sign w (copy_y w (replicate k 0) 32 0)) sum
    ∙ ap (λ l. mark_sign w (copy_y w l 32 0)) (replicate-add 32 (n - 32) 0)
    ∙ ap (mark_sign w) (copy_y-append w (replicate 32 0) (replicate (n - 32) 0) 32 0 (omega arith))
    ∙ mark_sign-append w (copy_y w (replicate 32 0) 32 0) (replicate (n - 32) 0)
        (length-copy_y w (replicate 32 0) 32 0)
