-- ===== src/HostTests/Vectors/Hex.antt =====
-- toHexString, and a reader of hex digits to read its texts back.
use ledger_sovereign.Base.{
  ℕ, zero, suc, ◌+◌, ◌-◌, ◌*◌, ◌/◌, ◌%◌, ◌≤◌, ◌<◌, ◌≡◌, refl, ap, sym, ◌∙◌, ◌&&◌, Option, none,
  some, List, [], ◌∷◌, ◌++◌, arith, ltb, leb, if◌then◌else◌, lt→ltb, ltb→lt, Bool-cases, inl, inr,
  length, take, drop, length-take, get_or, append-nil, append_assoc, length-append,
}
use ledger_sovereign.Base.Bytes.{IsBytes, take-AllBelow}
use ledger_sovereign.HostTests.Vectors.{hex_digit, hex_number, set_width, hex_loop, to_hex_string}

-- The value of a digit, in lower case.
abbrev pub digit_value : ℕ → Option ℕ
digit_value d =
    if leb 48 d && ltb d 58
    then some (d - 48)
    else (if leb 97 d && ltb d 103 then some (d - 87) else none)

abbrev pub put_byte : Option ℕ → Option ℕ → Option (List ℕ) → Option (List ℕ)
put_byte (some high) (some low) (some rest) = some ((high * 16 + low) ∷ rest)
put_byte high low rest = none

-- The bytes of a text of two digits each.
abbrev pub from_hex : List ℕ → Option (List ℕ)
from_hex [] = some []
from_hex (high ∷ []) = none
from_hex (high ∷ low ∷ rest) = put_byte (digit_value high) (digit_value low) (from_hex rest)

digit_value-hex_digit : (d : ℕ) → d < 16 → digit_value (hex_digit d) ≡ some d
digit_value-hex_digit d h = ground arith

two_digits : (b : ℕ) → set_width 2 (hex_number b) ≡ hex_digit (b / 16) ∷ hex_digit (b % 16) ∷ []
two_digits b = elim (Bool-cases (ltb b 16)) [
  | inl small ↦
      let top : b / 16 ≡ 0 = omega (arith, ltb→lt b 16 small) in
      let low : b % 16 ≡ b = omega (arith, ltb→lt b 16 small) in rw (small, top, low) refl
  | inr large ↦ rw large refl
]

-- The bytes from the `i`th on, two digits each.
abbrev pub hex_of : List ℕ → List ℕ
hex_of [] = []
hex_of (b ∷ bytes) = set_width 2 (hex_number b) ++ hex_of bytes

from_hex-hex_of : (bytes : List ℕ) → IsBytes bytes → from_hex (hex_of bytes) ≡ some bytes
from_hex-hex_of [] h = refl
from_hex-hex_of (b ∷ bytes) (small, h) =
    let high = digit_value-hex_digit (b / 16) (omega arith) in
    let low = digit_value-hex_digit (b % 16) (omega arith) in
    let rest = from_hex-hex_of bytes h in
    let whole : b / 16 * 16 + b % 16 ≡ b = omega arith in
    ap (λ l. from_hex (l ++ hex_of bytes)) (two_digits b) ∙ rw (high, low, rest, whole) refl

length-hex_of : (bytes : List ℕ) → length (hex_of bytes) ≡ 2 * length bytes
length-hex_of [] = omega arith
length-hex_of (b ∷ bytes) = omega (
  arith,
  length-hex_of bytes,
  ap length (two_digits b),
  length-append (set_width 2 (hex_number b)) (hex_of bytes),
)

take-drop_next :
    (bytes : List ℕ) (n i : ℕ)
    → i < length bytes
    → take (suc n) (drop i bytes) ≡ get_or bytes i 0 ∷ take n (drop (i + 1) bytes)
take-drop_next [] n i h = absurd (omega arith)
take-drop_next (x ∷ bytes) n zero h = refl
take-drop_next (x ∷ bytes) n (suc i) h =
    let next : suc (i + 1) ≡ suc i + 1 = omega arith in
    take-drop_next bytes n i (omega arith)
    ∙ ap (λ k. get_or bytes i 0 ∷ take n (drop k (x ∷ bytes))) next

hex_loop_writes :
    (bytes : List ℕ) (rounds i : ℕ) (stream : List ℕ)
    → i + rounds ≤ length bytes
    → hex_loop bytes rounds i stream ≡ some (stream ++ hex_of (take rounds (drop i bytes)))
unfolding hex_loop
hex_loop_writes bytes zero i stream h = ap some (sym (append-nil stream))
hex_loop_writes bytes (suc rounds) i stream h =
    let here = take-drop_next bytes rounds i (omega arith) in
    let later =
      hex_loop_writes bytes rounds (i + 1) (stream ++ set_width 2 (hex_number (get_or bytes i 0)))
        (omega arith) in
    rw (lt→ltb i (length bytes) (omega arith), here, later) (ap some (append_assoc stream _ _))

-- toHexString of the first bytes at a pointer, as many as are there at least: a text of two
-- characters for each byte, from which a reader of lower case hex gets the bytes back.
pub to_hex_string_reads_back :
    (bytes : List ℕ) (size : ℕ)
    → IsBytes bytes
    → size ≤ length bytes
    → (text : List ℕ) × (to_hex_string bytes size ≡ some text)
      × (length text ≡ 2 * size)
      × (from_hex text ≡ some (take size bytes))
unfolding to_hex_string
to_hex_string_reads_back bytes size h inside = (
  hex_of (take size bytes),
  hex_loop_writes bytes size 0 [] (omega arith),
  omega (arith, length-hex_of (take size bytes), length-take size bytes),
  from_hex-hex_of (take size bytes) (take-AllBelow 256 size bytes h),
)
