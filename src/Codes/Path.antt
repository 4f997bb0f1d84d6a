-- ===== src/Codes/Path.antt =====
-- The derivation paths that docs/APDUSPEC.md allows, m/44'/1551'/account with a bit for a hardened
-- index, and a path as the bytes of its words.
use ledger_sovereign.Base.{
  ℕ, ◌+◌, ◌*◌, ◌/◌, ◌%◌, ◌^◌, ◌<◌, ◌≡◌, refl, Bool, false, List, [], ◌∷◌, arith, ◌==◌,
  if◌then◌else◌,
}
use ledger_sovereign.Base.Memory.{words32}

abbrev pub is_ours : List ℕ → Bool
is_ours (purpose ∷ coin ∷ rest) = if purpose == 2 ^ 31 + 44 then coin == 2 ^ 31 + 1551 else false
is_ours path = false

-- Four bytes of a word, the lowest first.
abbrev word_bytes : ℕ → List ℕ → List ℕ
word_bytes w rest = (w % 256) ∷ (w / 256 % 256) ∷ (w / 65536 % 256) ∷ (w / 16777216 % 256) ∷ rest

abbrev pub path_payload : List ℕ → List ℕ
path_payload [] = []
path_payload (w ∷ path) = word_bytes w (path_payload path)

abbrev pub Words : List ℕ → Type 0
Words [] = Unit {0}
Words (w ∷ path) = (w < 2 ^ 32) × Words path

pub words32-path_payload : (path : List ℕ) → Words path → words32 (path_payload path) ≡ path
words32-path_payload [] h = refl
words32-path_payload (w ∷ path) (small, h) =
    let word : w % 256
          + w / 256 % 256 * 256
          + w / 65536 % 256 * 65536
          + w / 16777216 % 256 * 16777216
        ≡ w =
      omega arith in
    rw (word, words32-path_payload path h) refl
