-- ===== src/Session/Host.antt =====
-- The bytes that a host sends for an upload, as docs/APDUSPEC.md says: the path in a first chunk, then
-- the message in chunks of at most 255 bytes, the last one marked.
use ledger_sovereign.Base.{
  ℕ, ◌+◌, ◌^◌, ◌≤◌, ◌<◌, ◌≡◌, refl, arith, none, some, List, [], ◌∷◌, ◌++◌, length, le→leb,
}
use ledger_sovereign.Codes.Path.{path_payload, words32-path_payload}
use ledger_sovereign.Apdu.Upload.{Upload, more, complete, chunk}

-- A message in chunks.
abbrev pub joined : List (List ℕ) → List ℕ → List ℕ
joined [] last = last
joined (c ∷ chunks) last = c ++ joined chunks last

abbrev pub AllShort : List (List ℕ) → Type 0
AllShort [] = Unit {0}
AllShort (c ∷ chunks) = (length c ≤ 255) × AllShort chunks

-- The specification on the chunks that the host sends.
pub add_lem :
    (room : ℕ) (path before payload : List ℕ)
    → length before + length payload ≤ room
    → chunk room (some (path, before)) 1 payload ≡ (some (path, before ++ payload), more)
add_lem room path before payload h = rw (le→leb (length before + length payload) room h) refl

pub last_lem :
    (room : ℕ) (path before payload : List ℕ)
    → length before + length payload ≤ room
    → chunk room (some (path, before)) 2 payload ≡ (none, complete path (before ++ payload))
last_lem room path before payload h = rw (le→leb (length before + length payload) room h) refl

-- m/44'/1551'/account, each a 32-bit word.
abbrev pub path_of : ℕ → List ℕ
path_of account = (2 ^ 31 + 44) ∷ (2 ^ 31 + 1551) ∷ account ∷ []

pub first_lem :
    (room : ℕ) (u : Upload) (account : ℕ)
    → account < 2 ^ 32
    → chunk room u 0 (path_payload (path_of account)) ≡ (some (path_of account, []), more)
first_lem room u account h =
    rw (words32-path_payload (path_of account) (omega arith, (omega arith, (h, tt)))) refl
