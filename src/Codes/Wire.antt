-- ===== src/Codes/Wire.antt =====
-- How numbers and return codes stand in a reply.
use ledger_sovereign.Base.{
  ℕ, zero, suc, ◌+◌, ◌/◌, ◌%◌, ◌^◌, Bool, true, false, ◌||◌, List, [], ◌∷◌, ◌++◌, ◌==◌,
  if◌then◌else◌,
}

-- The lowest bytes of a number, as many as asked for, the highest first.
abbrev pub big_endian : ℕ → ℕ → List ℕ
big_endian zero n = []
big_endian (suc k) n = big_endian k (n / 256) ++ (n % 256) ∷ []

-- A code of the classes 0x6 and 0x9 is its own status word; any other becomes one of the class 0x6,
-- 0x6800 and its lowest eleven bits. A code has 16 bits.
abbrev pub status_of : ℕ → ℕ
status_of e = if e / 4096 == 6 || e / 4096 == 9 then e else 0x6800 + e % 2048

abbrev pub status : ℕ → ℕ
status e = status_of (e % 2 ^ 16)

-- A truth value in a byte.
abbrev pub flag_byte : Bool → ℕ
flag_byte true = 1
flag_byte false = 0
