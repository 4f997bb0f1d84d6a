-- ===== src/Base/Text.antt =====
-- Text literals of the program as the bytes that a C compiler puts in memory.
use Prim.Native.Char.{code}
use Prim.Native.String.{String}
use ledger_sovereign.Base.{ℕ, List, [], ◌∷◌}

-- The bytes of an ASCII text, without its final NUL.
abbrev pub codes : String → List ℕ
codes String.[] = []
codes (String.◌∷◌ c s) = code c ∷ codes s
