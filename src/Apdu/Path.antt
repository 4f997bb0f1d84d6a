-- ===== src/Apdu/Path.antt =====
-- extractHDPath on the bytes of a path.
use ledger_sovereign.Base.{
  ℕ, ◌+◌, ◌^◌, ◌≡◌, ◌<◌, ◌∙◌, false, ◌&&◌, List, [], ◌∷◌, ◌++◌, arith, ltb, le→ltb, ◌==◌,
  if◌then◌else◌, length, take,
}
use ledger_sovereign.Base.Memory.{words32}
use ledger_sovereign.Codes.Code
use ledger_sovereign.Codes.Path.{path_payload, words32-path_payload}
use ledger_sovereign.Device.{Device, returned, thrown}
use ledger_sovereign.Apdu.{extract_hd_path}
use ledger_sovereign.Apdu.Frame.{Holds, extract_hd_path_lem}

-- The payload of a first chunk: three words, and what may come behind them.
abbrev words_and : (purpose coin account : ℕ) → List ℕ → List ℕ
words_and purpose coin account more = path_payload (purpose ∷ coin ∷ account ∷ []) ++ more

-- A command whose payload begins with three 32-bit words, the lowest byte of each first:
-- extractHDPath ends the upload and leaves the three words in hdPath. It returns when they are
-- m/44'/1551'/account, the first two hardened, and otherwise throws APDU_CODE_DATA_INVALID.
pub extract_hd_path_reads :
    {B : Type 0} {d : Device B} {class ins p1 p2 l : ℕ} {rest : List ℕ} (purpose coin account : ℕ)
    (more : List ℕ)
    → (holds : Holds d class ins p1 p2 l (words_and purpose coin account more) rest)
    → purpose < 2 ^ 32
    → coin < 2 ^ 32
    → account < 2 ^ 32
    → extract_hd_path (5 + length (words_and purpose coin account more)) 5 d ≡ (
      if purpose == 2 ^ 31 + 44 && coin == 2 ^ 31 + 1551
          then returned tt
          else thrown Code.data_invalid,
      record d { tx_initialized = false; hd_path = purpose ∷ coin ∷ account ∷ [] },
    )
extract_hd_path_reads purpose coin account more holds hp hc ha =
    let sent : List ℕ = words_and purpose coin account more in
    let words : words32 (take 12 sent) ≡ purpose ∷ coin ∷ account ∷ [] =
      words32-path_payload (purpose ∷ coin ∷ account ∷ []) (hp, (hc, (ha, tt))) in
    let long : ltb (length sent) 12 ≡ false = le→ltb (length sent) 12 (omega arith) in
    extract_hd_path_lem holds ∙ rw (long, words) (ground arith)
