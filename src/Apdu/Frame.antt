-- ===== src/Apdu/Frame.antt =====
-- A command in the APDU buffer: its header, its payload, and what an earlier command left behind.
use ledger_sovereign.Base.{
  ℕ, zero, suc, ◌+◌, ◌≤◌, ◌≡◌, refl, ap, true, false, not, List, [], ◌∷◌, ◌++◌, arith, ltb, le→leb,
  length, take, length-append, take-append_exact, if◌then◌else◌, Bool-cases, inl, inr,
}
use ledger_sovereign.Base.Memory.{fits, slice, words32}
use ledger_sovereign.Codes.Code
use ledger_sovereign.Codes.Path.{is_ours}
use ledger_sovereign.Platform.{Platform}
use ledger_sovereign.Tx.{tx_append}
use ledger_sovereign.Device.{Device, Outcome, returned, thrown, throw_if, sub32}
use ledger_sovereign.Device.Rules.{throw_if-true, throw_if-false, read_bytes_lem}
use ledger_sovereign.Apdu.{is_mainnet, extract_hd_path, append_payload}

-- The device has received a command of `5 + length payload` bytes.
pub record Holds {B : Type 0} (d : Device B) (class ins p1 p2 l : ℕ) (payload rest : List ℕ)
    : Type 0 where
  pub frame : d.apdu ≡ class ∷ ins ∷ p1 ∷ p2 ∷ l ∷ payload ++ rest
  pub short : length payload ≤ 255

fits_payload :
    (class ins p1 p2 l n : ℕ) (payload rest : List ℕ)
    → n ≤ length payload
    → fits (class ∷ ins ∷ p1 ∷ p2 ∷ l ∷ payload ++ rest) 5 n ≡ true
fits_payload class ins p1 p2 l n payload rest h =
    le→leb _ _ (omega (arith, length-append payload rest))

take-append_short : (n : ℕ) (xs ys : List ℕ) → n ≤ length xs → take n (xs ++ ys) ≡ take n xs
take-append_short zero xs ys h = refl
take-append_short (suc n) [] ys h = absurd (omega arith)
take-append_short (suc n) (x ∷ xs) ys h = ap (λ l. x ∷ l) (take-append_short n xs ys (omega arith))

-- The check on the path against docs/APDUSPEC.md.
pub is_mainnet-is_ours : (path : List ℕ) → is_mainnet path ≡ is_ours path
unfolding is_mainnet
is_mainnet-is_ours [] = refl
is_mainnet-is_ours (purpose ∷ []) = ground arith
is_mainnet-is_ours (purpose ∷ coin ∷ rest) = ground arith

-- The code that extractHDPath throws for a payload, if any.
abbrev pub path_outcome : List ℕ → Outcome (Unit {0})
path_outcome payload =
    if ltb (length payload) 12
    then thrown Code.wrong_length
    else (if is_ours (words32 (take 12 payload)) then returned tt else thrown Code.data_invalid)

-- The path that stands in hdPath afterwards: the first three words of the payload, also where they
-- are no path of this application.
abbrev pub path_after : List ℕ → List ℕ → List ℕ
path_after old payload = if ltb (length payload) 12 then old else words32 (take 12 payload)

module _ {B : Type 0} {d : Device B} {class ins p1 p2 l : ℕ} {payload rest : List ℕ}
    (holds : Holds d class ins p1 p2 l payload rest) where
  pub size : sub32 (5 + length payload) 5 ≡ length payload
  size = omega (arith, holds.short)

  readable : (n : ℕ) → n ≤ length payload → fits d.apdu 5 n ≡ true
  readable n h = rw holds.frame (fits_payload class ins p1 p2 l n payload rest h)

  read_front : (n : ℕ) → n ≤ length payload → slice d.apdu 5 n ≡ take n payload
  read_front n h = rw holds.frame (take-append_short n payload rest h)

  read_all : slice d.apdu 5 (length payload) ≡ payload
  read_all = rw holds.frame (take-append_exact payload rest)

  -- The last check, on the path in place.
  mainnet_check :
      (d' : Device B)
      → throw_if (not (is_mainnet d'.hd_path)) Code.data_invalid d'
        ≡ (if is_ours d'.hd_path then returned tt else thrown Code.data_invalid, d')
  unfolding throw_if
  mainnet_check d' =
      let spec : is_mainnet d'.hd_path ≡ is_ours d'.hd_path = is_mainnet-is_ours d'.hd_path in
      elim (Bool-cases (is_ours d'.hd_path)) [
        | inl e ↦ rw (spec, e) refl
        | inr e ↦ rw (spec, e) refl
      ]

  -- extractHDPath ends the upload in every case.
  pub extract_hd_path_lem : extract_hd_path (5 + length payload) 5 d ≡ (
    path_outcome payload,
    record d { tx_initialized = false; hd_path = path_after d.hd_path payload },
  )
  unfolding extract_hd_path
  extract_hd_path_lem = elim (Bool-cases (ltb (length payload) 12)) [
    | inl small ↦
        ground
          (arith, size, throw_if-true (record d { tx_initialized = false }) Code.wrong_length small)
    | inr large ↦ ground (
      arith,
      size,
      throw_if-false (record d { tx_initialized = false }) Code.wrong_length large,
      read_bytes_lem (record d { tx_initialized = false }) 5 12 (take 12 payload)
          (readable 12 (ground arith)) (read_front 12 (ground arith)),
      mainnet_check (record d { tx_initialized = false; hd_path = words32 (take 12 payload) }),
    )
  ]

  -- tx_append gets the payload.
  pub append_payload_lem :
      (p : Platform B)
      → append_payload p (5 + length payload) d ≡ (
        returned (tx_append p.buffering payload d.txs).1,
        record d { txs = (tx_append p.buffering payload d.txs).0 },
      )
  unfolding append_payload
  append_payload_lem p = ground (
    arith,
    size,
    read_bytes_lem d 5 (length payload) payload (readable (length payload) (omega arith)) read_all,
  )
