-- ===== src/Protocol/Found.antt =====
-- The address of a path, or why there is none; and app_fill_address when there is none.
use mathlib.Core.Option
use mathlib.Core.Path.{subst}
use ledger_sovereign.Base.{
  ap, ℕ, ◌≡◌, ◌≢◌, ◌≤◌, inl, inr, refl, arith, none, some, List, ◌++◌, length, replicate,
  Option-cases, length-replicate,
}
use ledger_sovereign.Base.Memory.{memzero, c_string}
use ledger_sovereign.Codes.{ZxErr, ok-cases}
use ledger_sovereign.Codes.Code
use ledger_sovereign.Platform.{Platform}
use ledger_sovereign.Crypto.{crypto_fill_address}
use ledger_sovereign.Crypto.Signing.{point_of, memzero_to}
use ledger_sovereign.Crypto.Address.{
  encoded_address, crypto_fill_address_no_key, crypto_fill_address_no_text,
}
use ledger_sovereign.Crypto.Encoded.{encoded_point}
use ledger_sovereign.Device.{Device, Moment, thrown, throw_if}
use ledger_sovereign.Actions.{app_fill_address}
use ledger_sovereign.Protocol.{address_of, address_text}
use ledger_sovereign.Protocol.Laws.{IsSound, IsUsual}

-- Either the libraries have no address for the path, for one of two reasons, or they have one.
pub data Found {B : Type 0} (p : Platform B) (path : List ℕ) : Type 0 where
  no_key : point_of p.cx path ≡ none → address_of p path ≡ none → Found p path
  no_text :
      (w : List ℕ)
      → point_of p.cx path ≡ some w
      → (encoded_address p.cx p.format (encoded_point w)).0 ≢ ZxErr.ok
      → address_of p path ≡ none
      → Found p path
  found :
      (w text : List ℕ)
      → point_of p.cx path ≡ some w
      → encoded_address p.cx p.format (encoded_point w) ≡ (ZxErr.ok, text)
      → address_of p path ≡ some (encoded_point w ++ c_string text)
      → Found p path

failed_text :
    (key : List ℕ) (e : ZxErr) (text : List ℕ) → e ≢ ZxErr.ok → address_text key (e, text) ≡ none
failed_text key ZxErr.ok text h = absurd (h refl)
failed_text key e text h = refl

module _ {B : Type 0} (p : Platform B) where
  pub find : (path : List ℕ) → Found p path
  unfolding Option.bind
  find path = elim (Option-cases (point_of p.cx path)) [
    | inl e ↦ no_key e (rw (e, Option.bind) refl)
    | inr (w, e) ↦
        let key : List ℕ = encoded_point w in
        let coded : ZxErr × List ℕ = encoded_address p.cx p.format key in
        elim (ok-cases coded.0) [
          | inl h ↦
              let pair : coded ≡ (ZxErr.ok, coded.1) = λ i. (h i, coded.1) in
              found w coded.1 e pair (rw (e, Option.bind) (ap (address_text key) pair))
          | inr h ↦ no_text w e h (rw (e, Option.bind) (failed_text key coded.0 coded.1 h))
        ]
  ]

module _ {B : Type 0} (p : Platform B) (now : Moment) (sound : IsSound p)
    (usual : IsUsual p now) where
  -- The buffer, zeroed.
  abbrev zeros : List ℕ
  zeros = replicate p.apdu_size 0

  failed_fill :
      (d : Device B) (e : ZxErr)
      → length d.apdu ≡ p.apdu_size
      → e ≢ ZxErr.ok
      → crypto_fill_address p.cx p.format d.hd_path now.stack (some zeros) (length zeros) (some 0)
        ≡ (e, some (replicate (length zeros) 0), some 0)
      → app_fill_address p now d
        ≡ (thrown Code.execution_error, record d { apdu = zeros; addr_response_len = 0 })
  unfolding app_fill_address throw_if
  failed_fill d e size bad h =
      let cleared : memzero d.apdu p.apdu_size ≡ zeros = memzero_to d.apdu p.apdu_size size in
      let count : length zeros ≡ p.apdu_size = length-replicate p.apdu_size 0 in
      let filled : crypto_fill_address p.cx p.format d.hd_path now.stack (some zeros) p.apdu_size
            (some 0)
          ≡ (e, some zeros, some 0) =
        subst
          (λ n.
            crypto_fill_address p.cx p.format d.hd_path now.stack (some zeros) n (some 0)
            ≡ (e, some (replicate n 0), some 0))
          count h in
      ground (arith, cleared, filled)

  pub fill_fails :
      (d : Device B)
      → length d.apdu ≡ p.apdu_size
      → address_of p d.hd_path ≡ none
      → app_fill_address p now d
        ≡ (thrown Code.execution_error, record d { apdu = zeros; addr_response_len = 0 })
  fill_fails d size none_found =
      let room : 260 ≤ p.apdu_size = sound.sane.room in
      let count : length zeros ≡ p.apdu_size = length-replicate p.apdu_size 0 in
      let wide : 98 ≤ length zeros = omega arith in
      elim (find p d.hd_path) [
        | no_key point _ ↦
            failed_fill d ZxErr.unknown size (λ e. cc)
              (crypto_fill_address_no_key p.cx p.format sound.sizes d.hd_path now.stack
                usual.stack_size zeros wide 0 point)
        | no_text w point bad _ ↦
            failed_fill d (encoded_address p.cx p.format (encoded_point w)).0 size bad (
              crypto_fill_address_no_text p.cx p.format sound.sizes d.hd_path now.stack
                usual.stack_size zeros wide 0 w point bad)
        | found w text point coded e ↦ cc
      ]
