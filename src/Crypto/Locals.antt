-- ===== src/Crypto/Locals.antt =====
-- The secret locals of the key functions of crypto.c, and CATCH_CXERROR: a computation that may
-- jump to the label catch_cx_error, with the locals as they are at the jump.
use ledger_sovereign.Base.{ℕ, Option, none, some, List, replicate}
use ledger_sovereign.Base.Memory.{copy_into, memzero}
use ledger_sovereign.Codes.{ZxErr, sk_len_25519}

-- `privateKeyData` and the bytes of `cx_privateKey`.
pub record Secrets : Type 0 where
  pub private_key_data : List ℕ
  pub private_key : List ℕ

-- The locals on entry: `privateKeyData` is zero, `cx_privateKey` is what the stack holds.
abbrev pub fresh : List ℕ → Secrets
fresh stack = record { private_key_data = replicate sk_len_25519 0; private_key = stack }

-- The two MEMZERO calls behind the label.
abbrev pub wipe : ℕ → Secrets → Secrets
wipe size s = record {
  private_key_data = memzero s.private_key_data sk_len_25519;
  private_key = memzero s.private_key size;
}

-- `none` is a jump to the label.
abbrev pub Guarded : Type 0 → Type 0
Guarded A = Secrets → Option A × Secrets

infixl 5 ◌>>=◌ ◌>>◌
abbrev pub ◌>>=◌ : {A B : Type 0} → Guarded A → (A → Guarded B) → Guarded B
◌>>=◌ m f s = let (r, s') = m s in elim r [ none ↦ (none, s') | some a ↦ f a s' ]

abbrev pub ◌>>◌ : {B : Type 0} → Guarded (Unit {0}) → Guarded B → Guarded B
m >> k = m >>= λ _. k

abbrev pub pure : {A : Type 0} → A → Guarded A
pure a s = (some a, s)

-- CATCH_CXERROR
abbrev pub catch_cx_error : {A : Type 0} → Option A → Guarded A
catch_cx_error r s = (r, s)

abbrev pub put_key_data : List ℕ → Guarded (Unit {0})
put_key_data bytes s =
    (some tt, record s { private_key_data = copy_into s.private_key_data 0 bytes })

abbrev pub put_key : List ℕ → Guarded (Unit {0})
put_key bytes s = (some tt, record s { private_key = bytes })

abbrev pub get_key_data : Guarded (List ℕ)
get_key_data s = (some s.private_key_data, s)

abbrev pub get_key : Guarded (List ℕ)
get_key s = (some s.private_key, s)

-- The variable `error` at the label.
abbrev pub label_error {ℓ} : {A : Type ℓ} → Option A → ZxErr
label_error none = ZxErr.unknown
label_error (some _) = ZxErr.ok
