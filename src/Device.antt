-- ===== src/Device.antt =====
-- The globals of the application, and C code over them: a computation returns, throws a code as
-- THROW does, or faults by an access outside the APDU buffer. What was written before a throw
-- stays written, since TRY and CATCH are a longjmp.
pub mod Rules
use ledger_sovereign.Base.{
  ℕ, ◌+◌, ◌-◌, ◌%◌, ◌^◌, Bool, true, false, Option, none, some, List, get_elem?, length,
}
use ledger_sovereign.Base.Memory.{copy_into, slice, fits}
use ledger_sovereign.Tx.{TxState}

-- What view_review_init and view_review_show put on the screen, with the callback for approval:
-- app_reply_address, or app_sign.
pub data Review : Type 0 where
  address transaction : Review

pub record Device (B : Type 0) : Type 0 where
  -- G_io_apdu_buffer
  pub apdu : List ℕ
  -- crypto.c: hdPath
  pub hd_path : List ℕ
  -- actions.c: action_addrResponseLen
  pub addr_response_len : ℕ
  -- apdu_handler.c: tx_initialized
  pub tx_initialized : Bool
  -- the statics of tx.c
  pub txs : TxState B
  pub review : Option Review
  -- `*tx` and `*flags` of handleApdu
  pub tx : ℕ
  pub flags : ℕ

-- What a command finds around it: the code that CHECK_PIN_VALIDATED throws, if any, IS_UX_ALLOWED,
-- and the bytes on the stack where the key functions put a private key.
pub record Moment : Type 0 where
  pub pin_check : Option ℕ
  pub ux_allowed : Bool
  pub stack : List ℕ

pub data Outcome (A : Type 0) : Type 0 where
  returned : A → Outcome A
  thrown : ℕ → Outcome A
  fault : Outcome A

abbrev pub Run : Type 0 → Type 0 → Type 0
Run B A = Device B → Outcome A × Device B

infixl 5 ◌>>=◌ ◌>>◌
abbrev pub ◌>>=◌ : {B A C : Type 0} → Run B A → (A → Run B C) → Run B C
◌>>=◌ m f d =
    let (o, d') = m d in
    elim o [ returned a ↦ f a d' | thrown e ↦ (thrown e, d') | fault ↦ (fault, d') ]

abbrev pub ◌>>◌ : {B C : Type 0} → Run B (Unit {0}) → Run B C → Run B C
m >> k = m >>= λ _. k

module _ {B : Type 0} where
  abbrev pub pure : {A : Type 0} → A → Run B A
  pure a d = (returned a, d)

  -- THROW
  abbrev pub throw : {A : Type 0} → ℕ → Run B A
  throw e d = (thrown e, d)

  abbrev pub gets : {A : Type 0} → (Device B → A) → Run B A
  gets f d = (returned (f d), d)

  abbrev pub modify : (Device B → Device B) → Run B (Unit {0})
  modify f d = (returned tt, f d)

  -- An if statement.
  unfoldable pub choose : {A : Type 0} → Bool → Run B A → Run B A → Run B A
  choose true m n d = m d
  choose false m n d = n d

  -- A throw under a condition.
  unfoldable pub throw_if : Bool → ℕ → Run B (Unit {0})
  throw_if true e d = (thrown e, d)
  throw_if false e d = (returned tt, d)

  abbrev pub or_fault : {A : Type 0} → Option A → Run B A
  or_fault none d = (fault, d)
  or_fault (some a) d = (returned a, d)

  unfoldable pub read_byte : ℕ → Run B ℕ
  read_byte i d = or_fault (get_elem? d.apdu i) d

  unfoldable pub read_bytes : ℕ → ℕ → Run B (List ℕ)
  read_bytes i n d = elim (fits d.apdu i n) [
    | true ↦ (returned (slice d.apdu i n), d)
    | false ↦ (fault, d)
  ]

  unfoldable pub write_bytes : ℕ → List ℕ → Run B (Unit {0})
  write_bytes i bytes d = elim (fits d.apdu i (length bytes)) [
    | true ↦ (returned tt, record d { apdu = copy_into d.apdu i bytes })
    | false ↦ (fault, d)
  ]

  -- `*tx += n`
  abbrev pub advance : ℕ → Run B (Unit {0})
  advance n d = (returned tt, record d { tx = (d.tx + n) % 2 ^ 32 })

-- uint32_t subtraction
abbrev pub sub32 : ℕ → ℕ → ℕ
sub32 a b = (a + 2 ^ 32 - b) % 2 ^ 32
