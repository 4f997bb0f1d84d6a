-- ===== src/Device/Rules.antt =====
-- How the primitives of `Device` answer, as equations to rewrite by.
use ledger_sovereign.Base.{ℕ, ◌≡◌, Bool, true, false, some, List, get_elem?, length}
use ledger_sovereign.Base.Memory.{copy_into, slice, fits}
use ledger_sovereign.Device.{
  Device, Run, returned, thrown, choose, throw_if, read_byte, read_bytes, write_bytes,
}

module _ {B A : Type 0} (m n : Run B A) (d : Device B) where
  pub choose-true : {c : Bool} → c ≡ true → choose c m n d ≡ m d
  unfolding choose
  choose-true h = rw h

  pub choose-false : {c : Bool} → c ≡ false → choose c m n d ≡ n d
  unfolding choose
  choose-false h = rw h

module _ {B : Type 0} (d : Device B) where
  pub throw_if-true : {c : Bool} (e : ℕ) → c ≡ true → throw_if c e d ≡ (thrown e, d)
  unfolding throw_if
  throw_if-true e h = rw h

  pub throw_if-false : {c : Bool} (e : ℕ) → c ≡ false → throw_if c e d ≡ (returned tt, d)
  unfolding throw_if
  throw_if-false e h = rw h

  pub read_byte_lem : (i b : ℕ) → get_elem? d.apdu i ≡ some b → read_byte i d ≡ (returned b, d)
  unfolding read_byte
  read_byte_lem i b h = rw h

  pub read_bytes_lem :
      (i n : ℕ) (bytes : List ℕ)
      → fits d.apdu i n ≡ true
      → slice d.apdu i n ≡ bytes
      → read_bytes i n d ≡ (returned bytes, d)
  unfolding read_bytes
  read_bytes_lem i n bytes h e = rw (h, read_bytes) (rw e)

  pub write_bytes_lem :
      (i : ℕ) (bytes : List ℕ)
      → fits d.apdu i (length bytes) ≡ true
      → write_bytes i bytes d ≡ (returned tt, record d { apdu = copy_into d.apdu i bytes })
  unfolding write_bytes
  write_bytes_lem i bytes h = rw (h, write_bytes)
