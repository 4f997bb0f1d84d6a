-- ===== src/Protocol.antt =====
-- docs/APDUSPEC.md as a specification: what every command is answered, as a function of its bytes
-- and of the upload under way. It knows neither the buffers nor the flags of the code; of the
-- libraries it uses the operations.
pub mod Laws
pub mod Kept
pub mod Reply
pub mod Chunk
pub mod Sign
pub mod Found
pub mod Address
pub mod Commands
pub mod Machine
use mathlib.Core.Option
use ledger_sovereign.Base.{
  ℕ, ◌+◌, not, ◌&&◌, Option, none, some, List, [], ◌∷◌, ◌++◌, ltb, ◌==◌, if◌then◌else◌, length,
  take,
}
use ledger_sovereign.Base.Memory.{c_string, words32}
use ledger_sovereign.Base.Text.{codes}
use ledger_sovereign.Codes.{ZxErr, cla, ins_get_version, ins_get_addr, ins_sign}
use ledger_sovereign.Codes.Code
use ledger_sovereign.Platform.{Platform}
use ledger_sovereign.Tx.{flash_buffer_size}
use ledger_sovereign.Crypto.Signing.{point_of}
use ledger_sovereign.Crypto.Address.{encoded_address}
use ledger_sovereign.Crypto.Encoded.{encoded_point}
use ledger_sovereign.Device.{Moment}
use ledger_sovereign.Codes.Path.{is_ours}
use ledger_sovereign.Codes.Wire.{big_endian, flag_byte}
use ledger_sovereign.Apdu.Upload.{Upload, Answer, more, complete, refused, chunk}

-- An answer and a code, at once; or a question to the user, about the address that stands in the
-- answer, or about the message to sign for a path.
pub data Verdict : Type 0 where
  reply : List ℕ → ℕ → Verdict
  ask_address : List ℕ → List ℕ → Verdict
  ask_sign : List ℕ → List ℕ → Verdict

-- The public key of a path and the text of its address.
abbrev pub address_text : List ℕ → ZxErr × List ℕ → Option (List ℕ)
address_text key (ZxErr.ok, text) = some (key ++ c_string text)
address_text key (_, text) = none

abbrev pub found_verdict : ℕ → List ℕ → Option (List ℕ) → Verdict
found_verdict p1 path none = reply [] Code.execution_error
found_verdict p1 path (some answer) =
    if p1 == 0 then reply answer Code.success else ask_address path answer

-- An empty message is an error, and its answer has the error's text.
abbrev pub message_verdict : List ℕ → List ℕ → Verdict
message_verdict path [] = reply (codes "Initialized empty context") Code.data_invalid
message_verdict path (m ∷ message) = ask_sign path (m ∷ message)

abbrev pub sign_verdict : Answer → Verdict
sign_verdict more = reply [] Code.success
sign_verdict (complete path message) = message_verdict path message
sign_verdict (refused e) = reply [] e

abbrev pub sign_answer : Upload × Answer → Upload × Verdict
sign_answer (u, a) = (u, sign_verdict a)

-- A command that a failing PIN check stops leaves the upload alone.
abbrev pub pinned : Option ℕ → Upload → Upload × Verdict → Upload × Verdict
pinned none u answer = answer
pinned (some e) u answer = (u, reply [] e)

module _ {B : Type 0} (p : Platform B) where
  abbrev pub address_of : List ℕ → Option (List ℕ)
  address_of path =
      Option.bind (point_of p.cx path)
        (λ w. address_text (encoded_point w) (encoded_address p.cx p.format (encoded_point w)))

  abbrev pub address_verdict : ℕ → List ℕ → Verdict
  address_verdict p1 payload =
      if ltb (length payload) 12
      then reply [] Code.wrong_length
      else (if is_ours (words32 (take 12 payload))
          then (found_verdict p1 (words32 (take 12 payload))
              (address_of (words32 (take 12 payload))))
          else reply [] Code.data_invalid)

  -- The test mode, the three numbers of the version, the lock state and the target.
  abbrev pub version_text : Moment → List ℕ
  version_text now =
      flag_byte p.testing ∷ big_endian 2 p.major_version
      ++ big_endian 2 p.minor_version
      ++ big_endian 2 p.patch_version
      ++ flag_byte (not now.ux_allowed) ∷ big_endian 4 p.target_id

  -- The answer to a command, and the upload that is under way afterwards.
  abbrev pub answer : Moment → Upload → (class ins p1 : ℕ) (payload : List ℕ) → Upload × Verdict
  answer now u class ins p1 payload =
      if not (class == cla)
      then (u, reply [] Code.cla_not_supported)
      else (if ltb (5 + length payload) p.apdu_min_length
          then (u, reply [] Code.wrong_length)
          else (if ins == ins_get_version
              then (u, reply (version_text now) Code.success)
              else (if ins == ins_get_addr
                  then pinned now.pin_check u (none, address_verdict p1 payload)
                  else (if ins == ins_sign
                      then (pinned now.pin_check u
                          (sign_answer (chunk (flash_buffer_size p.target) u p1 payload)))
                      else (if p.testing && ins == p.ins_test
                          then (u, reply [] Code.success)
                          else (u, reply [] Code.ins_not_supported))))))
