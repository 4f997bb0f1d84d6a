-- ===== src/Apdu/Upload.antt =====
-- What the sign command promises its host: an upload of a message for a path, as a state machine
-- over byte strings that knows neither the buffers nor the flags of the code.
use ledger_sovereign.Base.{
  ℕ, ◌+◌, Bool, true, false, Option, none, some, List, [], ◌++◌, ltb, leb, ◌==◌, if◌then◌else◌,
  length, take,
}
use ledger_sovereign.Base.Memory.{words32}
use ledger_sovereign.Codes.{p1_init, p1_add, p1_last}
use ledger_sovereign.Codes.Code
use ledger_sovereign.Codes.Path.{is_ours}

-- No upload, or the path and the message so far.
abbrev pub Upload : Type 0
Upload = Option (List ℕ × List ℕ)

-- How a chunk is answered: more chunks may follow, the message is complete, or it is refused.
pub data Answer : Type 0 where
  more : Answer
  complete : List ℕ → List ℕ → Answer
  refused : ℕ → Answer

-- A new upload for the path in the payload.
abbrev pub begin : List ℕ → Upload × Answer
begin payload =
    if ltb (length payload) 12
    then (none, refused Code.wrong_length)
    else (if is_ours (words32 (take 12 payload))
        then (some (words32 (take 12 payload), []), more)
        else (none, refused Code.data_invalid))

-- More bytes of the message, up to `room` in all; the last chunk ends the upload.
abbrev pub extend : ℕ → Bool → Upload → List ℕ → Upload × Answer
extend room last none payload = (none, refused Code.tx_not_initialized)
extend room last (some (path, message)) payload =
    if leb (length message + length payload) room
    then (if last
        then (none, complete path (message ++ payload))
        else (some (path, message ++ payload), more))
    else (none, refused Code.output_buffer_too_small)

abbrev pub chunk : ℕ → Upload → ℕ → List ℕ → Upload × Answer
chunk room u p1 payload =
    if p1 == p1_init
    then begin payload
    else (if p1 == p1_add
        then extend room false u payload
        else (if p1 == p1_last
            then extend room true u payload
            else (u, refused Code.invalid_p1_p2)))
