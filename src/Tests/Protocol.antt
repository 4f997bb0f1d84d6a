-- ===== src/Tests/Protocol.antt =====
-- The whole application at concrete inputs.
use mathlib.Core.Option
use ledger_sovereign.Base.{
  false, drop, ℕ, length, ◌≤◌, ◌≡◌, refl, arith, none, some, List, [], ◌∷◌, ◌++◌, ◌==◌,
  if◌then◌else◌, replicate,
}
use ledger_sovereign.Codes.{ZxErr, cla}
use ledger_sovereign.Codes.Code
use ledger_sovereign.Parser.{Item}
use ledger_sovereign.AddrView.Items.{ShowsAddress}
use ledger_sovereign.AddrView.{addr_get_item}
use ledger_sovereign.Session.Simulate.Screen.{address_sent_is_shown}
use ledger_sovereign.Device.{Review, Device, Moment}
use ledger_sovereign.Actions.{app_reply_address}
use ledger_sovereign.Apdu.{is_mainnet, handle_apdu}
use ledger_sovereign.Crypto.Signing.{signature_of}
use ledger_sovereign.Protocol.{reply, answer}
use ledger_sovereign.Protocol.Reply.{Conforms, AsksSign}
use ledger_sovereign.Protocol.Commands.{handle_apdu-Conforms, short_command-Conforms}
use ledger_sovereign.Protocol.Machine.{Event, command, fragment, approve, waiting, respond_all}
use ledger_sovereign.Session.{receive}
use ledger_sovereign.Session.Host.{path_of}
use ledger_sovereign.Session.Upload.{upload_commands, upload_is_reviewed, upload_is_signed}
use ledger_sovereign.Session.Trace.{perform, receive_frame, perform_all}
use ledger_sovereign.Session.Simulate.Behaviour.{device_is_machine}
use ledger_sovereign.Protocol.Laws.{IsUsual}
use ledger_sovereign.Apdu.Refine.{upload}
use ledger_sovereign.Session.Trace.{run_events}
use ledger_sovereign.Session.Simulate.Secrecy.{replies_leak_nothing, locked_device_asks_nothing}
use ledger_sovereign.Tests.Sample.{
  outputs, answered, Kept, cx, platform, sound, usual, now, start, path_bytes, message,
}

abbrev received : Device Kept
received = receive start (0x64 ∷ 2 ∷ 0 ∷ 0 ∷ 12 ∷ path_bytes ++ replicate 243 0)

handle_apdu-Conforms_example :
    Conforms platform
      (answer platform now none 0x64 2 0 path_bytes)
      (handle_apdu platform now 17 received)
handle_apdu-Conforms_example =
    handle_apdu-Conforms platform now {d = received} {class = 0x64} {ins = 2} {p1 = 0} {p2 = 0}
      {l = 12} {payload = path_bytes} {rest = replicate 243 0}
      (record { frame = refl; short = omega arith }) sound usual
      (record { tx = refl; flags = refl; review = refl; size = refl })
      (record { path = λ e. cc; bounded = λ e. cc })

-- Two bytes, the first of which is the application's CLA.
short_command-Conforms_example :
    Conforms platform
      (none, reply [] (if 0x64 == cla then Code.wrong_length else Code.cla_not_supported))
      (handle_apdu platform now 2 (receive start (0x64 ∷ replicate 259 0)))
short_command-Conforms_example =
    short_command-Conforms platform now {d = receive start (0x64 ∷ replicate 259 0)} sound
      (record { tx = refl; flags = refl; review = refl; size = refl }) 2 0x64 (replicate 259 0) refl
      (omega arith)

-- An upload with a part of a header in between, its approval, and a foreign command.
abbrev events : List Event
events =
    command now 0x64 2 0 0 12 path_bytes
    ∷ fragment now 0x64 (2 ∷ 2 ∷ [])
    ∷ command now 0x64 2 2 0 3 message
    ∷ approve now
    ∷ command now 0x65 0 0 0 0 []
    ∷ []

device_is_machine_example :
    perform_all platform start events ≡ respond_all platform (waiting none) events
device_is_machine_example = device_is_machine platform sound start events refl refl refl (
  (omega arith, usual),
  ((omega arith, usual), ((omega arith, usual), (usual, ((omega arith, usual), tt)))),
)

-- A message of three bytes, in three chunks of one byte.
abbrev uploading : List Event
uploading = upload_commands now 7 ((65 ∷ []) ∷ (66 ∷ []) ∷ []) (67 ∷ [])

upload_is_reviewed_example :
    (perform_all platform start uploading
      ≡ some (0x90 ∷ 0 ∷ []) ∷ some (0x90 ∷ 0 ∷ []) ∷ some (0x90 ∷ 0 ∷ []) ∷ none ∷ [])
    × AsksSign platform (path_of 7) (65 ∷ 66 ∷ 67 ∷ []) (run_events platform start uploading)
upload_is_reviewed_example =
    upload_is_reviewed platform now sound usual refl (omega arith) start 7
      ((65 ∷ []) ∷ (66 ∷ []) ∷ []) (67 ∷ []) (omega arith) refl (λ e. cc, λ e. cc, λ e. cc) refl
      (omega arith, (omega arith, tt)) (omega arith) (omega arith) (λ e. cc)

signed : signature_of cx (path_of 7) (65 ∷ 66 ∷ 67 ∷ []) 257 ≡ some (replicate 64 72)
unfolding Option.bind
signed = refl

upload_is_signed_example :
    perform_all platform start (uploading ++ approve now ∷ [])
    ≡ some (0x90 ∷ 0 ∷ [])
      ∷ some (0x90 ∷ 0 ∷ [])
      ∷ some (0x90 ∷ 0 ∷ [])
      ∷ none
      ∷ some (replicate 64 72 ++ 0x90 ∷ 0 ∷ [])
      ∷ []
upload_is_signed_example =
    upload_is_signed platform now sound usual refl (omega arith) start 7
      ((65 ∷ []) ∷ (66 ∷ []) ∷ []) (67 ∷ []) (replicate 64 72) now (omega arith) refl
      (λ e. cc, λ e. cc, λ e. cc) refl (omega arith, (omega arith, tt)) (omega arith) (omega arith)
      (λ e. cc) usual signed

-- A device whose buffers hold an address and a message.
abbrev used : Device Kept
used = record answered { review = none }

replies_leak_nothing_example : perform_all platform start events ≡ perform_all platform used events
replies_leak_nothing_example =
    replies_leak_nothing platform sound start used events refl refl refl refl refl refl (
      (omega arith, usual),
      ((omega arith, usual), ((omega arith, usual), (usual, ((omega arith, usual), tt)))),
    )

-- The moments of a locked device.
abbrev lock : Moment
lock = record now { pin_check = some Code.command_not_allowed }

lock-IsUsual : IsUsual platform lock
lock-IsUsual = record { stack_size = refl; no_reset = λ e h same. cc (h, same) }

abbrev locked_events : List Event
locked_events =
    command lock 0x64 2 0 0 12 path_bytes
    ∷ command lock 0x64 1 1 0 12 path_bytes
    ∷ approve lock
    ∷ []

locked_device_asks_nothing_example :
    ((run_events platform start locked_events).review ≡ none)
    × (upload platform (run_events platform start locked_events) ≡ upload platform start)
locked_device_asks_nothing_example =
    locked_device_asks_nothing platform sound start locked_events (λ e. cc, λ e. cc, λ e. cc) refl
      refl ((omega arith, lock-IsUsual), ((omega arith, lock-IsUsual), (lock-IsUsual, tt)))
      (
        (Code.command_not_allowed, refl),
        ((Code.command_not_allowed, refl), ((Code.command_not_allowed, refl), tt)),
      )

-- An address command with confirmation.
abbrev address_events : List Event
address_events = command now 0x64 1 1 0 12 path_bytes ∷ []

address_asked : (run_events platform start address_events).review ≡ some Review.address
unfolding run_events perform Option.bind is_mainnet
address_asked =
    let asks =
      handle_apdu-Conforms platform now
        {d = receive_frame start (0x64 ∷ 1 ∷ 1 ∷ 0 ∷ 12 ∷ path_bytes)} {class = 0x64} {ins = 1}
        {p1 = 1} {p2 = 0} {l = 12} {payload = path_bytes} {rest = replicate 243 0}
        (record { frame = refl; short = omega arith }) sound usual
        (record { tx = refl; flags = refl; review = refl; size = refl })
        (record { path = λ e. cc; bounded = λ e. cc }) in
    asks.3.0

address_sent_is_shown_example :
    (answer : List ℕ) × (32 ≤ length answer)
    × (item : Item) × (addr_get_item platform false
          (run_events platform start address_events)
          0
          outputs
          18
          18
          0
        ≡ (ZxErr.ok, item))
    × ShowsAddress platform outputs 17 18 0 (drop 32 answer) item
    × ((app_reply_address platform now (run_events platform start address_events)).0
        ≡ answer ++ 0x90 ∷ 0 ∷ [])
address_sent_is_shown_example =
    address_sent_is_shown platform sound start address_events (λ e. cc, λ e. cc, λ e. cc) refl refl
      ((omega arith, usual), tt) address_asked now false outputs 17 18 0 (omega arith)
