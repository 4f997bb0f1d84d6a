-- ===== src/HostTests/Vectors/Agreement.antt =====
-- The addresses of WalletAddressEncoding and those that a device sends.
use mathlib.Core.Option
use mathlib.Core.Path.{subst}
use mathlib.Core.List.{Memᴰ}
use ledger_sovereign.Base.{
  ℕ, ◌+◌, ◌≤◌, ◌≡◌, refl, ap, sym, ◌∙◌, true, none, some, List, [], ◌∷◌, ◌++◌, arith, length,
  replicate, le→ltb, take,
}
use ledger_sovereign.Base.Memory.{c_string, words32}
use ledger_sovereign.Codes.{ZxErr, hrp, cla, ins_get_addr}
use ledger_sovereign.Platform.{Platform, Cx, WritesSizes}
use ledger_sovereign.Device.{Device, Moment}
use ledger_sovereign.Crypto.Signing.{point_of}
use ledger_sovereign.Crypto.Address.{encoded_address}
use ledger_sovereign.Crypto.Encoded.{encoded_point}
use ledger_sovereign.Codes.Path.{is_ours}
use ledger_sovereign.Apdu.Upload.{Upload}
use ledger_sovereign.Apdu.Refine.{upload}
use ledger_sovereign.Protocol.{address_of, address_text}
use ledger_sovereign.Protocol.Laws.{IsSound, IsUsual}
use ledger_sovereign.Protocol.Machine.{
  Event, command, State, waiting, asking_address, asking_sign, respond,
}
use ledger_sovereign.Session.Safety.{IsSafe}
use ledger_sovereign.Session.Trace.{perform, run_events}
use ledger_sovereign.Session.Simulate.{Matches}
use ledger_sovereign.Session.Simulate.Behaviour.{AllPossible, event-Follows}
use ledger_sovereign.Session.Simulate.Screen.{run-Matches}
use ledger_sovereign.HostTests.{text_in}
use ledger_sovereign.HostTests.Vectors.{
  ParseHex, SovereignWalletAddress, internal_pubkey, wallet_address_encoding,
}
use ledger_sovereign.HostTests.Vectors.Wallet.{answer, EncodesTo, AllEncode, wallet_passes_iff}

text_in-c_string : (buffer str : List ℕ) → text_in buffer ≡ some str → c_string buffer ≡ str
text_in-c_string buffer str h = ground arith

address_text_ok :
    (key : List ℕ) (e : ZxErr) (text str : List ℕ)
    → e ≡ ZxErr.ok
    → c_string text ≡ str
    → address_text key (e, text) ≡ some (key ++ str)
address_text_ok key e text str ok same = rw (ok, same) refl

module _ {B : Type 0} (p : Platform B) where
  -- A device with nothing on the screen is one that waits.
  idle_waits :
      (d : Device B) (s : State)
      → Matches p d s
      → d.review ≡ none
      → (u : Upload) × Matches p d (waiting u)
  idle_waits d (waiting u) m idle = (u, m)
  idle_waits d (asking_address u shown) m idle = absurd (cc (m.1, idle))
  idle_waits d (asking_sign u path message) m idle = absurd (cc (m.1, idle))

  module _ (now : Moment) (p2 l : ℕ) (payload : List ℕ) where
    -- An address command that asks for no confirmation, and its path.
    abbrev pub address_command : Event
    address_command = command now cla ins_get_addr 0 p2 l payload

    abbrev pub path : List ℕ
    path = words32 (take 12 payload)

    address_answer :
        (u : Upload) (answer : List ℕ)
        → now.pin_check ≡ none
        → p.apdu_min_length ≤ 5 + length payload
        → 12 ≤ length payload
        → is_ours path ≡ true
        → address_of p path ≡ some answer
        → (respond p (waiting u) address_command).0 ≡ some (answer ++ 0x90 ∷ 0 ∷ [])
    unfolding respond
    address_answer u answer pin enough long ours found =
        rw
          (
            le→ltb (5 + length payload) p.apdu_min_length enough,
            pin,
            le→ltb (length payload) 12 long,
            ours,
            found,
          )
          refl

    module _ (host : Cx) (host_sizes : WritesSizes host)
        (same_hash : (input : List ℕ) → host.sha256 input ≡ p.sha256 input)
        (parse_hex_string : ParseHex)
        (in_place : (buffer text : List ℕ) (size : ℕ)
          → length (parse_hex_string buffer size text).0 ≡ length buffer) where
      AllEncode-among :
          (testcase : SovereignWalletAddress) (vectors : List SovereignWalletAddress)
          → Memᴰ testcase vectors
          → AllEncode host p.format parse_hex_string vectors
          → EncodesTo host p.format parse_hex_string testcase
      AllEncode-among testcase [] m all = elim m [ ]
      AllEncode-among testcase (_ ∷ rest) (Memᴰ.head e) (here, others) =
          subst (λ v. EncodesTo host p.format parse_hex_string v) (sym e) here
      AllEncode-among testcase (other ∷ rest) (Memᴰ.tail m) (here, others) =
          AllEncode-among testcase rest m others

      vector_found :
          (testcase : SovereignWalletAddress) (w : List ℕ)
          → EncodesTo host p.format parse_hex_string testcase
          → point_of p.cx path ≡ some w
          → encoded_point w ≡ internal_pubkey parse_hex_string testcase
          → address_of p path ≡ some (encoded_point w ++ testcase.address)
      unfolding Option.bind
      vector_found testcase w (ok, shown) point is_key =
          let text = text_in-c_string _ testcase.address shown in
          let digest : p.sha256 (encoded_point w)
              ≡ host.sha256 (internal_pubkey parse_hex_string testcase) =
            sym (same_hash (encoded_point w)) ∙ ap host.sha256 is_key in
          let coded : encoded_address p.cx p.format (encoded_point w)
              ≡ answer host p.format parse_hex_string testcase =
            ap (λ h. p.bech32m_encode (replicate 66 0) 66 hrp h 28 1) digest in
          ap
            (λ o. Option.bind o (λ w'.
              address_text (encoded_point w') (encoded_address p.cx p.format (encoded_point w'))))
            point
          ∙ ap (address_text (encoded_point w)) coded
          ∙ address_text_ok (encoded_point w) (answer host p.format parse_hex_string testcase).0
              (answer host p.format parse_hex_string testcase).1 testcase.address ok text

      -- A device sends the addresses that the test expects. WalletAddressEncoding fails no
      -- expectation on its vectors, where it is built with the encoder of the device, a hash that
      -- answers as the device's does, and a parseHexString that writes inside its buffer. The
      -- libraries keep to their laws; the device is safe, waits for a command and has an APDU buffer
      -- of the build's size, and commands of one to four bytes, or of a header and at most 255 bytes
      -- of payload, and button presses come in any order, each at a moment with a whole key on the
      -- stack and no PIN check that throws a reset of the link. When nothing is on the screen after
      -- them, an address command without confirmation, of at least the minimal length, at such a moment
      -- with a PIN check that passes, for a path of this application whose key is encoded as the key of
      -- one of the vectors, is answered with that key, the address of the vector and 0x9000.
      pub device_sends_vectors :
          (start : Device B) (events : List Event) (vectors : List SovereignWalletAddress)
          (testcase : SovereignWalletAddress) (w : List ℕ)
          → IsSound p
          → IsUsual p now
          → IsSafe p start
          → start.review ≡ none
          → length start.apdu ≡ p.apdu_size
          → AllPossible p events
          → (run_events p start events).review ≡ none
          → now.pin_check ≡ none
          → p.apdu_min_length ≤ 5 + length payload
          → length payload ≤ 255
          → 12 ≤ length payload
          → is_ours path ≡ true
          → point_of p.cx path ≡ some w
          → encoded_point w ≡ internal_pubkey parse_hex_string testcase
          → Memᴰ testcase vectors
          → wallet_address_encoding host p.format parse_hex_string vectors ≡ some []
          → (perform p (run_events p start events) address_command).0
            ≡ some ((encoded_point w ++ testcase.address) ++ 0x90 ∷ 0 ∷ [])
      device_sends_vectors start events vectors testcase w sound usual safe idle size h waits pin
            enough short long ours point is_key among passes =
          let (s, m) =
            run-Matches p sound events start (waiting (upload p start)) ((safe, size, refl), idle)
              h in
          let d = run_events p start events in
          let (u, m') = idle_waits d s m waits in
          let all =
            (wallet_passes_iff host p.format parse_hex_string host_sizes in_place vectors).0
              passes in
          let encodes = AllEncode-among testcase vectors among all in
          (event-Follows p sound d (waiting u) address_command m' (short, usual)).0
          ∙ address_answer u (encoded_point w ++ testcase.address) pin enough long ours
              (vector_found testcase w encodes point is_key)
