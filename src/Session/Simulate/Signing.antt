-- ===== src/Session/Simulate/Signing.antt =====
-- The message on the screen, over every sequence of events.
use mathlib.Core.Path.{subst}
use ledger_sovereign.Base.{
  ℕ, suc, ◌-◌, ◌<◌, ◌≡◌, ◌≢◌, refl, sym, true, false, none, some, List, [], ◌∷◌, length, take,
}
use ledger_sovereign.Base.Memory.{c_string}
use ledger_sovereign.Base.Text.{codes}
use ledger_sovereign.Codes.{ZxErr}
use ledger_sovereign.Platform.{Platform}
use ledger_sovereign.Parser.{Item}
use ledger_sovereign.Parser.Items.{cleaned}
use ledger_sovereign.Tx.{TxState, tx_get_buffer, tx_get_item}
use ledger_sovereign.Tx.Items.{tx_get_item_shows}
use ledger_sovereign.Crypto.Signing.{signature_of}
use ledger_sovereign.Device.{Review, Device, Moment}
use ledger_sovereign.Actions.{app_sign}
use ledger_sovereign.Codes.Path.{is_ours}
use ledger_sovereign.Apdu.Upload.{Upload}
use ledger_sovereign.Apdu.Refine.{upload}
use ledger_sovereign.Protocol.Laws.{IsSound, IsUsual}
use ledger_sovereign.Protocol.Machine.{
  Event, State, waiting, asking_address, asking_sign, signed_reply, respond,
}
use ledger_sovereign.Session.Safety.{IsSafe}
use ledger_sovereign.Session.Trace.{perform, run_events}
use ledger_sovereign.Session.Simulate.{Steady, Matches}
use ledger_sovereign.Session.Simulate.Behaviour.{AllPossible, start-Matches, event-Follows}
use ledger_sovereign.Session.Simulate.Buttons.{sign-Follows}
use ledger_sovereign.Session.Simulate.Screen.{run-Matches}
use ledger_sovereign.Session.Simulate.History.{newest_first, Delivered, Explains}
use ledger_sovereign.Session.Simulate.Explained.{event-Explains}

-- Into outputs of the sizes `suc k` and `suc v`, the two items of a review show a message: the
-- announcement of a blind signature, and the page of the hex dump of the whole message. Texts are cut
-- to the room before the NUL.
abbrev pub DisplaysItems :
    {B : Type 0} → Platform B → TxState B → List ℕ → Item → (k v page : ℕ) → Type 0
DisplaysItems p txs message i k v page =
    (first second : Item) × (tx_get_item p.buffering p.format txs 0 i (suc k) (suc v) page
      ≡ some (ZxErr.ok, first))
    × (tx_get_item p.buffering p.format txs 1 i (suc k) (suc v) page ≡ some (ZxErr.ok, second))
    × (c_string first.out_key ≡ take k (codes "Blind"))
    × (c_string first.out_val ≡ take v (codes "Signing"))
    × (c_string second.out_key ≡ take k (codes "Txn"))
    × ((second.out_val, second.page_count)
        ≡ p.page_string_hex (cleaned i.out_key i.out_val (suc k) (suc v)).out_val (suc v) message
            page)

module _ {B : Type 0} (p : Platform B) where
  Matches→Steady : (d : Device B) (s : State) → Matches p d s → (u : Upload) × Steady p u d
  Matches→Steady d (waiting u) m = (u, m.0)
  Matches→Steady d (asking_address u shown) m = (u, m.0)
  Matches→Steady d (asking_sign u path message) m = (u, m.0)

  module _ (sound : IsSound p) where
    -- The libraries keep to their laws; the device is safe, waits for a command and has an APDU
    -- buffer of the build's size. Commands of one to four bytes, or of a header and at most 255
    -- bytes of payload, and button presses come in any order, each at a moment with a whole key on
    -- the stack and no PIN check that throws a reset of the link. If a transaction is then under
    -- review, its path is one of this application, and its message is not empty. Into outputs that
    -- are larger than the sizes given, each of at least one byte, tx_getItem puts the announcement
    -- of a blind signature and, for any page, that page of the hex dump of the whole message.
    -- Approval, at such a moment, replies with the signature of that very message by the key of
    -- that path and 0x9000, or with APDU_CODE_SIGN_VERIFY_ERROR and no other byte where the
    -- libraries have none.
    pub message_signed_is_shown :
        (start : Device B) (events : List Event) (now : Moment) (i : Item) (k v page : ℕ)
        → IsSafe p start
        → start.review ≡ none
        → length start.apdu ≡ p.apdu_size
        → AllPossible p events
        → (run_events p start events).review ≡ some Review.transaction
        → IsUsual p now
        → k < length i.out_key
        → v < length i.out_val
        → let d = run_events p start events in
          let message = tx_get_buffer p.buffering d.txs in
          (is_ours d.hd_path ≡ true)
          × (message ≢ [])
          × DisplaysItems p d.txs message i k v page
          × ((app_sign p now d).0
              ≡ signed_reply (signature_of p.cx d.hd_path message (p.apdu_size - 3)))
    message_signed_is_shown start events now i k v page safe idle size h on usual hk hv =
        let d = run_events p start events in
        let message = tx_get_buffer p.buffering d.txs in
        let (s, m) =
          run-Matches p sound events start (waiting (upload p start)) ((safe, size, refl), idle)
            h in
        let (u, steady) = Matches→Steady d s m in
        let (ours, filled, bounded, shows) = steady.0.2 on in
        let said =
          (sign-Follows p sound u d now d.hd_path message (steady, on, refl, refl) usual).0 in
        (
          ours,
          filled,
          tx_get_item_shows p.buffering p.format d.txs message shows i k v page hk hv,
          cc,
        )

    run-Explains :
        (events past : List Event) (d : Device B) (s : State)
        → Matches p d s
        → Explains p past s
        → AllPossible p events
        → (s' : State) × Matches p (run_events p d events) s'
          × Explains p (newest_first past events) s'
    unfolding run_events
    run-Explains [] past d s m k h = (s, m, k)
    run-Explains (e ∷ events) past d s m k (one, others) =
        run-Explains events (e ∷ past) (perform p d e).1 (respond p s e).1
          (event-Follows p sound d s e m one).1 (event-Explains p past s e k) others

    explained :
        (past : List Event) (d : Device B) (s : State)
        → Matches p d s
        → Explains p past s
        → d.review ≡ some Review.transaction
        → Delivered p past d.hd_path (tx_get_buffer p.buffering d.txs)
    explained past d (waiting u) (steady, idle) k on = cc
    explained past d (asking_address u shown) (steady, other, _, _, _, _) k on = cc
    explained past d (asking_sign u path message) (steady, _, same_path, bytes) (_, k) on =
        let kept = subst (λ l. Delivered p past l message) (sym same_path) k in
        subst (λ l. Delivered p past d.hd_path l) (sym bytes) kept

    -- What the device may sign has been sent to it for that purpose. The libraries keep to their
    -- laws; the device starts with no upload, no review and an APDU buffer of the build's size.
    -- Commands of one to four bytes, or of a header and at most 255 bytes of payload, and button
    -- presses come in any order, each at a moment with a whole key on the stack and no PIN check
    -- that throws a reset of the link. If a transaction is then under review, the commands of at
    -- least the minimal length that have passed the PIN check have brought a first chunk that
    -- begins with the path in hdPath, which is a path of this application, then further chunks,
    -- then a last one, with neither an address command nor another chunk among them; and the
    -- message is the payloads of the further chunks and of the last, in order. Since that last
    -- chunk no button has been pressed.
    pub signed_was_uploaded :
        (start : Device B) (events : List Event)
        → start.tx_initialized ≡ false
        → start.review ≡ none
        → length start.apdu ≡ p.apdu_size
        → AllPossible p events
        → (run_events p start events).review ≡ some Review.transaction
        → let d = run_events p start events in
          Delivered p (newest_first [] events) d.hd_path (tx_get_buffer p.buffering d.txs)
    signed_was_uploaded start events off idle size h on =
        let d = run_events p start events in
        let (s, m, k) =
          run-Explains events [] start (waiting none) (start-Matches p start off idle size) tt h in
        explained (newest_first [] events) d s m k on
