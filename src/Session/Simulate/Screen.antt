-- ===== src/Session/Simulate/Screen.antt =====
-- The address on the screen, over every sequence of events.
use ledger_sovereign.Base.{
  ℕ, zero, suc, ◌≤◌, ◌<◌, ◌≡◌, refl, ap, ◌∙◌, Bool, none, some, List, [], ◌∷◌, ◌++◌, length, drop,
  take, replicate, arith,
}
use ledger_sovereign.Base.Memory.{c_string}
use ledger_sovereign.Codes.{ZxErr}
use ledger_sovereign.Platform.{Platform}
use ledger_sovereign.Device.{Review, Device, Moment}
use ledger_sovereign.Parser.{Item}
use ledger_sovereign.AddrView.{addr_get_item}
use ledger_sovereign.AddrView.Items.{ShowsAddress, address_in, address_in-ShowsAddress}
use ledger_sovereign.Actions.{app_reply_address}
use ledger_sovereign.Apdu.Refine.{upload}
use ledger_sovereign.Protocol.Laws.{IsSound}
use ledger_sovereign.Protocol.Reply.{Displays}
use ledger_sovereign.Protocol.Machine.{Event, State, waiting, asking_address, asking_sign, respond}
use ledger_sovereign.Session.Safety.{IsSafe}
use ledger_sovereign.Session.Trace.{perform, run_events}
use ledger_sovereign.Session.Replies.{app_reply_address_replies}
use ledger_sovereign.Session.Simulate.{Matches}
use ledger_sovereign.Session.Simulate.Behaviour.{AllPossible, event-Follows}

-- Behind the key, the screen's text is that of the answer.
text_behind :
    (m n : ℕ) (answer : List ℕ)
    → m ≤ length answer
    → c_string (drop m (answer ++ replicate (suc n) 0)) ≡ c_string (drop m answer)
text_behind zero n [] h = refl
text_behind zero n (zero ∷ answer) h = refl
text_behind zero n (suc x ∷ answer) h =
    ap (λ l. suc x ∷ l) (text_behind zero n answer (omega arith))
text_behind (suc m) n [] h = absurd (omega arith)
text_behind (suc m) n (x ∷ answer) h = text_behind m n answer (omega arith)

module _ {B : Type 0} (p : Platform B) where
  displayed :
      (d : Device B) (answer : List ℕ) (expert : Bool) (i : Item) (k v page : ℕ)
      → Displays answer d
      → k < length i.out_key
      → (shown : Item) × (addr_get_item p expert d 0 i (suc k) v page ≡ (ZxErr.ok, shown))
        × ShowsAddress p i k v page (drop 32 answer) shown
  unfolding addr_get_item
  displayed d answer expert i k v page (key, n, holds) room =
      let same : c_string (drop 32 d.apdu) ≡ c_string (drop 32 answer) =
        ap (λ l. c_string (drop 32 l)) holds ∙ text_behind 32 n answer key in
      (
        address_in p expert d i k v page (drop 32 d.apdu),
        refl,
        address_in-ShowsAddress p expert d i k v page (drop 32 d.apdu) (drop 32 answer) room same,
      )

  module _ (sound : IsSound p) where
    pub run-Matches :
        (events : List Event) (d : Device B) (s : State)
        → Matches p d s
        → AllPossible p events
        → (s' : State) × Matches p (run_events p d events) s'
    unfolding run_events
    run-Matches [] d s m h = (s, m)
    run-Matches (e ∷ events) d s m (one, others) =
        run-Matches events (perform p d e).1 (respond p s e).1 (event-Follows p sound d s e m one).1
          others

    sent_is_shown :
        (d : Device B) (s : State) (now : Moment) (expert : Bool) (i : Item) (k v page : ℕ)
        → Matches p d s
        → d.review ≡ some Review.address
        → k < length i.out_key
        → (answer : List ℕ) × (32 ≤ length answer)
          × (shown : Item) × (addr_get_item p expert d 0 i (suc k) v page ≡ (ZxErr.ok, shown))
          × ShowsAddress p i k v page (drop 32 answer) shown
          × ((app_reply_address p now d).0 ≡ answer ++ 0x90 ∷ 0 ∷ [])
    sent_is_shown d (waiting u) now expert i k v page (steady, idle) on room = cc
    sent_is_shown d (asking_address u answer) now expert i k v page
          ((safe, size, up), _, count, front, inside, displays) on room =
        let said =
          (app_reply_address_replies p now d sound.texts (omega (arith, size, count, inside))).0 in
        let (shown, succeeds, shows) = displayed d answer expert i k v page displays room in
        (
          answer,
          displays.0,
          shown,
          succeeds,
          shows,
          said
              ∙ ap (λ n. take n d.apdu ++ 0x90 ∷ 0 ∷ []) count
              ∙ ap (λ l. l ++ 0x90 ∷ 0 ∷ []) front,
        )
    sent_is_shown d (asking_sign u path message) now expert i k v page
          (steady, other, same_path, bytes) on room =
        cc

    -- The libraries keep to their laws; the device is safe, waits for a command and has an APDU
    -- buffer of the build's size. Commands of one to four bytes, or of a header and at most 255
    -- bytes of payload, and button presses come in any order, each at a moment with a whole key on
    -- the stack and no PIN check that throws a reset of the link. If an address is then under
    -- review, there is an answer of a key of 32 bytes and a text such that approval replies with the
    -- answer and 0x9000, and the first item on the screen, in either mode, shows the text: into a key
    -- output that is larger than the size `k + 1` given it puts as much of `Address` as has room, and
    -- into the value output what pageString makes of the text, up to its NUL, for the page that is
    -- asked for, with its number of pages.
    pub address_sent_is_shown :
        (start : Device B) (events : List Event)
        → IsSafe p start
        → start.review ≡ none
        → length start.apdu ≡ p.apdu_size
        → AllPossible p events
        → (run_events p start events).review ≡ some Review.address
        → (now : Moment) (expert : Bool) (i : Item) (k v page : ℕ) → k < length i.out_key
        → let d = run_events p start events in
          (answer : List ℕ) × (32 ≤ length answer)
          × (shown : Item) × (addr_get_item p expert d 0 i (suc k) v page ≡ (ZxErr.ok, shown))
          × ShowsAddress p i k v page (drop 32 answer) shown
          × ((app_reply_address p now d).0 ≡ answer ++ 0x90 ∷ 0 ∷ [])
    address_sent_is_shown start events safe idle size h on now expert i k v page room =
        let d = run_events p start events in
        let (s, m) =
          run-Matches events start (waiting (upload p start)) ((safe, size, refl), idle) h in
        sent_is_shown d s now expert i k v page m on room
