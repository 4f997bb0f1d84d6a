-- ===== src/Session/Simulate/Behaviour.antt =====
-- The behaviour of the whole application: every sequence of events.
use mathlib.Core.Path.{subst}
use ledger_sovereign.Base.{
  ◌≡◌, refl, ap, sym, none, some, List, [], ◌∷◌, length, false, if◌then◌else◌,
}
use ledger_sovereign.Platform.{Platform}
use ledger_sovereign.Tx.{tx_get_buffer}
use ledger_sovereign.Device.{Review, Device}
use ledger_sovereign.Protocol.Laws.{IsSound}
use ledger_sovereign.Protocol.Machine.{
  Event, command, fragment, approve, reject, State, waiting, asking_address, asking_sign, respond,
  respond_all,
}
use ledger_sovereign.Session.Trace.{perform_at, perform, perform_all}
use ledger_sovereign.Session.Simulate.{Matches, Possible, Follows}
use ledger_sovereign.Session.Simulate.Commands.{command-Follows, fragment-Follows}
use ledger_sovereign.Session.Simulate.Buttons.{reject-Follows, address-Follows, sign-Follows}

-- The device with no upload and no review waits for a command.
pub start-Matches :
    {B : Type 0} (p : Platform B) (start : Device B)
    → start.tx_initialized ≡ false
    → start.review ≡ none
    → length start.apdu ≡ p.apdu_size
    → Matches p start (waiting none)
start-Matches p start off idle size = (
  (
    (λ e. cc, λ e. cc, λ e. cc),
    size,
    ap (λ b. if b then some (start.hd_path, tx_get_buffer p.buffering start.txs) else none) off,
  ),
  idle,
)

-- Events that can happen.
abbrev pub AllPossible : {B : Type 0} → Platform B → List Event → Type 0
AllPossible p [] = Unit {0}
AllPossible p (e ∷ events) = Possible p e × AllPossible p events

module _ {B : Type 0} (p : Platform B) (sound : IsSound p) where
  -- Every event, by what is on the screen.
  pub event-Follows :
      (d : Device B) (s : State) (e : Event)
      → Matches p d s
      → Possible p e
      → Follows p (perform p d e) (respond p s e)
  unfolding perform respond
  event-Follows d (waiting u) e (steady, idle) h =
      subst (λ r. Follows p (perform_at p r d e) (respond p (waiting u) e)) (sym idle)
        (waiting_case e h)
    where
      waiting_case :
          (e : Event) → Possible p e → Follows p (perform_at p none d e) (respond p (waiting u) e)
      waiting_case (command now class ins p1 p2 l payload) (short, usual) =
          command-Follows p sound u d now class ins p1 p2 l payload steady idle short usual
      waiting_case (fragment now class rest) (short, usual) =
          fragment-Follows p sound u d now class rest steady idle short
      waiting_case (approve now) usual = (refl, (steady, idle))
      waiting_case (reject now) usual = (refl, (steady, idle))
  event-Follows d (asking_address u shown) e m h =
      subst (λ r. Follows p (perform_at p r d e) (respond p (asking_address u shown) e)) (sym m.1)
        (address_case e h)
    where
      address_case :
          (e : Event)
          → Possible p e
          → Follows p
              (perform_at p (some Review.address) d e)
              (respond p (asking_address u shown) e)
      address_case (command now class ins p1 p2 l payload) usual = (refl, m)
      address_case (fragment now class rest) h = (refl, m)
      address_case (approve now) usual = address-Follows p sound u d now shown m
      address_case (reject now) usual = reject-Follows p sound u d now m.0
  event-Follows d (asking_sign u path message) e m h =
      subst (λ r. Follows p (perform_at p r d e) (respond p (asking_sign u path message) e))
        (sym m.1) (sign_case e h)
    where
      sign_case :
          (e : Event)
          → Possible p e
          → Follows p
              (perform_at p (some Review.transaction) d e)
              (respond p (asking_sign u path message) e)
      sign_case (command now class ins p1 p2 l payload) usual = (refl, m)
      sign_case (fragment now class rest) h = (refl, m)
      sign_case (approve now) usual = sign-Follows p sound u d now path message m usual
      sign_case (reject now) usual = reject-Follows p sound u d now m.0

  all-Follows :
      (events : List Event) (d : Device B) (s : State)
      → Matches p d s
      → AllPossible p events
      → perform_all p d events ≡ respond_all p s events
  unfolding perform_all respond_all
  all-Follows [] d s m h = refl
  all-Follows (e ∷ events) d s m (one, others) =
      let (same, m') = event-Follows d s e m one in
      λ i. same i ∷ all-Follows events (perform p d e).1 (respond p s e).1 m' others i

  -- The application and the specification have the same behaviour. The libraries keep to their
  -- laws; the device starts with no upload, no review and an APDU buffer of the build's size.
  -- Commands of one to four bytes, or of five header bytes and at most 255 bytes of payload, and
  -- button presses come in any order, each at a moment with a whole key on the stack and with no
  -- PIN check that throws a reset of the link. Then the replies that the device sends are, one by
  -- one, those of the machine that waits for a command or for the user and has no buffers.
  pub device_is_machine :
      (start : Device B) (events : List Event)
      → start.tx_initialized ≡ false
      → start.review ≡ none
      → length start.apdu ≡ p.apdu_size
      → AllPossible p events
      → perform_all p start events ≡ respond_all p (waiting none) events
  device_is_machine start events off idle size h =
      all-Follows events start (waiting none) (start-Matches p start off idle size) h
