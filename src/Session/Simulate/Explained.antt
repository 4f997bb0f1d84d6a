-- ===== src/Session/Simulate/Explained.antt =====
-- Every step of the machine, against the history of its upload.
use mathlib.Core.Path.{subst}
use ledger_sovereign.Base.{
  ℕ, zero, suc, ◌+◌, ◌≡◌, refl, sym, true, false, ◌&&◌, Option, none, some, List, [], ◌∷◌, ◌++◌,
  ltb, leb, ◌==◌, length, take, arith, Bool-cases, inl, inr,
}
use ledger_sovereign.Base.Memory.{words32}
use ledger_sovereign.Codes.{cla, ins_sign, ins_get_addr, ins_get_version}
use ledger_sovereign.Platform.{Platform}
use ledger_sovereign.Tx.{flash_buffer_size}
use ledger_sovereign.Device.{Moment}
use ledger_sovereign.Codes.Path.{is_ours}
use ledger_sovereign.Apdu.Upload.{Upload, chunk, begin, extend}
use ledger_sovereign.Protocol.{
  answer, sign_answer, message_verdict, found_verdict, pinned, address_of, address_verdict,
}
use ledger_sovereign.Protocol.Machine.{
  Event, command, fragment, approve, reject, State, waiting, asking_address, asking_sign, settle,
  respond,
}
use ledger_sovereign.Session.Simulate.History.{
  unlocked, let_in, IsOther, first, next, other, Delivered, last, later, Explains,
}

module _ {B : Type 0} (p : Platform B) where
  module _ (past : List Event) (e : Event) where
    -- An event that is no chunk leaves the upload.
    other-Explains :
        (u : Upload)
        → IsOther p (let_in p e)
        → Explains p past (waiting u)
        → Explains p (e ∷ past) (waiting u)
    other-Explains none h k = tt
    other-Explains (some (path, part)) h k = other k h

    begin-Explains :
        (payload : List ℕ)
        → let_in p e ≡ some (ins_sign, 0, payload)
        → Explains p (e ∷ past) (settle (sign_answer (begin payload))).1
    begin-Explains payload h = elim (Bool-cases (ltb (length payload) 12)) [
      | inl short ↦ rw short tt
      | inr long ↦ rw long (elim (Bool-cases (is_ours (words32 (take 12 payload)))) [
        | inl ours ↦ rw ours (first payload h (ground arith) ours)
        | inr foreign ↦ rw foreign tt
      ])
    ]

    add-Explains :
        (room : ℕ) (u : Upload) (payload : List ℕ)
        → let_in p e ≡ some (ins_sign, 1, payload)
        → Explains p past (waiting u)
        → Explains p (e ∷ past) (settle (sign_answer (extend room false u payload))).1
    add-Explains room none payload h k = tt
    add-Explains room (some (path, part)) payload h k =
        elim (Bool-cases (leb (length part + length payload) room)) [
          | inl fitting ↦ rw fitting (next payload k h)
          | inr full ↦ rw full tt
        ]

    -- A completed message, empty or not.
    complete-Explains :
        (path message : List ℕ)
        → Delivered p (e ∷ past) path message
        → Explains p (e ∷ past) (settle (none, message_verdict path message)).1
    complete-Explains path [] h = tt
    complete-Explains path (b ∷ message) h = (refl, h)

    last-Explains :
        (room : ℕ) (u : Upload) (payload : List ℕ)
        → let_in p e ≡ some (ins_sign, 2, payload)
        → Explains p past (waiting u)
        → Explains p (e ∷ past) (settle (sign_answer (extend room true u payload))).1
    last-Explains room none payload h k = tt
    last-Explains room (some (path, part)) payload h k =
        elim (Bool-cases (leb (length part + length payload) room)) [
          | inl fitting ↦ rw fitting (complete-Explains path (part ++ payload) (last payload k h))
          | inr full ↦ rw full tt
        ]

    chunk-Explains :
        (room : ℕ) (u : Upload) (p1 : ℕ) (payload : List ℕ)
        → let_in p e ≡ some (ins_sign, p1, payload)
        → Explains p past (waiting u)
        → Explains p (e ∷ past) (settle (sign_answer (chunk room u p1 payload))).1
    chunk-Explains room u zero payload h k = begin-Explains payload h
    chunk-Explains room u (suc zero) payload h k = add-Explains room u payload h k
    chunk-Explains room u (suc (suc zero)) payload h k = last-Explains room u payload h k
    chunk-Explains room u (suc (suc (suc p1))) payload h k =
        let n : ℕ = suc (suc (suc p1)) in
        let not_first : (n == 0) ≡ false = ground arith in
        let not_next : (n == 1) ≡ false = ground arith in
        let not_last : (n == 2) ≡ false = ground arith in
        rw (not_first, not_next, not_last)
          (other-Explains u (subst (IsOther p) (sym h) (refl, omega arith)) k)

    found-Explains :
        (p1 : ℕ) (path : List ℕ) (o : Option (List ℕ))
        → Explains p (e ∷ past) (settle (none, found_verdict p1 path o)).1
    found-Explains p1 path none = tt
    found-Explains p1 path (some shown) = elim (Bool-cases (p1 == 0)) [
      | inl at_once ↦ rw at_once tt
      | inr asks ↦ rw asks refl
    ]

    address-Explains :
        (p1 : ℕ) (payload : List ℕ)
        → Explains p (e ∷ past) (settle (none, address_verdict p p1 payload)).1
    address-Explains p1 payload = elim (Bool-cases (ltb (length payload) 12)) [
      | inl short ↦ rw short tt
      | inr long ↦ rw long (elim (Bool-cases (is_ours (words32 (take 12 payload)))) [
        | inl ours ↦ rw ours (
            found-Explains p1 (words32 (take 12 payload))
              (address_of p (words32 (take 12 payload))))
        | inr foreign ↦ rw foreign tt
      ])
    ]

    pinned_address-Explains :
        (pin : Option ℕ) (u : Upload) (p1 : ℕ) (payload : List ℕ)
        → let_in p e ≡ unlocked pin ins_get_addr p1 payload
        → Explains p past (waiting u)
        → Explains p (e ∷ past) (settle (pinned pin u (none, address_verdict p p1 payload))).1
    pinned_address-Explains none u p1 payload h k = address-Explains p1 payload
    pinned_address-Explains (some code) u p1 payload h k =
        other-Explains u (subst (IsOther p) (sym h) tt) k

    pinned-chunk-Explains :
        (pin : Option ℕ) (u : Upload) (p1 : ℕ) (payload : List ℕ)
        → let_in p e ≡ unlocked pin ins_sign p1 payload
        → Explains p past (waiting u)
        → Explains p
            (e ∷ past)
            (settle
              (pinned pin u (sign_answer (chunk (flash_buffer_size p.target) u p1 payload)))).1
    pinned-chunk-Explains none u p1 payload h k =
        chunk-Explains (flash_buffer_size p.target) u p1 payload h k
    pinned-chunk-Explains (some code) u p1 payload h k =
        other-Explains u (subst (IsOther p) (sym h) tt) k

  command-Explains :
      (past : List Event) (u : Upload) (now : Moment) (class ins p1 p2 l : ℕ) (payload : List ℕ)
      → Explains p past (waiting u)
      → Explains p
          (command now class ins p1 p2 l payload ∷ past)
          (settle (answer p now u class ins p1 payload)).1
  command-Explains past u now class ins p1 p2 l payload k =
      let e : Event = command now class ins p1 p2 l payload in
      elim (Bool-cases (class == cla)) [
        | inr foreign ↦ rw foreign (other-Explains past e u (rw foreign tt) k)
        | inl ours ↦ rw ours (elim (Bool-cases (ltb (5 + length payload) p.apdu_min_length)) [
          | inl short ↦ rw short (other-Explains past e u (rw (ours, short) tt) k)
          | inr long ↦ rw long (elim (Bool-cases (ins == ins_sign)) [
            | inl signs ↦
                let not_version : (ins == ins_get_version) ≡ false = ground arith in
                let not_address : (ins == ins_get_addr) ≡ false = ground arith in
                rw (signs, not_version, not_address)
                  (pinned-chunk-Explains past e now.pin_check u p1 payload
                    (rw (ours, long, signs) refl) k)
            | inr not_sign ↦ rw not_sign (elim (Bool-cases (ins == ins_get_addr)) [
              | inl address ↦
                  let not_version : (ins == ins_get_version) ≡ false = ground arith in
                  rw (address, not_version)
                    (pinned_address-Explains past e now.pin_check u p1 payload
                      (rw (ours, long, not_sign, address) refl) k)
              | inr not_address ↦
                  let nothing : IsOther p (let_in p e) =
                    rw (ours, long, not_sign, not_address) tt in
                  rw not_address (elim (Bool-cases (ins == ins_get_version)) [
                    | inl version ↦ rw version (other-Explains past e u nothing k)
                    | inr not_version ↦
                        rw not_version (elim (Bool-cases (p.testing && ins == p.ins_test)) [
                          | inl tests ↦ rw tests (other-Explains past e u nothing k)
                          | inr unknown ↦ rw unknown (other-Explains past e u nothing k)
                        ])
                  ])
            ])
          ])
        ])
      ]

  pub event-Explains :
      (past : List Event) (s : State) (e : Event)
      → Explains p past s
      → Explains p (e ∷ past) (respond p s e).1
  unfolding respond
  event-Explains past (waiting u) (command now class ins p1 p2 l payload) k =
      command-Explains past u now class ins p1 p2 l payload k
  event-Explains past (waiting u) (fragment now class rest) k =
      other-Explains past (fragment now class rest) u tt k
  event-Explains past (waiting u) (approve now) k = other-Explains past (approve now) u tt k
  event-Explains past (waiting u) (reject now) k = other-Explains past (reject now) u tt k
  event-Explains past (asking_address u shown) (command now class ins p1 p2 l payload) k = k
  event-Explains past (asking_address u shown) (fragment now class rest) k = k
  event-Explains past (asking_address u shown) (approve now) k =
      subst (λ u. Explains p (approve now ∷ past) (waiting u)) (sym k) tt
  event-Explains past (asking_address u shown) (reject now) k =
      subst (λ u. Explains p (reject now ∷ past) (waiting u)) (sym k) tt
  event-Explains past (asking_sign u path message) (command now class ins p1 p2 l payload) k =
      (k.0, later k.1 refl)
  event-Explains past (asking_sign u path message) (fragment now class rest) k =
      (k.0, later k.1 refl)
  event-Explains past (asking_sign u path message) (approve now) k =
      subst (λ u. Explains p (approve now ∷ past) (waiting u)) (sym k.0) tt
  event-Explains past (asking_sign u path message) (reject now) k =
      subst (λ u. Explains p (reject now ∷ past) (waiting u)) (sym k.0) tt
