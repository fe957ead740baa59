-- ===== src/Calls/Safety.antt =====
-- What every request keeps, and what it does to each call.
use telegram.Prelude.{
  eq_nat, eq_string, eq_pair, ◌==◌, if◌then◌else◌, Bool-cases, Option-cases, suc, String, ◌≡◌, refl,
  ◌⊎◌, inl, inr, Bool, true, false, ◌&&◌, ◌||◌, arith,
}
use telegram.Prelude.Dict.{get}
use telegram.Prelude.Text.{is_empty}
use telegram.State.{CallStatus_eq, CallRecord, ringing, accepted, declined, ended, canceled}
use telegram.Calls.{
  CallSessionService, new_call, resolve_user_id_for_device, Request, invites, accepts, declines,
  ends, meets, create_invite, accept, decline, end_call, rendezvous, handle_call,
}
use telegram.Calls.Rules.{Evolves, Allowed, IsValid}
use telegram.Calls.Shapes.{
  revise, placed, Allowed-refl, revise-Allowed, revise-IsValid, placed-Allowed, placed-IsValid,
}

abbrev accept_guard : String → CallRecord → Bool
accept_guard actor c = actor == c.callee_user_id && CallStatus_eq c.state ringing

abbrev accepted_call : String → CallRecord → CallRecord
accepted_call key c = record c {
  state = accepted;
  relay_key_b64 = if is_empty c.relay_key_b64 then key else c.relay_key_b64;
}

abbrev declined_call : CallRecord → CallRecord
declined_call c = record c { state = declined }

abbrev ended_call : CallRecord → CallRecord
ended_call c = record c { state = if CallStatus_eq c.state ringing then canceled else ended }

abbrev end_guard : String → CallRecord → Bool
end_guard actor c =
    (actor == c.caller_user_id || actor == c.callee_user_id)
    && (CallStatus_eq c.state accepted
        || (CallStatus_eq c.state ringing && actor == c.caller_user_id))

module _ (j actor : String) where
  accept-eq-revise :
      (key : String) (s : CallSessionService)
      → (accept j actor key s).1 ≡ revise j (accept_guard actor) (accepted_call key) s
  unfolding accept revise
  accept-eq-revise key s = ground arith

  decline-eq-revise :
      (s : CallSessionService)
      → (decline j actor s).1 ≡ revise j (accept_guard actor) declined_call s
  unfolding decline revise
  decline-eq-revise s = ground arith

  end_call-eq-revise :
      (s : CallSessionService) → (end_call j actor s).1 ≡ revise j (end_guard actor) ended_call s
  unfolding end_call revise
  end_call-eq-revise s = elim (Option-cases (get j s.calls)) [
    | inl e ↦ ground arith
    | inr (c, e) ↦ elim (Bool-cases (actor == c.caller_user_id)) [
      | inl mine ↦ rw (e, end_call, revise, mine) (ground arith)
      | inr other ↦ rw (e, end_call, revise, other) (ground arith)
    ]
  ]

  rendezvous-eq : (s : CallSessionService) → (rendezvous j actor s).1 ≡ s
  unfolding rendezvous
  rendezvous-eq s = ground arith

create-shape :
    (u d v e kind : String) (s : CallSessionService)
    → ((create_invite u d v e kind s).1 ≡ s)
      ⊎ ((callee : String) × ((create_invite u d v e kind s).1
            ≡ placed (new_call s u d callee e kind) s))
unfolding create_invite placed
create-shape u d v e kind s =
    let callee = if is_empty v then resolve_user_id_for_device s.state e else v in
    elim (Bool-cases (kind == "audio" || kind == "video")) [
      | inl a ↦ elim (Bool-cases (is_empty callee)) [
        | inl b ↦ inl (ground arith)
        | inr b ↦ inr (callee, ground arith)
      ]
      | inr a ↦ inl (ground arith)
    ]

-- The randomness that `accept` draws gives a key.
abbrev pub DrawsKey : Request → Type 0
DrawsKey (accepts _ _ key) = is_empty key ≡ false
DrawsKey _ = Unit

accepts-Evolves :
    (actor key : String) (c : CallRecord)
    → accept_guard actor c ≡ true
    → Evolves c (accepted_call key c)
accepts-Evolves actor key c g = ground arith

declines-Evolves :
    (actor : String) (c : CallRecord) → accept_guard actor c ≡ true → Evolves c (declined_call c)
declines-Evolves actor c g = ground arith

ends-Evolves :
    (actor : String) (c : CallRecord) → end_guard actor c ≡ true → Evolves c (ended_call c)
ends-Evolves actor c g = ground arith

-- From a valid service, each request leaves each call as it is or takes it along an arrow of the
-- documented diagram, and from ringing never to ended; the parties and a drawn key stay; a call
-- that appears is ringing, and none is lost or overwritten.
pub handle_call-Allowed :
    (r : Request) (k : String) (s : CallSessionService)
    → IsValid s
    → Allowed (get k s.calls) (get k (handle_call r s).calls)
unfolding handle_call
handle_call-Allowed (invites u d v e kind) k s valid = elim (create-shape u d v e kind s) [
  | inl same ↦ rw same (Allowed-refl (get k s.calls))
  | inr (callee, made) ↦ rw made (
      placed-Allowed (new_call s u d callee e kind) k s (unfold new_call in refl)
        (unfold new_call in valid.unused (suc s.counter) (omega arith)))
]
handle_call-Allowed (accepts j actor key) k s valid =
    rw accept-eq-revise
      (revise-Allowed j (accept_guard actor) (accepted_call key) (accepts-Evolves actor key) k s)
handle_call-Allowed (declines j actor) k s valid =
    rw decline-eq-revise
      (revise-Allowed j (accept_guard actor) declined_call (declines-Evolves actor) k s)
handle_call-Allowed (ends j actor) k s valid =
    rw end_call-eq-revise (revise-Allowed j (end_guard actor) ended_call (ends-Evolves actor) k s)
handle_call-Allowed (meets j actor) k s valid = rw rendezvous-eq (Allowed-refl (get k s.calls))

-- Each request whose drawn key is not empty keeps the service valid: no id above the counter is
-- taken, and an accepted call has a key.
pub handle_call-IsValid :
    (r : Request) (s : CallSessionService) → DrawsKey r → IsValid s → IsValid (handle_call r s)
unfolding handle_call
handle_call-IsValid (invites u d v e kind) s drawn valid = elim (create-shape u d v e kind s) [
  | inl same ↦ rw same valid
  | inr (callee, made) ↦ rw made (placed-IsValid u d callee e kind s valid)
]
handle_call-IsValid (accepts j actor key) s drawn valid = rw accept-eq-revise (
    revise-IsValid j (accept_guard actor) (accepted_call key) (accepts-Evolves actor key)
      (λ c g h. ground arith) s valid)
handle_call-IsValid (declines j actor) s drawn valid = rw decline-eq-revise (
    revise-IsValid j (accept_guard actor) declined_call (declines-Evolves actor) (λ c g h. cc) s
      valid)
handle_call-IsValid (ends j actor) s drawn valid = rw end_call-eq-revise (
    revise-IsValid j (end_guard actor) ended_call (ends-Evolves actor) (λ c g h. ground arith) s
      valid)
handle_call-IsValid (meets j actor) s drawn valid = rw rendezvous-eq valid
