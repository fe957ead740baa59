-- ===== src/Calls/Traces.antt =====
-- Consequences for any history of requests.
use telegram.Prelude.{
  eq_nat, eq_string, eq_pair, ==_iff, All, String, ◌≡◌, refl, sym, subst, ◌∙◌, ◌↔◌, true, false,
  Option, none, some, List, [], ◌∷◌, arith,
}
use telegram.Prelude.Dict.{get}
use telegram.Prelude.Exec.{IsOk, ok, IsOk}
use telegram.Prelude.Text.{is_empty}
use telegram.State.{CallRecord, CallStatus, ringing, accepted}
use telegram.Calls.{
  CallSessionService, CallRendezvousInfoPayload, is_terminal, Request, accept, rendezvous,
  handle_call, serve_calls,
}
use telegram.Calls.Rules.{edge, Evolves, Allowed, IsValid}
use telegram.Calls.Safety.{DrawsKey, handle_call-Allowed, handle_call-IsValid}

pub serve_calls-IsValid :
    (rs : List Request) (s : CallSessionService)
    → All DrawsKey rs
    → IsValid s
    → IsValid (serve_calls rs s)
unfolding serve_calls
serve_calls-IsValid [] s drawn valid = valid
serve_calls-IsValid (r ∷ rs) s drawn valid =
    serve_calls-IsValid rs (handle_call r s) drawn.1 (handle_call-IsValid r s drawn.0 valid)

present :
    (c : CallRecord) (o : Option CallRecord)
    → Allowed (some c) o
    → (d : CallRecord) × (o ≡ some d) × Evolves c d
present c none h = absurd h
present c (some d) h = (d, refl, h)

handle_call-present :
    (r : Request) (k : String) (s : CallSessionService) (c : CallRecord)
    → IsValid s
    → get k s.calls ≡ some c
    → (d : CallRecord) × (get k (handle_call r s).calls ≡ some d) × Evolves c d
handle_call-present r k s c valid e =
    present c (get k (handle_call r s).calls)
      (subst (λ o. Allowed o (get k (handle_call r s).calls)) e (handle_call-Allowed r k s valid))

-- A property of a call that every evolution keeps holds after any history.
module _ {ℓ} (P : CallRecord → Type ℓ) (kept : (c d : CallRecord) → Evolves c d → P c → P d) where
  serve_calls-keeps :
      (rs : List Request) (k : String) (s : CallSessionService) (c : CallRecord)
      → All DrawsKey rs
      → IsValid s
      → get k s.calls ≡ some c
      → P c
      → (d : CallRecord) × (get k (serve_calls rs s).calls ≡ some d) × P d
  unfolding serve_calls
  serve_calls-keeps [] k s c drawn valid e h = (c, e, h)
  serve_calls-keeps (r ∷ rs) k s c drawn valid e h =
      let (d, e', ev) = handle_call-present r k s c valid e in
      serve_calls-keeps rs k (handle_call r s) d drawn.1 (handle_call-IsValid r s drawn.0 valid) e'
        (kept c d ev h)

terminal_edge : (a b : CallStatus) → is_terminal a ≡ true → edge a b ≡ true → b ≡ a
unfolding is_terminal
terminal_edge a b h e = ground arith

-- From a valid service, a call that is declined, ended or canceled is still there in the same
-- state after any requests whose drawn keys are not empty.
pub serve_calls-terminal :
    (rs : List Request) (k : String) (s : CallSessionService) (c : CallRecord)
    → All DrawsKey rs
    → IsValid s
    → get k s.calls ≡ some c
    → is_terminal c.state ≡ true
    → (d : CallRecord) × (get k (serve_calls rs s).calls ≡ some d) × (d.state ≡ c.state)
serve_calls-terminal rs k s c drawn valid e h =
    serve_calls-keeps (λ d. d.state ≡ c.state)
      (λ a b ev p.
        terminal_edge a.state b.state (subst (λ x. is_terminal x ≡ true) (sym p) h) ev.arrow ∙ p)
      rs k s c drawn valid e refl

rendezvous_key :
    (k actor : String) (s : CallSessionService) (d : CallRecord) (info : CallRendezvousInfoPayload)
    → get k s.calls ≡ some d
    → (rendezvous k actor s).0 ≡ ok info
    → info.relay_key_b64 ≡ d.relay_key_b64
unfolding rendezvous
rendezvous_key k actor s d info e h = ground arith

-- From a valid service where a call is accepted, after any further requests whose drawn keys are
-- not empty, every rendezvous that succeeds is answered with the key of that call, and this key is
-- not empty.
pub rendezvous_agrees :
    (rs : List Request) (k actor : String) (s : CallSessionService) (c : CallRecord)
    (info : CallRendezvousInfoPayload)
    → All DrawsKey rs
    → IsValid s
    → get k s.calls ≡ some c
    → c.state ≡ accepted
    → (rendezvous k actor (serve_calls rs s)).0 ≡ ok info
    → (info.relay_key_b64 ≡ c.relay_key_b64) × (is_empty info.relay_key_b64 ≡ false)
rendezvous_agrees rs k actor s c info drawn valid e acc h =
    let keyed = valid.keyed k c e acc in
    let (d, e', same) =
      serve_calls-keeps (λ d. d.relay_key_b64 ≡ c.relay_key_b64)
        (λ a b ev p. ev.key (subst (λ x. is_empty x ≡ false) (sym p) keyed) ∙ p) rs k s c drawn
        valid e refl in
    let key = rendezvous_key k actor (serve_calls rs s) d info e' h ∙ same in
    (key, subst (λ x. is_empty x ≡ false) (sym key) keyed)

-- For a call in the table, `accept` succeeds exactly when the actor is its callee and it is
-- ringing.
pub accept-IsOk_iff :
    (k actor key : String) (s : CallSessionService) (c : CallRecord)
    → get k s.calls ≡ some c
    → IsOk (accept k actor key s).0 ↔ ((actor ≡ c.callee_user_id) × (c.state ≡ ringing))
unfolding accept
accept-IsOk_iff k actor key s c e = (
  λ h. ground (arith, ==_iff actor c.callee_user_id),
  λ h. ground (arith, ==_iff actor c.callee_user_id),
)
