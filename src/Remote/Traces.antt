-- ===== src/Remote/Traces.antt =====
-- Consequences for any history of requests.
use telegram.Prelude.{
  eq_nat, eq_string, eq_pair, Option-cases, All, String, ◌≡◌, refl, sym, subst, ◌∙◌, ◌≢◌, ◌⊎◌, inl,
  inr, true, false, Option, none, some, List, [], ◌∷◌, arith,
}
use telegram.Prelude.Dict.{get, keys, get-keys}
use telegram.Prelude.Text.{numbered}
use telegram.State.{RemoteSessionRecord, RemoteStatus, awaiting_approval, approved}
use telegram.Remote.{RemoteSessionService, is_terminal, is_active, Request, handle_session}
use telegram.Remote.Rules.{edge, Evolves, Allowed, IsValid}
use telegram.Remote.Safety.{handle_session-Allowed, handle_session-IsValid}
use telegram.Remote.{start_service}
use telegram.Prelude.Text.Number.{next_counter_fresh}
use telegram.State.{InMemoryState, IsSaved}

pub serve_sessions : List (String × Request) → RemoteSessionService → RemoteSessionService
serve_sessions [] s = s
serve_sessions ((actor, r) ∷ rest) s = serve_sessions rest (handle_session actor r s)

-- A service that starts on tables that agree with the state file is valid: its counter is above
-- the number of every stored id.
pub start_service-IsValid : (state : InMemoryState) → IsSaved state → IsValid (start_service state)
unfolding start_service
start_service-IsValid state saved = record {
  unused = λ n h. elim (Option-cases (get (numbered "remote_" n) state.remote_sessions)) [
    | inl e ↦ e
    | inr (c, e) ↦ absurd (
        omega (
          arith,
          next_counter_fresh 0 "remote_" (keys state.remote_sessions) n
              (sym (get-keys (numbered "remote_" n) state.remote_sessions) ∙ ground (arith, e)),
        ))
  ];
  saved = saved;
}

-- A valid service stays valid through any requests of anyone: no id from the counter on is taken, and a
-- configured state file holds the tables as they are.
pub serve_sessions-IsValid :
    (rs : List (String × Request)) (s : RemoteSessionService)
    → IsValid s
    → IsValid (serve_sessions rs s)
unfolding serve_sessions
serve_sessions-IsValid [] s valid = valid
serve_sessions-IsValid ((actor, r) ∷ rs) s valid =
    serve_sessions-IsValid rs (handle_session actor r s) (handle_session-IsValid actor r s valid)

present :
    (a : String) (c : RemoteSessionRecord) (o : Option RemoteSessionRecord)
    → Allowed a (some c) o
    → (d : RemoteSessionRecord) × (o ≡ some d) × Evolves a c d
present a c none h = absurd h
present a c (some d) h = (d, refl, h)

handle_session-present :
    (a : String) (r : Request) (k : String) (s : RemoteSessionService) (c : RemoteSessionRecord)
    → IsValid s
    → get k s.remote_sessions ≡ some c
    → (d : RemoteSessionRecord) × (get k (handle_session a r s).remote_sessions ≡ some d)
      × Evolves a c d
handle_session-present a r k s c valid e =
    present a c (get k (handle_session a r s).remote_sessions) (
      subst (λ o. Allowed a o (get k (handle_session a r s).remote_sessions)) e
        (handle_session-Allowed a r k s valid))

-- What every evolution by an actor of the history keeps holds at its end.
module _ {ℓ} (P : RemoteSessionRecord → Type ℓ) (Q : String → Type 0)
    (kept : (a : String) (c d : RemoteSessionRecord) → Q a → Evolves a c d → P c → P d) where
  serve_sessions-keeps :
      (rs : List (String × Request)) (k : String) (s : RemoteSessionService)
      (c : RemoteSessionRecord)
      → All (λ r. Q r.0) rs
      → IsValid s
      → get k s.remote_sessions ≡ some c
      → P c
      → (d : RemoteSessionRecord) × (get k (serve_sessions rs s).remote_sessions ≡ some d) × P d
  unfolding serve_sessions
  serve_sessions-keeps [] k s c q valid e h = (c, e, h)
  serve_sessions-keeps ((a, r) ∷ rs) k s c q valid e h =
      let (d, e', ev) = handle_session-present a r k s c valid e in
      serve_sessions-keeps rs k (handle_session a r s) d q.1 (handle_session-IsValid a r s valid) e'
        (kept a c d q.0 ev h)

terminal_edge : (a b : RemoteStatus) → is_terminal a ≡ true → edge a b ≡ false
unfolding is_terminal
terminal_edge a b h = ground arith

-- From a valid service, a session that is rejected, cancelled, terminated or disconnected is still
-- there in the same state after any requests of anyone.
pub serve_sessions-terminal :
    (rs : List (String × Request)) (k : String) (s : RemoteSessionService) (c : RemoteSessionRecord)
    → IsValid s
    → get k s.remote_sessions ≡ some c
    → is_terminal c.state ≡ true
    → (d : RemoteSessionRecord) × (get k (serve_sessions rs s).remote_sessions ≡ some d)
      × (d.state ≡ c.state)
serve_sessions-terminal rs k s c valid e over =
    serve_sessions-keeps (λ d. d.state ≡ c.state) (λ _. Unit)
      (λ a b d _ ev p. elim ev.arrow [
        | inl same ↦ same ∙ p
        | inr step ↦
            cc
              (step, terminal_edge b.state d.state (subst (λ x. is_terminal x ≡ true) (sym p) over))
      ])
      rs k s c (always rs) valid e refl
  where
    always : (rs : List (String × Request)) → All (λ r. Unit {0}) rs
    always [] = tt
    always (r ∷ rs) = (tt, always rs)

activates :
    (x y : RemoteStatus)
    → is_active x ≡ false
    → edge x y ≡ true
    → (y ≡ approved) ⊎ (is_active y ≡ false)
unfolding is_active
activates x y h e = ground arith

not_approved : (x : RemoteStatus) → x ≡ approved → ¬ (is_active x ≡ false)
unfolding is_active
not_approved x e h = ground arith

-- From a valid service, while none of the requests is its target's, a session that awaits approval
-- is never in an active state (approved, negotiating, connecting, streaming or controlling) after
-- them.
pub serve_sessions-consent :
    (rs : List (String × Request)) (k : String) (s : RemoteSessionService) (c : RemoteSessionRecord)
    → IsValid s
    → get k s.remote_sessions ≡ some c
    → c.state ≡ awaiting_approval
    → All (λ r. r.0 ≢ c.target_user_id) rs
    → (d : RemoteSessionRecord) × (get k (serve_sessions rs s).remote_sessions ≡ some d)
      × (is_active d.state ≡ false)
serve_sessions-consent rs k s c valid e waits others =
    let (d, e', p) =
      serve_sessions-keeps
        (λ d. (d.target_user_id ≡ c.target_user_id) × (is_active d.state ≡ false))
        (λ a. a ≢ c.target_user_id) inactive rs k s c others valid e
        (refl, subst (λ x. is_active x ≡ false) (sym waits) (unfold is_active in refl)) in
    (d, e', p.1)
  where
    inactive :
        (a : String) (b d : RemoteSessionRecord)
        → a ≢ c.target_user_id
        → Evolves a b d
        → (b.target_user_id ≡ c.target_user_id) × (is_active b.state ≡ false)
        → (d.target_user_id ≡ c.target_user_id) × (is_active d.state ≡ false)
    inactive a b d other ev p = (
      ev.target ∙ p.0,
      elim ev.arrow [
        | inl same ↦ subst (λ x. is_active x ≡ false) (sym same) p.1
        | inr step ↦ elim (activates b.state d.state p.1 step) [
          | inl consented ↦
              absurd (other (ev.consent consented (λ q. not_approved b.state q p.1) ∙ p.0))
          | inr idle ↦ idle
        ]
      ],
    )
