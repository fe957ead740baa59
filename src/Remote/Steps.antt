-- ===== src/Remote/Steps.antt =====
-- Each request of remote_session.py as writes of the two shapes, and what each write may do.
use telegram.Prelude.{
  eq_nat, eq_string, eq_pair, ◌==◌, ==_iff, Bool-cases, Option-cases, String, ◌≡◌, subst, ◌⊎◌, inl,
  inr, Bool, true, not, ◌&&◌, Option, none, some, arith,
}
use telegram.Prelude.Dict.{get, get-put, get-put_self}
use telegram.Prelude.Text.{is_empty}
use telegram.State.{
  RemoteSessionRecord, RemoteStatus, RemoteStatus_eq, awaiting_approval, approved, rejected,
  cancelled, terminated, disconnected, negotiating,
}
use telegram.Remote.{
  RemoteSessionService, persist_remote_session, is_participant, is_terminal, is_active,
  create_invite, approve, reject, cancel, terminate, request_rendezvous, disconnect,
}
use telegram.Remote.Rules.{Evolves, Allowed}
use telegram.Remote.Shapes.{revise, placed}

abbrev pub consent_guard : String → RemoteSessionRecord → Bool
consent_guard actor r = r.target_user_id == actor && RemoteStatus_eq r.state awaiting_approval

abbrev pub approved_session : RemoteSessionRecord → RemoteSessionRecord
approved_session r = record r {
  state = approved;
  relay_region = "us-west";
  relay_endpoint = "relay-usw.example.internal:5000";
}

abbrev pub with_state : RemoteStatus → RemoteSessionRecord → RemoteSessionRecord
with_state st r = record r { state = st }

abbrev pub open_guard : String → RemoteSessionRecord → Bool
open_guard actor r = is_participant actor r && not (is_terminal r.state)

abbrev pub active_guard : String → RemoteSessionRecord → Bool
active_guard actor r = is_participant actor r && is_active r.state

abbrev pub negotiate_guard : String → RemoteSessionRecord → Bool
negotiate_guard actor r = is_participant actor r && RemoteStatus_eq r.state approved

abbrev pub mint_guard : String → RemoteSessionRecord → Bool
mint_guard actor r =
    is_participant actor r && (RemoteStatus_eq r.state negotiating && is_empty r.relay_key_b64)

abbrev pub with_key : String → RemoteSessionRecord → RemoteSessionRecord
with_key key r = record r { relay_key_b64 = key }

module _ (j actor : String) (s : RemoteSessionService) where
  pub approve-eq-revise : (approve j actor s).1 ≡ revise j (consent_guard actor) approved_session s
  unfolding approve revise
  approve-eq-revise = ground arith

  pub reject-eq-revise :
      (reject j actor s).1 ≡ revise j (consent_guard actor) (with_state rejected) s
  unfolding reject revise
  reject-eq-revise = ground arith

  pub cancel-eq-revise : (cancel j actor s).1 ≡ revise j (open_guard actor) (with_state cancelled) s
  unfolding cancel revise
  cancel-eq-revise = ground arith

  pub terminate-eq-revise :
      (terminate j actor s).1 ≡ revise j (active_guard actor) (with_state terminated) s
  unfolding terminate revise
  terminate-eq-revise = ground arith

  pub disconnect-eq-revise :
      (reason : String)
      → (disconnect j actor reason s).1 ≡ revise j (active_guard actor) (with_state disconnected) s
  unfolding disconnect revise
  disconnect-eq-revise reason = ground arith

  -- the shapes of the two writes
  pub rendezvous-eq-revise :
      (key : String)
      → (request_rendezvous j actor key s).1
        ≡ revise j
            (mint_guard actor)
            (with_key key)
            (revise j (negotiate_guard actor) (with_state negotiating) s)
  unfolding request_rendezvous revise
  rendezvous-eq-revise key = elim (Option-cases (get j s.remote_sessions)) [
    | inl e ↦ rw (e, request_rendezvous, revise) (ground arith)
    | inr (c, e) ↦ ground (arith, e, get-put_self j (with_state negotiating c) s.remote_sessions)
  ]

module _ (actor : String) (c : RemoteSessionRecord) where
  pub approves-Evolves : consent_guard actor c ≡ true → Evolves actor c (approved_session c)
  approves-Evolves g = ground (arith, ==_iff c.target_user_id actor)

  pub rejects-Evolves : consent_guard actor c ≡ true → Evolves actor c (with_state rejected c)
  rejects-Evolves g = ground (arith, ==_iff c.target_user_id actor)

  pub cancels-Evolves : open_guard actor c ≡ true → Evolves actor c (with_state cancelled c)
  unfolding is_terminal
  cancels-Evolves g = ground arith

  pub terminates-Evolves : active_guard actor c ≡ true → Evolves actor c (with_state terminated c)
  unfolding is_active
  terminates-Evolves g = ground arith

  pub disconnects-Evolves :
      active_guard actor c ≡ true → Evolves actor c (with_state disconnected c)
  unfolding is_active
  disconnects-Evolves g = ground arith

  pub negotiates-Evolves :
      negotiate_guard actor c ≡ true → Evolves actor c (with_state negotiating c)
  negotiates-Evolves g = ground arith

  -- a key is minted only where there is none, and nothing else changes
  mints-Evolves :
      (b : RemoteSessionRecord) (key : String)
      → Evolves actor b c
      → mint_guard actor c ≡ true
      → Evolves actor b (with_key key c)
  mints-Evolves b key ev g = ground arith

-- The second write of a rendezvous, seen from the table before the first.
module _ (j a key : String) where
  mint-Allowed :
      (o p : Option RemoteSessionRecord) (c : RemoteSessionRecord)
      → p ≡ some c
      → mint_guard a c ≡ true
      → Allowed a o p
      → Allowed a o (some (with_key key c))
  mint-Allowed none p c e g h = ground (arith, e, g, h)
  mint-Allowed (some b) none c e g h = absurd h
  mint-Allowed (some b) (some d) c e g h =
      mints-Evolves a c b key (subst (Allowed a (some b)) e h) g

  pub mint_step :
      (o : Option RemoteSessionRecord) (k : String) (s : RemoteSessionService)
      → Allowed a o (get k s.remote_sessions)
      → Allowed a o (get k (revise j (mint_guard a) (with_key key) s).remote_sessions)
  unfolding revise persist_remote_session
  mint_step o k s h = elim (Option-cases (get j s.remote_sessions)) [
    | inl e ↦ rw (e, revise) h
    | inr (c, e) ↦ elim (Bool-cases (mint_guard a c)) [
      | inr fails ↦ rw (e, revise, fails) h
      | inl passes ↦ elim (Bool-cases (j == k)) [
        | inr other ↦
            rw (e, revise, passes, get-put j k (with_key key c) s.remote_sessions, other) h
        | inl same ↦
            let same' : j ≡ k = (==_iff j k).0 same in
            rw (e, revise, passes, ← same', get-put_self j (with_key key c) s.remote_sessions)
              (mint-Allowed o (get k s.remote_sessions) c
                (subst (λ x. get x s.remote_sessions ≡ some c) same' e) passes h)
      ]
    ]
  ]

pub create-shape :
    (u d e : String) (s : RemoteSessionService)
    → ((create_invite u d e s).1 ≡ s)
      ⊎ ((v : String) × ((create_invite u d e s).1 ≡ placed u d v e s))
unfolding create_invite placed
create-shape u d e s = elim (Option-cases (get d s.devices)) [
  | inl a ↦ inl (ground arith)
  | inr (own, a) ↦ elim (Option-cases (get e s.devices)) [
    | inl b ↦ inl (ground arith)
    | inr (target, b) ↦ elim (Bool-cases (own.user_id == u)) [
      | inr c ↦ inl (ground arith)
      | inl c ↦ elim (Bool-cases (target.user_id == u)) [
        | inl f ↦ inl (ground arith)
        | inr f ↦ inr (target.user_id, ground arith)
      ]
    ]
  ]
]
