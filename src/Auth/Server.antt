-- ===== src/Auth/Server.antt =====
-- The two services that open sessions, `AuthService` and `PhoneOtpService`, on one state.
use telegram.Prelude.{
  eq_nat, eq_string, eq_pair, ℕ, String, ◌≡◌, refl, sym, ap, ◌∙◌, ◌⊎◌, inl, inr, Bool, some, List,
  [], ◌∷◌,
}
use telegram.Prelude.Dict.{Dict, get}
use telegram.State.{SessionRecord, InMemoryState}
use telegram.PhoneOtp.{OtpRecord, PhoneOtpService, Request, asks, verifies, verify_code, handle}
use telegram.PhoneOtp.Sessions.{GivesOut, verify_code-LeavesAlone, request_code-state}
use telegram.Auth.{AuthService, start_auth}
use telegram.Auth.Sessions.{
  AuthRequest, IsKnown, IsGivenOut, Stands, Change-Stands, Change-IsKnown, Change-IsGivenOut,
  start-IsKnown, perform_auth, perform-Change,
}

-- The tables are those of `auth`.
pub record Server : Type 0 where
  pub auth : AuthService
  pub codes : Dict String OtpRecord
  pub outbox : List (String × String)

abbrev pub phones : Server → PhoneOtpService
phones s = record { state = s.auth.state; codes = s.codes; outbox = s.outbox }

abbrev with_phones : PhoneOtpService → Server → Server
with_phones p s = record {
  auth = record s.auth { state = p.state };
  codes = p.codes;
  outbox = p.outbox;
}

abbrev pub start_server : ℕ → InMemoryState → Server
start_server ttl tables = record { auth = start_auth ttl tables; codes = []; outbox = [] }

pub data ServerRequest : Type 0 where
  by_password : AuthRequest → ServerRequest
  by_phone : Request → ServerRequest

module _ (verify_password : String → String → Bool) (hash_password lower : String → String)
    (is_e164 : String → Bool) (digits_of : String → String) where
  unfoldable pub handle_server : ServerRequest → Server → Server
  handle_server (by_password r) s = record s {
    auth = perform_auth verify_password hash_password lower r s.auth;
  }
  handle_server (by_phone r) s = with_phones (handle is_e164 digits_of r (phones s)) s

  unfoldable pub serve_server : List ServerRequest → Server → Server
  unfolding handle_server
  serve_server [] s = s
  serve_server (r ∷ rest) s = serve_server rest (handle_server r s)

  -- A login by phone answers with the session id.
  abbrev TakesNow : String → ServerRequest → Server → Type 0
  TakesNow id (by_password r) s = ⊥
  TakesNow id (by_phone (asks phone code now)) s = ⊥
  TakesNow id (by_phone (verifies phone code name device now drawn)) s =
      GivesOut id (verify_code is_e164 digits_of phone code name device now drawn (phones s)).0

  -- So does one of the logins of a run.
  abbrev pub IsTaken : String → List ServerRequest → Server → Type 0
  IsTaken id [] s = ⊥
  IsTaken id (r ∷ rest) s = TakesNow id r s ⊎ IsTaken id rest (handle_server r s)

  phone-get :
      (id : String) (r : Request) (s : Server)
      → TakesNow id (by_phone r) s
        ⊎ (get id (handle is_e164 digits_of r (phones s)).state.sessions
            ≡ get id s.auth.state.sessions)
  unfolding handle
  phone-get id (asks phone code now) s = inr (
      ap (λ (t : InMemoryState). get id t.sessions)
        (request_code-state is_e164 phone code now (phones s)))
  phone-get id (verifies phone code name device now drawn) s =
      verify_code-LeavesAlone is_e164 digits_of id phone code name device now drawn (phones s)

  step-IsKnown :
      (id : String) (r : ServerRequest) (s : Server)
      → IsKnown id s.auth
      → TakesNow id r s ⊎ IsKnown id (handle_server r s).auth
  unfolding handle_server
  step-IsKnown id (by_password r) s v =
      inr
        (Change-IsKnown id s.auth _ v (perform-Change verify_password hash_password lower r s.auth))
  step-IsKnown id (by_phone r) s v = elim (phone-get id r s) [
    | inl taken ↦ inl taken
    | inr same ↦ inr (λ n x e h. v n x e (sym same ∙ h))
  ]

  serve-IsKnown :
      (rs : List ServerRequest) (id : String) (s : Server)
      → IsKnown id s.auth
      → IsTaken id rs s ⊎ IsKnown id (serve_server rs s).auth
  unfolding serve_server
  serve-IsKnown [] id s v = inr v
  serve-IsKnown (r ∷ rs) id s v = elim (step-IsKnown id r s v) [
    | inl taken ↦ inl (inl taken)
    | inr known ↦ elim (serve-IsKnown rs id (handle_server r s) known) [
      | inl later ↦ inl (inr later)
      | inr after ↦ inr after
    ]
  ]

  step-Stands :
      (id : String) (r : ServerRequest) (s : Server)
      → IsGivenOut id s.auth
      → TakesNow id r s ⊎ Stands id s.auth (handle_server r s).auth
  unfolding handle_server
  step-Stands id (by_password r) s known = inr (
      Change-Stands id s.auth _ known (perform-Change verify_password hash_password lower r s.auth))
  step-Stands id (by_phone r) s known = elim (phone-get id r s) [
    | inl taken ↦ inl taken
    | inr same ↦ inr (inl same)
  ]

  step-IsGivenOut :
      (id : String) (r : ServerRequest) (s : Server)
      → IsGivenOut id s.auth
      → IsGivenOut id (handle_server r s).auth
  unfolding handle_server
  step-IsGivenOut id (by_password r) s known =
      Change-IsGivenOut id s.auth _ known
        (perform-Change verify_password hash_password lower r s.auth)
  step-IsGivenOut id (by_phone r) s known = known

  serve-Stands :
      (rs : List ServerRequest) (id : String) (s : Server)
      → IsGivenOut id s.auth
      → IsTaken id rs s ⊎ Stands id s.auth (serve_server rs s).auth
  unfolding serve_server
  serve-Stands [] id s known = inr (inl refl)
  serve-Stands (r ∷ rs) id s known = elim (step-Stands id r s known) [
    | inl taken ↦ inl (inl taken)
    | inr first ↦ elim (serve-Stands rs id (handle_server r s) (step-IsGivenOut id r s known)) [
      | inl later ↦ inl (inr later)
      | inr (inr gone) ↦ inr (inr gone)
      | inr (inl same) ↦ elim first [
        | inl before ↦ inr (inl (same ∙ before))
        | inr gone ↦ inr (inr (same ∙ gone))
      ]
    ]
  ]

  -- A server starts on any tables and serves any requests of the two services that open sessions:
  -- logins and registrations by password, requests for codes and logins by phone, and lookups of
  -- sessions. A session that it then has, and whose id no login by phone has been given so far, is
  -- after any further requests the same session of the same user on the same device, or it is gone,
  -- or a further login by phone was given its id: no login by password and no registration takes it.
  pub serve_server-Stands :
      (ttl : ℕ) (tables : InMemoryState) (past later : List ServerRequest) (id : String)
      (r : SessionRecord)
      → ¬ IsTaken id past (start_server ttl tables)
      → get id (serve_server past (start_server ttl tables)).auth.state.sessions ≡ some r
      → let s = serve_server past (start_server ttl tables) in
        IsTaken id later s ⊎ Stands id s.auth (serve_server later s).auth
  serve_server-Stands ttl tables past later id r own h =
      let s = serve_server past (start_server ttl tables) in
      elim (serve-IsKnown past id (start_server ttl tables) (start-IsKnown id ttl tables)) [
        | inl taken ↦ absurd (own taken)
        | inr known ↦ serve-Stands later id s (λ n e. known n r e h)
      ]
