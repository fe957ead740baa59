-- ===== src/Auth/Sessions.antt =====
-- What a request makes of the sessions.
use telegram.Prelude.{
  eq_nat, eq_string, eq_pair, ◌==◌, ==_iff, leb, Bool-cases, any, elem, true, ℕ, ◌+◌, ◌<◌, String,
  ◌≡◌, refl, sym, ap, subst, ◌∙◌, ◌≢◌, ◌⊎◌, inl, inr, Bool, not, none, some, arith,
}
use telegram.Prelude.Dict.{get, put, pop, has, keys, values, get-put, get-pop, get-put_ne, get-keys}
use telegram.Prelude.Exec.{Result}
use telegram.Prelude.Text.{codes, numbered, numbered_injective, strip, is_empty, text_length}
use telegram.Prelude.Text.Number.{next_counter_fresh}
use telegram.State.{SessionRecord, InMemoryState, save_runtime_state}
use telegram.Prelude.Exec.Guards.{past_guard, past_value}
use telegram.Auth.{
  new_session, same_name, min_password_length, matches_pattern, AuthService, login, register,
  resolve_session, open_session, evict_session, find_user, belongs_to_other, is_expired, start_auth,
}

-- The moves of clients on the service.
pub data AuthRequest : Type 0 where
  logs_in : ℕ → (username password device_id : String) → AuthRequest
  registers :
      ℕ → (username password display_name device_id device_label platform : String) → AuthRequest
  resolves : ℕ → (session_id : String) → AuthRequest

-- A session with the id, where there is one, has a number that the counter has given out.
abbrev pub IsKnown : String → AuthService → Type 0
IsKnown id s =
    (n : ℕ) (r : SessionRecord)
    → id ≡ numbered "sess_" n
    → get id s.state.sessions ≡ some r
    → n < s.session_counter

-- The changes of the sessions.
pub data Change (s t : AuthService) : Type 0 where
  kept : t.state.sessions ≡ s.state.sessions → t.session_counter ≡ s.session_counter → Change s t
  opened :
      (r : SessionRecord)
      → t.state.sessions ≡ put (numbered "sess_" s.session_counter) r s.state.sessions
      → t.session_counter ≡ s.session_counter + 1
      → Change s t
  evicted :
      (id : String)
      → t.state.sessions ≡ pop id s.state.sessions
      → t.session_counter ≡ s.session_counter
      → Change s t

-- The id is none that the counter will give out.
abbrev pub IsGivenOut : String → AuthService → Type 0
IsGivenOut id s = (n : ℕ) → id ≡ numbered "sess_" n → n < s.session_counter

-- What has become of a session: nothing, or it is gone.
abbrev pub Stands : String → AuthService → AuthService → Type 0
Stands id s t =
    (get id t.state.sessions ≡ get id s.state.sessions) ⊎ (get id t.state.sessions ≡ none)

pub Change-Stands : (id : String) (s t : AuthService) → IsGivenOut id s → Change s t → Stands id s t
Change-Stands id s t known (kept same n) = inl (ap (get id) same)
Change-Stands id s t known (opened x same n) =
    let new : numbered "sess_" s.session_counter ≢ id =
      λ e. absurd (omega (arith, known s.session_counter (sym e))) in
    inl
      (ap (get id) same ∙ get-put_ne (numbered "sess_" s.session_counter) id x s.state.sessions new)
Change-Stands id s t known (evicted j same n) = elim (Bool-cases (j == id)) [
  | inl here ↦ inr (ap (get id) same ∙ get-pop j id s.state.sessions ∙ rw here refl)
  | inr there ↦ inl (ap (get id) same ∙ get-pop j id s.state.sessions ∙ rw there refl)
]

pub Change-IsGivenOut :
    (id : String) (s t : AuthService) → IsGivenOut id s → Change s t → IsGivenOut id t
Change-IsGivenOut id s t known (kept same m) n e = omega (arith, m, known n e)
Change-IsGivenOut id s t known (opened x same m) n e = omega (arith, m, known n e)
Change-IsGivenOut id s t known (evicted j same m) n e = omega (arith, m, known n e)

pub Change-IsKnown : (id : String) (s t : AuthService) → IsKnown id s → Change s t → IsKnown id t
Change-IsKnown id s t v (kept same m) n r e h =
    omega (arith, m, v n r e (sym (ap (get id) same) ∙ h))
Change-IsKnown id s t v (opened x same m) n r e h =
    elim (Bool-cases (numbered "sess_" s.session_counter == id)) [
      | inl here ↦
          let equal = numbered_injective "sess_" _ _ ((==_iff _ _).0 here ∙ e) in
          omega (arith, m, equal)
      | inr there ↦
          let before : get id (put (numbered "sess_" s.session_counter) x s.state.sessions)
              ≡ get id s.state.sessions =
            get-put (numbered "sess_" s.session_counter) id x s.state.sessions ∙ rw there refl in
          omega (arith, m, v n r e (sym before ∙ sym (ap (get id) same) ∙ h))
    ]
Change-IsKnown id s t v (evicted j same m) n r e h = elim (Bool-cases (j == id)) [
  | inl here ↦
      let gone : get id (pop j s.state.sessions) ≡ none =
        get-pop j id s.state.sessions ∙ rw here refl in
      absurd (cc (ap (get id) same, gone, h))
  | inr there ↦
      let before : get id (pop j s.state.sessions) ≡ get id s.state.sessions =
        get-pop j id s.state.sessions ∙ rw there refl in
      omega (arith, m, v n r e (sym before ∙ sym (ap (get id) same) ∙ h))
]

module _ (s : AuthService) where
  abbrev Good : {A : Type 0} → Result A × AuthService → Type 0
  Good o = Change s o.1

  stay : {A : Type 0} → A → Change s s
  stay e = kept refl refl

  opened-Change :
      (now : ℕ) (user_id device_id : String) (t : AuthService)
      → t.state.sessions ≡ s.state.sessions
      → t.session_counter ≡ s.session_counter
      → Change s (open_session now user_id device_id t)
  unfolding open_session save_runtime_state
  opened-Change now user_id device_id t same n =
      let session = new_session (numbered "sess_" t.session_counter) user_id device_id now in
      opened session
        (ap (λ k. put (numbered "sess_" k) session t.state.sessions) n
          ∙ ap (put (numbered "sess_" s.session_counter) session) same)
        (ap (λ k. k + 1) n)

  login-Change :
      (verify_password : String → String → Bool) (now : ℕ) (username password device_id : String)
      → Change s (login verify_password now username password device_id s).1
  unfolding login
  login-Change verify_password now username password device_id =
      past_value Good s (find_user username (values s.state.users)) _ _ stay λ user found.
        past_guard Good s (verify_password password user.password_hash) _ _ stay λ right.
          past_guard Good s (not (belongs_to_other user.user_id (get device_id s.state.devices))) _
            _ stay λ own. opened-Change now user.user_id device_id _ refl refl

  register-Change :
      (hash_password lower : String → String) (now : ℕ)
      → (username password display_name device_id device_label platform : String)
      → Change s
          (register hash_password lower now username password display_name device_id device_label
            platform s).1
  unfolding register
  register-Change hash_password lower now username password display_name device_id device_label
        platform =
      past_guard Good s (matches_pattern (codes username)) _ _ stay λ named.
        past_guard Good s (leb min_password_length (text_length password)) _ _ stay λ strong.
          past_guard Good s (not (is_empty (strip display_name))) _ _ stay λ shown.
            past_guard Good s (not (is_empty (strip device_id))) _ _ stay λ on_device.
              past_guard Good s
                (not (any (same_name hash_password lower username) (values s.state.users))) _ _ stay
                λ free.
                  past_guard Good s (not (has device_id s.state.devices)) _ _ stay
                    λ new. opened-Change now _ device_id _ refl refl

  resolve-Change : (now : ℕ) (id : String) → Change s (resolve_session now id s).1
  unfolding resolve_session evict_session save_runtime_state
  resolve-Change now id = past_value Good s (get id s.state.sessions) _ _ stay λ session found.
      elim (Bool-cases (is_expired s.ttl now session)) [
        | inl old ↦ rw old (evicted id refl refl)
        | inr young ↦ rw young (kept refl refl)
      ]

module _ (verify_password : String → String → Bool) (hash_password : String → String)
    (lower : String → String) where
  unfoldable pub perform_auth : AuthRequest → AuthService → AuthService
  perform_auth (logs_in now u p d) s = (login verify_password now u p d s).1
  perform_auth (registers now u p n d l k) s = (register hash_password lower now u p n d l k s).1
  perform_auth (resolves now id) s = (resolve_session now id s).1

  pub perform-Change : (r : AuthRequest) (s : AuthService) → Change s (perform_auth r s)
  unfolding perform_auth
  perform-Change (logs_in now u p d) s = login-Change s verify_password now u p d
  perform-Change (registers now u p n d l k) s =
      register-Change s hash_password lower now u p n d l k
  perform-Change (resolves now id) s = resolve-Change s now id

pub start-IsKnown :
    (id : String) (ttl : ℕ) (tables : InMemoryState) → IsKnown id (start_auth ttl tables)
unfolding start_auth
start-IsKnown id ttl tables n r e h = next_counter_fresh 0 "sess_" (keys tables.sessions) n (
    subst (λ k. elem k (keys tables.sessions) ≡ true) e
      (sym (get-keys id tables.sessions) ∙ rw (h, has) refl))
