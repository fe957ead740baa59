-- ===== src/PhoneOtp/Sessions.antt =====
-- What a request makes of the sessions.
use telegram.Prelude.{
  eq_nat, eq_string, eq_pair, ◌==◌, ==_iff, Bool-cases, ℕ, String, ◌≡◌, refl, ap, ◌∙◌, ◌⊎◌, inl,
  inr, Bool, not, ◌&&◌, arith,
}
use telegram.Prelude.Dict.{Dict, get, put, get-put}
use telegram.Prelude.Exec.{Result, ok, err, Exec, continue}
use telegram.Prelude.Text.{is_empty}
use telegram.Errors.{ErrorCode}
use telegram.Prelude.Exec.{escaped}
use telegram.Prelude.Exec.Guards.{past_guard}
use telegram.State.{UserRecord, SessionRecord, InMemoryState, save_runtime_state}
use telegram.PhoneOtp.{
  PhoneOtpService, Drawn, request_code, check_code, check_found, compare_code, refuse, burn, log_in,
  verify_code, upsert_phone_user, upsert_device, next_session_id, issue,
}

-- The id that a verification answers with.
abbrev pub GivesOut : String → Result (UserRecord × String × Bool) → Type 0
GivesOut id (ok (user, session_id, made)) = session_id ≡ id
GivesOut id (err e) = ⊥
GivesOut id escaped = ⊥

-- Another session than the one that is given out is as it was.
abbrev pub LeavesAlone :
    String → PhoneOtpService → Result (UserRecord × String × Bool) × PhoneOtpService → Type 0
LeavesAlone id s o = GivesOut id o.0 ⊎ (get id o.1.state.sessions ≡ get id s.state.sessions)

check_code-state :
    (phone code : String) (now : ℕ) (s : PhoneOtpService)
    → (check_code phone code now s).1.state ≡ s.state
unfolding check_code check_found compare_code refuse burn
check_code-state phone code now s = ground arith

upsert_phone_user-sessions :
    (phone digits name hash : String) (s : InMemoryState)
    → (upsert_phone_user phone digits name hash s).1.sessions ≡ s.sessions
unfolding upsert_phone_user
upsert_phone_user-sessions phone digits name hash s = ground arith

upsert_device-sessions :
    (user device fresh : String) (s : InMemoryState)
    → (upsert_device user device fresh s).1.sessions ≡ s.sessions
unfolding upsert_device
upsert_device-sessions user device fresh s = ground arith

past_result :
    {A B : Type 0} (P : Result B × PhoneOtpService → Type 0) (r : Result A)
    (k : A → Exec PhoneOtpService B) (s : PhoneOtpService)
    → ((e : ErrorCode) → P (err e, s))
    → P (escaped, s)
    → ((a : A) → P (k a s))
    → P (continue r k s)
past_result P (ok a) k s bad worse good = good a
past_result P (err e) k s bad worse good = bad e
past_result P escaped k s bad worse good = worse

pub request_code-state :
    (is_e164 : String → Bool) (phone code : String) (now : ℕ) (s : PhoneOtpService)
    → (request_code is_e164 phone code now s).1.state ≡ s.state
unfolding request_code issue
request_code-state is_e164 phone code now s = ground arith

opened :
    (id session_id : String) (x : SessionRecord) (d base : Dict String SessionRecord)
    → d ≡ base
    → (session_id ≡ id) ⊎ (get id (put session_id x d) ≡ get id base)
opened id session_id x d base same = elim (Bool-cases (session_id == id)) [
  | inl here ↦ inl ((==_iff session_id id).0 here)
  | inr there ↦ inr (get-put session_id id x d ∙ rw there (ap (get id) same))
]

module _ (is_e164 : String → Bool) (digits_of : String → String) where
  log_in-LeavesAlone :
      (id phone name device : String) (now : ℕ) (drawn : Drawn) (s : PhoneOtpService)
      → LeavesAlone id s (log_in is_e164 digits_of phone name device now drawn s)
  unfolding log_in save_runtime_state
  log_in-LeavesAlone id phone name device now drawn s =
      let named = upsert_phone_user phone (digits_of phone) name drawn.password_hash s.state in
      let placed = upsert_device named.0.0.user_id device drawn.device_id named.1 in
      opened id (next_session_id placed.1.sessions) _ placed.1.sessions s.state.sessions (
        upsert_device-sessions named.0.0.user_id device drawn.device_id named.1
        ∙ upsert_phone_user-sessions phone (digits_of phone) name drawn.password_hash s.state)

  pub verify_code-LeavesAlone :
      (id phone code name device : String) (now : ℕ) (drawn : Drawn) (s : PhoneOtpService)
      → LeavesAlone id s (verify_code is_e164 digits_of phone code name device now drawn s)
  unfolding verify_code
  verify_code-LeavesAlone id phone code name device now drawn s =
      past_guard (LeavesAlone id s) s (not (is_empty phone) && is_e164 phone) _ _ (λ e. inr refl)
        λ valid.
          let same =
            ap (λ (t : InMemoryState). get id t.sessions) (check_code-state phone code now s) in
          past_result (LeavesAlone id s) (check_code phone code now s).0 _
            (check_code phone code now s).1 (λ e. inr same) (inr same)
            λ a.
              elim (log_in-LeavesAlone id phone name device now drawn
                (check_code phone code now s).1) [
                  | inl given ↦ inl given
                  | inr alone ↦ inr (alone ∙ same)
                ]
