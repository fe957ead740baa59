-- ===== src/Auth.antt =====
-- server/server/services/auth.py: login, registration and sessions, with no Redis cache bound. The
-- password functions of crypto.py and `str.lower` are arguments; the clock is `now`, and `ttl` is
-- `_session_ttl_seconds` in the same unit, 0 where sessions do not expire.
pub mod Sessions
pub mod Server
pub mod Storable
pub mod Tests
use telegram.Prelude.{
  eq_nat, eq_string, eq_pair, ◌==◌, ltb, leb, nat_eq, if◌then◌else◌, length, any, ℕ, zero, suc, ◌+◌,
  ◌-◌, String, Bool, true, false, not, ◌&&◌, ◌||◌, Option, none, some, List, [], ◌∷◌,
}
use telegram.Prelude.Dict.{Dict, get, put, pop, has, keys, values}
use telegram.Prelude.Exec.{ok, err, Exec, pure, gets, or_raise, modify, require, ◌>>=◌, ◌>>◌}
use telegram.Prelude.Text.{Bytes, codes, numbered, strip, is_empty, text_length}
use telegram.Prelude.Text.Number.{next_counter}
use telegram.Errors.{
  invalid_credentials, device_id_taken, invalid_registration_payload, weak_password, username_taken,
  invalid_session,
}
use telegram.State.{UserRecord, DeviceRecord, SessionRecord, InMemoryState, save_runtime_state}

pub record AuthService : Type 0 where
  pub state : InMemoryState
  pub session_counter : ℕ
  pub user_counter : ℕ
  pub ttl : ℕ

pub start_auth : ℕ → InMemoryState → AuthService
start_auth ttl s = record {
  state = s;
  session_counter = next_counter 0 "sess_" (keys s.sessions);
  user_counter = next_counter 0 "u_auto_" (keys s.users);
  ttl = ttl;
}

-- The dictionary that login and registration answer with.
pub record Login : Type 0 where
  pub session_id : String
  pub user_id : String
  pub display_name : String
  pub device_id : String

-- `[A-Za-z0-9_]`
abbrev is_word : ℕ → Bool
is_word c =
    (leb b'a' c && leb c b'z')
    || (leb b'A' c && leb c b'Z')
    || (leb b'0' c && leb c b'9')
    || nat_eq c b'_'

-- `[A-Za-z0-9_.-]{low,high}$`: the dollar accepts one newline at the end.
matches_rest : ℕ → ℕ → Bytes → Bool
matches_rest low high [] = nat_eq low 0
matches_rest low zero (c ∷ cs) = nat_eq low 0 && nat_eq c 10 && nat_eq (length cs) 0
matches_rest low (suc high) (c ∷ cs) =
    let rest = matches_rest (low - 1) high cs in
    if is_word c || nat_eq c b'.' || nat_eq c b'-'
    then rest
    else nat_eq low 0 && nat_eq c 10 && nat_eq (length cs) 0

-- `USERNAME_PATTERN.match(username)`
pub matches_pattern : Bytes → Bool
unfolding matches_rest
matches_pattern [] = false
matches_pattern (c ∷ cs) = is_word c && matches_rest 2 31 cs

abbrev pub min_password_length : ℕ
min_password_length = 8

-- The first user with the name.
unfoldable pub find_user : String → List UserRecord → Option UserRecord
find_user username [] = none
find_user username (u ∷ us) =
    let rest = find_user username us in if u.username == username then some u else rest

-- `existing_device is not None and existing_device.user_id != user.user_id`
abbrev pub belongs_to_other : String → Option DeviceRecord → Bool
belongs_to_other user_id none = false
belongs_to_other user_id (some d) = not (d.user_id == user_id)

-- With the defaults of `DeviceRecord`.
abbrev pub new_device : String → String → String → String → DeviceRecord
new_device device_id user_id label platform = record {
  device_id = device_id;
  user_id = user_id;
  label = label;
  platform = platform;
  trusted = true;
  active = true;
  can_host = true;
  can_view = true;
}

-- The devices after a login: an unknown device is added.
abbrev pub with_device :
    String → String → Option DeviceRecord → Dict String DeviceRecord → Dict String DeviceRecord
with_device device_id user_id none devices =
    put device_id (new_device device_id user_id device_id "unknown") devices
with_device device_id user_id (some d) devices = devices

abbrev pub new_session : String → String → String → ℕ → SessionRecord
new_session session_id user_id device_id now = record {
  session_id = session_id;
  user_id = user_id;
  device_id = device_id;
  last_seen_at = now;
}

-- A session with the next id, and the save: `persist_session` saves everything too.
unfoldable pub open_session : ℕ → String → String → AuthService → AuthService
open_session now user_id device_id s =
    let session_id = numbered "sess_" s.session_counter in
    record s {
      session_counter = s.session_counter + 1;
      state = save_runtime_state (record s.state {
        sessions = put session_id (new_session session_id user_id device_id now) s.state.sessions;
      });
    }

module _ (verify_password : String → String → Bool) where
  unfoldable pub login : ℕ → String → String → String → Exec AuthService Login
  unfolding find_user open_session
  login now username password device_id = do
    users ← gets (λ s. s.state.users)
    user ← or_raise (find_user username (values users)) invalid_credentials
    require (verify_password password user.password_hash) invalid_credentials
    existing ← gets (λ s. get device_id s.state.devices)
    require (not (belongs_to_other user.user_id existing)) device_id_taken
    counter ← gets (λ s. s.session_counter)
    modify (λ s. open_session now user.user_id device_id (record s {
      state = record s.state {
        devices = with_device device_id user.user_id existing s.state.devices;
      };
    }))
    pure (record {
      session_id = numbered "sess_" counter;
      user_id = user.user_id;
      display_name = user.display_name;
      device_id = device_id;
    })

module _ (hash_password : String → String) (lower : String → String) where
  abbrev pub same_name : String → UserRecord → Bool
  same_name username u = lower u.username == lower username

  unfoldable pub register :
      ℕ → String → String → String → String → String → String → Exec AuthService Login
  unfolding matches_pattern open_session
  register now username password display_name device_id device_label platform = do
    require (matches_pattern (codes username)) invalid_registration_payload
    require (leb min_password_length (text_length password)) weak_password
    require (not (is_empty (strip display_name))) invalid_registration_payload
    require (not (is_empty (strip device_id))) invalid_registration_payload
    state ← gets (λ s. s.state)
    require (not (any (same_name username) (values state.users))) username_taken
    require (not (has device_id state.devices)) device_id_taken
    user_counter ← gets (λ s. s.user_counter)
    counter ← gets (λ s. s.session_counter)
    let user_id = numbered "u_auto_" user_counter
    let user : UserRecord = record {
      user_id = user_id;
      username = username;
      password_hash = hash_password password;
      display_name = display_name;
      two_fa_secret = "";
      avatar_attachment_id = "";
    }
    let label = if is_empty device_label then username else device_label
    modify (λ s. open_session now user_id device_id (record s {
      user_counter = user_counter + 1;
      state = record s.state {
        users = put user_id user s.state.users;
        devices = put device_id (new_device device_id user_id label platform) s.state.devices;
      };
    }))
    pure (record {
      session_id = numbered "sess_" counter;
      user_id = user_id;
      display_name = display_name;
      device_id = device_id;
    })

-- `self._session_ttl_seconds > 0 and self._clock() - session.last_seen_at > self._session_ttl_seconds`
abbrev pub is_expired : ℕ → ℕ → SessionRecord → Bool
is_expired ttl now session = ltb 0 ttl && ltb (session.last_seen_at + ttl) now

-- `_evict_session`
unfoldable pub evict_session : String → AuthService → AuthService
evict_session session_id s = record s {
  state = save_runtime_state (record s.state { sessions = pop session_id s.state.sessions });
}

-- An expired session is dropped before the error is raised.
abbrev pub check_expiry : ℕ → String → SessionRecord → Exec AuthService Unit
check_expiry now session_id session s =
    if is_expired s.ttl now session
    then (err invalid_session, evict_session session_id s)
    else (ok tt, s)

unfoldable pub resolve_session : ℕ → String → Exec AuthService SessionRecord
unfolding evict_session
resolve_session now session_id = do
  found ← gets (λ s. get session_id s.state.sessions)
  session ← or_raise found invalid_session
  check_expiry now session_id session
  pure session
