-- ===== src/Auth/Storable.antt =====
-- The tables of `AuthService` can be saved and loaded again after any requests.
use telegram.Prelude.{
  eq_nat, eq_string, eq_pair, leb, if◌then◌else◌, Bool-cases, any, ℕ, ◌+◌, String, ◌≡◌, refl, inl,
  inr, Bool, false, not, Option, none, some,
}
use telegram.Prelude.Dict.{Dict, get, put, has, values}
use telegram.Prelude.Exec.{Result}
use telegram.Prelude.Text.{codes, numbered, strip, is_empty, text_length}
use telegram.Prelude.Exec.Guards.{past_guard, past_value}
use telegram.State.{UserRecord, DeviceRecord, save_runtime_state}
use telegram.State.Loading.{lacks_hash}
use telegram.State.Loading.Restart.{IsStorable, IsKeyed}
use telegram.State.Loading.Keyed.{put-IsKeyed, pop-IsKeyed, any-put}
use telegram.Auth.{
  AuthService, same_name, min_password_length, matches_pattern, login, register, resolve_session,
  open_session, evict_session, find_user, belongs_to_other, is_expired, with_device, new_device,
}
use telegram.Auth.Sessions.{AuthRequest, logs_in, registers, resolves, perform_auth}

abbrev Good : {A : Type 0} → Result A × AuthService → Type 0
Good o = IsStorable o.1.state

opened-IsStorable :
    (now : ℕ) (user_id device_id : String) (s : AuthService)
    → IsStorable s.state
    → IsStorable (open_session now user_id device_id s).state
unfolding open_session save_runtime_state
opened-IsStorable now user_id device_id s h = record {
  users = h.users;
  devices = h.devices;
  conversations = h.conversations;
  remote_sessions = h.remote_sessions;
  sessions = put-IsKeyed (λ x. x.session_id) _ _ s.state.sessions refl h.sessions;
  attachments = h.attachments;
  hashes = h.hashes;
}

with_device-IsKeyed :
    (id user_id : String) (o : Option DeviceRecord) (d : Dict String DeviceRecord)
    → IsKeyed (λ x. x.device_id) d
    → IsKeyed (λ x. x.device_id) (with_device id user_id o d)
with_device-IsKeyed id user_id none d h = put-IsKeyed (λ x. x.device_id) id _ d refl h
with_device-IsKeyed id user_id (some x) d h = h

module _ (s : AuthService) (h : IsStorable s.state) where
  login-IsStorable :
      (verify_password : String → String → Bool) (now : ℕ) (username password device_id : String)
      → IsStorable (login verify_password now username password device_id s).1.state
  unfolding login
  login-IsStorable verify_password now username password device_id =
      past_value Good s (find_user username (values s.state.users)) _ _ (λ e. h)
        λ user found.
          past_guard Good s (verify_password password user.password_hash) _ _ (λ e. h)
            λ right.
              past_guard Good s
                (not (belongs_to_other user.user_id (get device_id s.state.devices))) _ _ (λ e. h)
                λ own.
                  opened-IsStorable now user.user_id device_id
                    (record s {
                      state = record s.state {
                        devices =
                            with_device device_id user.user_id (get device_id s.state.devices)
                              s.state.devices;
                      };
                    })
                    (record {
                      users = h.users;
                      devices =
                          with_device-IsKeyed device_id user.user_id (get device_id s.state.devices)
                            s.state.devices h.devices;
                      conversations = h.conversations;
                      remote_sessions = h.remote_sessions;
                      sessions = h.sessions;
                      attachments = h.attachments;
                      hashes = h.hashes;
                    })

  register-IsStorable :
      (hash_password lower : String → String) (now : ℕ)
      (username password display_name device_id device_label platform : String)
      → is_empty (hash_password password) ≡ false
      → IsStorable
          (register hash_password lower now username password display_name device_id device_label
            platform s).1.state
  unfolding register
  register-IsStorable hash_password lower now username password display_name device_id device_label
        platform filled =
      past_guard Good s (matches_pattern (codes username)) _ _ (λ e. h)
        λ named.
          past_guard Good s (leb min_password_length (text_length password)) _ _ (λ e. h)
            λ strong.
              past_guard Good s (not (is_empty (strip display_name))) _ _ (λ e. h)
                λ shown.
                  past_guard Good s (not (is_empty (strip device_id))) _ _ (λ e. h)
                    λ on_device.
                      past_guard Good s
                        (not (any (same_name hash_password lower username) (values s.state.users)))
                        _ _ (λ e. h)
                        λ free.
                          past_guard Good s (not (has device_id s.state.devices)) _ _ (λ e. h)
                            λ new.
                              let user_id = numbered "u_auto_" s.user_counter in
                              let label =
                                if is_empty device_label then username else device_label in
                              let user : UserRecord = record {
                                user_id = user_id;
                                username = username;
                                password_hash = hash_password password;
                                display_name = display_name;
                                two_fa_secret = "";
                                avatar_attachment_id = "";
                              } in
                              opened-IsStorable now user_id device_id
                                (record s {
                                  user_counter = s.user_counter + 1;
                                  state = record s.state {
                                    users = put user_id user s.state.users;
                                    devices =
                                        put device_id (new_device device_id user_id label platform)
                                          s.state.devices;
                                  };
                                })
                                (record {
                                  users =
                                      put-IsKeyed (λ u. u.user_id) _ _ s.state.users refl h.users;
                                  devices =
                                      put-IsKeyed (λ x. x.device_id) _ _ s.state.devices refl
                                        h.devices;
                                  conversations = h.conversations;
                                  remote_sessions = h.remote_sessions;
                                  sessions = h.sessions;
                                  attachments = h.attachments;
                                  hashes = any-put lacks_hash _ _ s.state.users filled h.hashes;
                                })

  resolve-IsStorable : (now : ℕ) (id : String) → IsStorable (resolve_session now id s).1.state
  unfolding resolve_session evict_session save_runtime_state
  resolve-IsStorable now id =
      past_value Good s (get id s.state.sessions) _ _ (λ e. h)
        λ session found. elim (Bool-cases (is_expired s.ttl now session)) [
          | inl old ↦ rw old (record {
            users = h.users;
            devices = h.devices;
            conversations = h.conversations;
            remote_sessions = h.remote_sessions;
            sessions = pop-IsKeyed (λ x. x.session_id) id s.state.sessions h.sessions;
            attachments = h.attachments;
            hashes = h.hashes;
          })
          | inr young ↦ rw young h
        ]

-- Where no hash is empty, a request keeps the tables in the form that a save and a load bring back.
perform_auth-IsStorable :
    (verify_password : String → String → Bool) (hash_password lower : String → String)
    → ((password : String) → is_empty (hash_password password) ≡ false)
    → (r : AuthRequest) (s : AuthService) → IsStorable s.state
    → IsStorable (perform_auth verify_password hash_password lower r s).state
unfolding perform_auth
perform_auth-IsStorable verify_password hash_password lower filled (logs_in now u p d) s h =
    login-IsStorable s h verify_password now u p d
perform_auth-IsStorable verify_password hash_password lower filled (registers now u p n d l k) s h =
    register-IsStorable s h hash_password lower now u p n d l k (filled p)
perform_auth-IsStorable verify_password hash_password lower filled (resolves now id) s h =
    resolve-IsStorable s h now id
