-- ===== src/PhoneOtp.antt =====
-- server/server/services/phone_otp.py: one-time codes for phone numbers. Times are whole
-- microseconds. What the code draws at random (a code, a password hash, a device id) is an argument,
-- and so is the match of the pattern `^\+[1-9]\d{6,14}$`, which the regular expressions decide.
pub mod Rules
pub mod Guesses
pub mod Moves
pub mod Limits
pub mod Users
pub mod Sessions
pub mod Tests
use telegram.Prelude.{
  eq_nat, eq_string, eq_pair, ◌==◌, ltb, leb, if◌then◌else◌, length, keep, ℕ, zero, suc, ◌+◌, ◌-◌,
  String, Bool, true, false, not, ◌&&◌, Option, none, some, List, [], ◌∷◌, ◌++◌,
}
use telegram.Prelude.Dict.{Dict, get, put, pop, has, keys, values}
use telegram.Prelude.Exec.{
  ok, Exec, pure, raise, escape, gets, or_raise, modify, require, ◌>>=◌, ◌>>◌,
}
use telegram.Prelude.Text.{numbered, is_empty}
use Prim.Native.String.{◌++◌ as ◌++ₛ◌}
use telegram.Errors.{
  invalid_phone_number, phone_otp_rate_limited, invalid_otp_code, otp_expired,
  otp_attempts_exhausted,
}
use telegram.Prelude.Text.Number.{after_prefix}
use telegram.Prelude.Text.{codes as codes_of}
use telegram.State.{UserRecord, DeviceRecord, SessionRecord, InMemoryState, save_runtime_state}

abbrev pub code_length : ℕ
code_length = 6

abbrev pub code_ttl : ℕ
code_ttl = 300000000

abbrev pub resend_cooldown : ℕ
resend_cooldown = 30000000

abbrev pub max_verify_attempts : ℕ
max_verify_attempts = 5

pub record OtpRecord : Type 0 where
  pub code : String
  pub issued_at : ℕ
  pub expires_at : ℕ
  pub attempts : ℕ
  pub exhausted : Bool

-- `outbox` is what the sender was called with, oldest first.
pub record PhoneOtpService : Type 0 where
  pub state : InMemoryState
  pub codes : Dict String OtpRecord
  pub outbox : List (String × String)

-- `{phone: rec for phone, rec in codes.items() if rec.expires_at >= now}`; a key occurs once.
unfoldable pub purge : ℕ → Dict String OtpRecord → Dict String OtpRecord
purge now [] = []
purge now ((phone, r) ∷ d) =
    let rest = purge now d in if leb now r.expires_at then (phone, r) ∷ rest else pop phone rest

-- `existing is not None and (now - existing.issued_at) < RESEND_COOLDOWN_SECONDS`
pub is_too_soon : ℕ → Option OtpRecord → Bool
is_too_soon now none = false
is_too_soon now (some r) = ltb (now - r.issued_at) resend_cooldown

pub issue : String → String → ℕ → PhoneOtpService → PhoneOtpService
issue phone code now s = record s {
  codes =
      put phone
        (record {
          code = code;
          issued_at = now;
          expires_at = now + code_ttl;
          attempts = 0;
          exhausted = false;
        })
        s.codes;
  outbox = s.outbox ++ (phone, code) ∷ [];
}

module _ (is_e164 : String → Bool) where
  pub request_code : String → String → ℕ → Exec PhoneOtpService (ℕ × ℕ)
  unfolding issue purge is_too_soon
  request_code phone code now = do
    require (not (is_empty phone) && is_e164 phone) invalid_phone_number
    modify (λ s. record s { codes = purge now s.codes })
    codes ← gets (λ s. s.codes)
    require (not (is_too_soon now (get phone codes))) phone_otp_rate_limited
    modify (issue phone code now)
    pure (code_length, code_ttl)

-- the record after a wrong code
pub miss : OtpRecord → OtpRecord
miss r = record r {
  attempts = r.attempts + 1;
  exhausted = if leb max_verify_attempts (r.attempts + 1) then true else r.exhausted;
}

-- the branch of a wrong code: count it, then raise
pub refuse : String → OtpRecord → Exec PhoneOtpService Unit
unfolding miss
refuse phone r = do
  modify (λ s. record s { codes = put phone (miss r) s.codes })
  require (ltb (r.attempts + 1) max_verify_attempts) otp_attempts_exhausted
  raise invalid_otp_code

pub burn : String → Exec PhoneOtpService Unit
burn phone = modify (λ s. record s { codes = pop phone s.codes })

-- `str.isascii`
is_below_128 : List ℕ → Bool
is_below_128 [] = true
is_below_128 (c ∷ cs) = ltb c 128 && is_below_128 cs

pub is_ascii : String → Bool
unfolding is_below_128
is_ascii s = is_below_128 (codes_of s)

-- A code that has not expired. `compare_digest` raises a `TypeError` on text that is not ASCII, before
-- the attempt is counted; the code that was sent has digits only.
pub compare_code : String → String → OtpRecord → Exec PhoneOtpService Unit
unfolding refuse burn
compare_code phone code r = do
  require (not r.exhausted) otp_attempts_exhausted
  elim (is_ascii code) [
    | true ↦ elim (r.code == code) [ true ↦ burn phone | false ↦ refuse phone r ]
    | false ↦ escape
  ]

pub check_found : String → String → ℕ → OtpRecord → Exec PhoneOtpService Unit
unfolding compare_code burn
check_found phone code now r = elim (ltb r.expires_at now) [
  | true ↦ burn phone >> raise otp_expired
  | false ↦ compare_code phone code r
]

-- `verify_code` under its lock
pub check_code : String → String → ℕ → Exec PhoneOtpService Unit
unfolding check_found
check_code phone code now = do
  codes ← gets (λ s. s.codes)
  r ← or_raise (get phone codes) invalid_otp_code
  check_found phone code now r

-- `_upsert_phone_user`, `_next_user_id` and the rest of `verify_code`

-- the first user with this name, in the order of the table
pub find_username : String → List UserRecord → Option UserRecord
find_username name [] = none
find_username name (u ∷ rest) =
    let later = find_username name rest in if u.username == name then some u else later

-- `while f"{candidate}_{suffix}" in users`: as many steps as there are users are enough
pub free_suffix : ℕ → String → ℕ → Dict String UserRecord → ℕ
free_suffix zero stem suffix users = suffix
free_suffix (suc fuel) stem suffix users =
    let later = free_suffix fuel stem (suffix + 1) users in
    if has (numbered stem suffix) users then later else suffix

-- `digits` are the digits of the phone number
pub next_user_id : String → Dict String UserRecord → String
unfolding free_suffix
next_user_id digits users =
    let candidate = "u_phone_" ++ₛ digits in
    let stem = candidate ++ₛ "_" in
    if has candidate users
    then numbered stem (free_suffix (length users) stem 1 users)
    else candidate

pub upsert_phone_user :
    (phone digits display_name password_hash : String)
    → InMemoryState
    → (UserRecord × Bool) × InMemoryState
unfolding find_username next_user_id
upsert_phone_user phone digits display_name password_hash s =
    let name = "phone:" ++ₛ phone in
    elim (find_username name (values s.users)) [
      | some user ↦ ((user, false), s)
      | none ↦
          let user : UserRecord = record {
            user_id = next_user_id digits s.users;
            username = name;
            password_hash = password_hash;
            display_name = if is_empty display_name then phone else display_name;
            two_fa_secret = "";
            avatar_attachment_id = "";
          } in
          ((user, true), record s { users = put user.user_id user s.users })
    ]

pub upsert_device :
    (user_id device_id fresh_id : String) → InMemoryState → DeviceRecord × InMemoryState
upsert_device user_id device_id fresh_id s =
    let made : DeviceRecord = record {
      device_id = if is_empty device_id then fresh_id else device_id;
      user_id = user_id;
      label = "Phone client";
      platform = "phone";
      trusted = true;
      active = true;
      can_host = true;
      can_view = true;
    } in
    let s' = record s { devices = put made.device_id made s.devices } in
    elim (get device_id s.devices) [
      | none ↦ (made, s')
      | some d ↦ if d.user_id == user_id then (d, s) else (made, s')
    ]

is_session_id : String → Bool
is_session_id id = elim (after_prefix (codes_of "sess_") (codes_of id)) [
  | none ↦ false
  | some _ ↦ true
]

pub next_session_id : Dict String SessionRecord → String
unfolding is_session_id
next_session_id sessions = numbered "sess_" (length (keep is_session_id (keys sessions)) + 1)

-- What `verify_code` draws at random.
pub record Drawn : Type 0 where
  pub password_hash : String
  pub device_id : String

module _ (is_e164 : String → Bool) (digits_of : String → String) where
  -- from `user, new_account = ...` on
  pub log_in :
      (phone display_name device_id : String)
      → ℕ
      → Drawn
      → Exec PhoneOtpService (UserRecord × String × Bool)
  unfolding upsert_phone_user upsert_device next_session_id
  log_in phone display_name device_id now drawn s =
      let ((user, made), s1) =
        upsert_phone_user phone (digits_of phone) display_name drawn.password_hash s.state in
      let (device, s2) = upsert_device user.user_id device_id drawn.device_id s1 in
      let session_id = next_session_id s2.sessions in
      let session : SessionRecord = record {
        session_id = session_id;
        user_id = user.user_id;
        device_id = device.device_id;
        last_seen_at = now;
      } in
      let s3 = record s2 { sessions = put session_id session s2.sessions } in
      (ok (user, session_id, made), record s { state = save_runtime_state s3 })

  pub verify_code :
      (phone code display_name device_id : String)
      → ℕ
      → Drawn
      → Exec PhoneOtpService (UserRecord × String × Bool)
  unfolding check_code log_in
  verify_code phone code display_name device_id now drawn = do
    require (not (is_empty phone) && is_e164 phone) invalid_phone_number
    check_code phone code now
    log_in phone display_name device_id now drawn

pub data Request : Type 0 where
  asks : (phone code : String) → ℕ → Request
  verifies : (phone code display_name device_id : String) → ℕ → Drawn → Request

module _ (is_e164 : String → Bool) (digits_of : String → String) where
  unfoldable pub handle : Request → PhoneOtpService → PhoneOtpService
  handle (asks phone code now) s = (request_code is_e164 phone code now s).1
  handle (verifies phone code name device now drawn) s =
      (verify_code is_e164 digits_of phone code name device now drawn s).1

  pub serve : List Request → PhoneOtpService → PhoneOtpService
  serve [] s = s
  serve (r ∷ rest) s = serve rest (handle r s)
