-- ===== src/TwoFa.antt =====
-- server/server/services/two_fa.py: time-based one-time codes at login. The digest for a secret and a
-- time step (HMAC-SHA1 of the step's eight bytes under the base32 secret, 20 bytes) is an argument,
-- and so are a fresh secret and the test for six digits, which are ASCII here. Times are whole seconds.
pub mod Rules
pub mod Safety
pub mod Tests
use telegram.Prelude.{
  eq_nat, eq_string, eq_pair, ◌==◌, if◌then◌else◌, ℕ, ◌+◌, ◌-◌, ◌/◌, ◌*◌, ◌%◌, ◌^◌, zero, suc, take,
  drop, String, Bool, true, false, not, ◌&&◌, ◌||◌, none, some, List, [], ◌∷◌,
}
use telegram.Prelude.Dict.{Dict, get, put, pop}
use telegram.Prelude.Exec.{Exec, pure, gets, or_raise, modify, require, ◌>>=◌, ◌>>◌}
use telegram.Prelude.Text.{Bytes, decimal, text_of, text_length, is_empty}
use Prim.Native.String.{◌++◌ as ◌++ₛ◌}
use telegram.Errors.{unknown_user, two_fa_already_enabled, two_fa_not_enabled, invalid_two_fa_code}
use telegram.State.{UserRecord, InMemoryState, save_runtime_state}

abbrev pub time_step : ℕ
time_step = 30

abbrev pub digits : ℕ
digits = 6

-- `digest[-1]`; a digest is not empty
last_byte : Bytes → ℕ
last_byte [] = 0
last_byte (b ∷ []) = b
last_byte (b ∷ c ∷ bs) = last_byte (c ∷ bs)

-- big-endian, with the bytes before it
big_endian : ℕ → Bytes → ℕ
big_endian n [] = n
big_endian n (b ∷ bs) = big_endian (n * 256 + b) bs

-- `struct.unpack(">I", digest[offset:offset + 4])[0] & 0x7FFFFFFF`, where `offset` is the low half of
-- the last byte
pub truncated : Bytes → ℕ
unfolding last_byte big_endian
truncated digest = big_endian 0 (take 4 (drop (last_byte digest % 16) digest)) % 2 ^ 31

zeros : ℕ → String → String
zeros zero s = s
zeros (suc n) s = "0" ++ₛ zeros n s

-- `str.zfill` on digits
pub zfill : ℕ → String → String
unfolding zeros
zfill width s = zeros (width - text_length s) s

pub record TwoFaService : Type 0 where
  pub state : InMemoryState
  pub pending : Dict String String

pub set_secret : String → UserRecord → String → TwoFaService → TwoFaService
set_secret user_id user secret s = record s {
  state = save_runtime_state (record s.state {
    users = put user_id (record user { two_fa_secret = secret }) s.state.users;
  });
}

pub is_enabled : String → TwoFaService → Bool
is_enabled user_id s = elim (get user_id s.state.users) [
  | none ↦ false
  | some user ↦ not (is_empty user.two_fa_secret)
]

-- returns the secret; the provisioning link for it is left out
pub begin_enable : String → String → Exec TwoFaService String
begin_enable user_id fresh_secret = do
  users ← gets (λ s. s.state.users)
  user ← or_raise (get user_id users) unknown_user
  require (is_empty user.two_fa_secret) two_fa_already_enabled
  modify (λ s. record s { pending = put user_id fresh_secret s.pending })
  pure fresh_secret

pub discard_pending_enrollment : String → TwoFaService → TwoFaService
discard_pending_enrollment user_id s = record s { pending = pop user_id s.pending }

module _ (digest_of : String → ℕ → Bytes) (is_six_digits : String → Bool) where
  -- `generate_totp_code(secret, at=at)`
  pub generate_totp_code : String → ℕ → String
  unfolding truncated zfill
  generate_totp_code secret at =
      zfill digits (text_of (decimal (truncated (digest_of secret (at / time_step)) % 10 ^ digits)))

  -- One step early, now, or one step late; a clock stands at 30 seconds or more.
  pub verify_totp : String → String → ℕ → Bool
  unfolding generate_totp_code
  verify_totp secret code now =
      is_six_digits code
      && (generate_totp_code secret (now - time_step) == code
          || (generate_totp_code secret now == code
              || generate_totp_code secret (now + time_step) == code))

  pub confirm_enable : String → String → ℕ → Exec TwoFaService Unit
  unfolding set_secret verify_totp
  confirm_enable user_id code now = do
    pending ← gets (λ s. s.pending)
    secret ← or_raise (get user_id pending) two_fa_not_enabled
    require (verify_totp secret code now) invalid_two_fa_code
    users ← gets (λ s. s.state.users)
    user ← or_raise (get user_id users) unknown_user
    modify (λ s. set_secret user_id user secret (record s { pending = pop user_id s.pending }))

  pub verify_login_code : String → String → ℕ → TwoFaService → Bool
  unfolding verify_totp
  verify_login_code user_id code now s = elim (get user_id s.state.users) [
    | none ↦ true
    | some user ↦
        if is_empty user.two_fa_secret then true else verify_totp user.two_fa_secret code now
  ]

  pub disable : String → String → ℕ → Exec TwoFaService Unit
  unfolding set_secret verify_totp
  disable user_id code now = do
    users ← gets (λ s. s.state.users)
    user ← or_raise (get user_id users) two_fa_not_enabled
    require (not (is_empty user.two_fa_secret)) two_fa_not_enabled
    require (verify_totp user.two_fa_secret code now) invalid_two_fa_code
    modify (set_secret user_id user "")

pub data Request : Type 0 where
  begins : (user_id fresh_secret : String) → Request
  discards : (user_id : String) → Request
  confirms : (user_id code : String) → ℕ → Request
  disables : (user_id code : String) → ℕ → Request

module _ (digest_of : String → ℕ → Bytes) (is_six_digits : String → Bool) where
  pub handle : Request → TwoFaService → TwoFaService
  handle (begins u secret) s = (begin_enable u secret s).1
  handle (discards u) s = discard_pending_enrollment u s
  handle (confirms u code now) s = (confirm_enable digest_of is_six_digits u code now s).1
  handle (disables u code now) s = (disable digest_of is_six_digits u code now s).1

  pub serve : List Request → TwoFaService → TwoFaService
  serve [] s = s
  serve (r ∷ rest) s = serve rest (handle r s)
