-- ===== src/PhoneOtp/Tests.antt =====
-- Runs of server/server/services/phone_otp.py on one phone.
use telegram.Prelude.{
  text_eq, eq_nat, eq_string, eq_pair, ==_iff, All, ◌≤◌, String, ◌≡◌, refl, ◌≢◌, Bool, true, false,
  none, List, [], ◌∷◌, arith,
}
use telegram.Prelude.Dict.{Dict, get}
use telegram.Prelude.Exec.{IsOk}
use telegram.State.Samples.{empty_state, sample_user}
use telegram.PhoneOtp.{
  next_user_id, max_verify_attempts, PhoneOtpService, Drawn, Request, asks, verifies, request_code,
  verify_code, serve, is_ascii,
}
use telegram.PhoneOtp.Guesses.{IsGuess, guesses}
use telegram.State.{UserRecord}
use telegram.PhoneOtp.Users.{next_user_id-unused}
use telegram.PhoneOtp.Limits.{guesses_run_out, code_serves_once}

abbrev any_phone : String → Bool
any_phone phone = true

abbrev same_digits : String → String
same_digits phone = phone

abbrev phone : String
phone = "+15551234567"

abbrev fresh : PhoneOtpService
fresh = record { state = empty_state; codes = []; outbox = [] }

abbrev drawn : Drawn
drawn = record { password_hash = "hash"; device_id = "dev_phone_1" }

abbrev sent : PhoneOtpService
sent = record {
  state = empty_state;
  codes =
      (
        phone,
        record {
          code = "123456";
          issued_at = 0;
          expires_at = 300000000;
          attempts = 0;
          exhausted = false;
        },
      )
      ∷ [];
  outbox = [];
}

abbrev guess : String → Request
guess code = verifies phone code "" "dev" 1000 drawn

abbrev wrong_guesses : List Request
wrong_guesses =
    guess "000000"
    ∷ guess "000001"
    ∷ guess "000002"
    ∷ asks "+15550000000" "111111" 2000
    ∷ guess "é"
    ∷ guess "000003"
    ∷ guess "000004"
    ∷ []

other : (a b : String) → text_eq a b ≡ false → a ≢ b
other a b h q = cc ((==_iff a b).1 q, h)

sent-IsOk : IsOk (request_code any_phone phone "123456" 0 fresh).0
unfolding request_code get
sent-IsOk = tt

guesses_are_wrong : All (IsGuess phone "123456") wrong_guesses
unfolding text_eq
guesses_are_wrong = (
  λ _. other "000000" "123456" refl,
  (
    λ _. other "000001" "123456" refl,
    (
      λ _. other "000002" "123456" refl,
      (
        other "+15550000000" phone refl,
        (
          λ _. other "é" "123456" refl,
          (λ _. other "000003" "123456" refl, (λ _. other "000004" "123456" refl, tt)),
        ),
      ),
    ),
  ),
)

five_or_more : max_verify_attempts ≤ guesses phone wrong_guesses
unfolding guesses text_eq is_ascii
five_or_more = omega arith

guesses_run_out_example :
    ¬ IsOk
      (verify_code any_phone same_digits phone "123456" "" "dev" 3000 drawn (
        serve any_phone same_digits wrong_guesses
          (request_code any_phone phone "123456" 0 fresh).1)).0
guesses_run_out_example =
    guesses_run_out any_phone same_digits phone "123456" 0 wrong_guesses fresh "123456" "" "dev"
      3000 drawn sent-IsOk guesses_are_wrong five_or_more

logged_in : IsOk (verify_code any_phone same_digits phone "123456" "" "dev" 5 drawn sent).0
unfolding verify_code get text_eq is_ascii
logged_in = tt

code_serves_once_example :
    ¬ IsOk
      (verify_code any_phone same_digits phone "123456" "" "dev" 7 drawn (
        serve any_phone same_digits
          (guess "999999" ∷ [])
          (verify_code any_phone same_digits phone "123456" "" "dev" 5 drawn sent).1)).0
code_serves_once_example =
    code_serves_once any_phone same_digits phone "123456" "" "dev" 5 drawn (guess "999999" ∷ [])
      sent "123456" "" "dev" 7 drawn logged_in (tt, tt)

abbrev taken_users : Dict String UserRecord
taken_users =
    ("u_phone_1555", sample_user "u_phone_1555" "phone:+1555")
    ∷ ("u_phone_1555_1", sample_user "u_phone_1555_1" "other")
    ∷ []

next_user_id-unused_example : get (next_user_id "1555" taken_users) taken_users ≡ none
next_user_id-unused_example = next_user_id-unused "1555" taken_users
