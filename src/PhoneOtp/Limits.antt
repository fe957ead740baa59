-- ===== src/PhoneOtp/Limits.antt =====
-- How many guesses a code stands, and that it serves once.
use telegram.Prelude.{
  eq_nat, eq_string, eq_pair, Bool-cases, All, ℕ, ◌+◌, ◌≤◌, String, ◌≡◌, ap, subst, ◌∙◌, inl, inr,
  Bool, not, ◌&&◌, none, List, [], ◌∷◌, arith,
}
use telegram.Prelude.Dict.{get, get-pop_self}
use telegram.Prelude.Exec.{Result, ok, err, escaped, Exec, continue, IsOk}
use telegram.Prelude.Text.{is_empty}
use telegram.PhoneOtp.{
  OtpRecord, PhoneOtpService, Drawn, Request, request_code, check_code, log_in, verify_code, handle,
  serve, max_verify_attempts,
}
use telegram.PhoneOtp.Rules.{check_code-cases, check_code-IsOk_iff}
use telegram.PhoneOtp.Guesses.{
  IsShut, Tried, IsGuess, IsQuiet, guesses, guesses_cons, IsPhone, request-issues, verify-codes,
}
use telegram.PhoneOtp.Moves.{step-IsShut, step-Tried}

continue-IsOk :
    {A B : Type 0} (r : Result A) (f : A → Exec PhoneOtpService B) (s : PhoneOtpService)
    → IsOk (continue r f s).0
    → IsOk r
continue-IsOk (ok a) f s h = tt
continue-IsOk (err c) f s h = h
continue-IsOk escaped f s h = h

-- A code that has passed the check is gone.
passed-get :
    (phone code : String) (now : ℕ) (s : PhoneOtpService)
    → IsOk (check_code phone code now s).0
    → get phone (check_code phone code now s).1.codes ≡ none
passed-get phone code now s h =
    let found = (check_code-IsOk_iff phone code now s).0 h in
    elim (check_code-cases phone code s now) [
      | inl (same, spent) ↦ elim (spent found.0 found.1) [
        | inl over ↦ cc (over, found.3)
        | inr strange ↦ cc (strange, found.5)
      ]
      | inr (inl gone) ↦ ap (get phone) gone ∙ get-pop_self phone s.codes
      | inr (inr (q, at, _, other, _)) ↦
          let is : q ≡ found.0 = cc (at, found.1) in
          absurd (other (ap (λ (x : OtpRecord). x.code) is ∙ found.4))
    ]

module _ (is_e164 : String → Bool) (digits_of : String → String) where
  serve-IsShut :
      (phone : String) (rest : List Request) (s : PhoneOtpService)
      → All (IsQuiet phone) rest
      → IsShut phone s
      → IsShut phone (serve is_e164 digits_of rest s)
  unfolding serve
  serve-IsShut phone [] s quiet h = h
  serve-IsShut phone (q ∷ rest) s quiet h =
      serve-IsShut phone rest (handle is_e164 digits_of q s) quiet.1
        (step-IsShut is_e164 digits_of phone q s quiet.0 h)

  serve-Tried :
      (phone secret : String) (n : ℕ) (rest : List Request) (s : PhoneOtpService)
      → IsPhone is_e164 digits_of phone
      → All (IsGuess phone secret) rest
      → Tried phone secret n s
      → Tried phone secret (guesses phone rest + n) (serve is_e164 digits_of rest s)
  unfolding serve guesses
  serve-Tried phone secret n [] s valid guess h = λ r e. let after = h r e in ground (arith, after)
  serve-Tried phone secret n (q ∷ rest) s valid guess h =
      let after =
        serve-Tried phone secret (guesses phone (q ∷ []) + n) rest (handle is_e164 digits_of q s)
          valid guess.1 (step-Tried is_e164 digits_of phone secret n q s valid guess.0 h) in
      subst (λ m. Tried phone secret m (serve is_e164 digits_of (q ∷ rest) s))
        (guesses_cons phone q rest n) after

  -- a verification that succeeds had a right phone number and passed the check
  verify-checked :
      (phone code name device : String) (now : ℕ) (drawn : Drawn) (s : PhoneOtpService)
      → IsOk (verify_code is_e164 digits_of phone code name device now drawn s).0
      → IsPhone is_e164 digits_of phone × IsOk (check_code phone code now s).0
  unfolding verify_code
  verify-checked phone code name device now drawn s h =
      elim (Bool-cases (not (is_empty phone) && is_e164 phone)) [
        | inr invalid ↦ absurd (rw invalid at h)
        | inl valid ↦ (
          valid,
          continue-IsOk (check_code phone code now s).0
              (λ _. log_in is_e164 digits_of phone name device now drawn)
              (check_code phone code now s).1 (rw valid at h),
        )
      ]

  shut-fails :
      (phone code name device : String) (now : ℕ) (drawn : Drawn) (s : PhoneOtpService)
      → IsShut phone s
      → ¬ IsOk (verify_code is_e164 digits_of phone code name device now drawn s).0
  shut-fails phone code name device now drawn s shut h =
      let found =
        (check_code-IsOk_iff phone code now s).0
          (verify-checked phone code name device now drawn s h).1 in
      cc (shut found.0 found.1, found.3)

  -- Once a code has been sent to a phone, and five guesses or more at it of ASCII text were wrong and
  -- no other code was asked for it, whatever was asked for other phones in between, every verification of
  -- that phone fails, also with the right code.
  pub guesses_run_out :
      (phone secret : String) (now : ℕ) (rest : List Request) (s : PhoneOtpService)
      (code name device : String) (later : ℕ) (drawn : Drawn)
      → IsOk (request_code is_e164 phone secret now s).0
      → All (IsGuess phone secret) rest
      → max_verify_attempts ≤ guesses phone rest
      → ¬ IsOk
          (verify_code is_e164 digits_of phone code name device later drawn
            (serve is_e164 digits_of rest (request_code is_e164 phone secret now s).1)).0
  guesses_run_out phone secret now rest s code name device later drawn sent wrong many =
      let start = request-issues is_e164 digits_of phone secret now s sent in
      let tried =
        serve-Tried phone secret 0 rest (request_code is_e164 phone secret now s).1 start.0 wrong
          start.1 in
      shut-fails phone code name device later drawn _
        (λ r e. let after = tried r e in ground (arith, after, many))

  -- After a verification that succeeds, and any requests that do not ask for a new code for that
  -- phone, every verification of the phone fails: a code serves once.
  pub code_serves_once :
      (phone code name device : String) (now : ℕ) (drawn : Drawn) (rest : List Request)
      (s : PhoneOtpService) (code' name' device' : String) (later : ℕ) (drawn' : Drawn)
      → IsOk (verify_code is_e164 digits_of phone code name device now drawn s).0
      → All (IsQuiet phone) rest
      → ¬ IsOk
          (verify_code is_e164 digits_of phone code' name' device' later drawn' (
            serve is_e164 digits_of rest
              (verify_code is_e164 digits_of phone code name device now drawn s).1)).0
  code_serves_once phone code name device now drawn rest s code' name' device' later drawn' h
        quiet =
      let (valid, checked) = verify-checked phone code name device now drawn s h in
      let found = (check_code-IsOk_iff phone code now s).0 checked in
      let s' = (verify_code is_e164 digits_of phone code name device now drawn s).1 in
      let gone : IsShut phone s' = λ r e. absurd (
        cc (
          passed-get phone code now s checked,
          ap (get phone) (verify-codes is_e164 digits_of phone code name device now drawn s valid),
          e,
        )) in
      shut-fails phone code' name' device' later drawn' _ (serve-IsShut phone rest s' quiet gone)
