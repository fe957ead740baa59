-- ===== src/PhoneOtp/Guesses.antt =====
-- What one verification makes of the code of a phone.
use telegram.Prelude.{
  eq_nat, eq_string, eq_pair, ◌==◌, if◌then◌else◌, Bool-cases, ℕ, ◌+◌, ◌≤◌, ◌<◌, String, ◌≡◌, refl,
  sym, ap, subst, ◌∙◌, ◌≢◌, ◌⊎◌, inl, inr, Bool, true, false, not, ◌&&◌, some, List, [], ◌∷◌, arith,
}
use telegram.Prelude.Dict.{get, get-put_self, get-put_ne, get-pop_self, get-pop_ne}
use telegram.Prelude.Exec.{Result, ok, err, escaped, Exec, continue, IsOk, ◌>>◌}
use telegram.Prelude.Text.{is_empty}
use telegram.Errors.{invalid_phone_number}
use telegram.State.{UserRecord}
use telegram.PhoneOtp.{
  OtpRecord, PhoneOtpService, code_ttl, Drawn, Request, asks, verifies, purge, is_too_soon, issue,
  request_code, check_code, log_in, verify_code, miss, max_verify_attempts, is_ascii,
}
use telegram.PhoneOtp.Rules.{require-true, get-purge-some, check_code-cases}

-- `phone` has no code with attempts left.
abbrev pub IsShut : String → PhoneOtpService → Type 0
IsShut phone s = (r : OtpRecord) → get phone s.codes ≡ some r → r.exhausted ≡ true

-- A code for `phone` is `secret`, and is exhausted or has taken `n` attempts, fewer than allowed.
abbrev pub Tried : String → String → ℕ → PhoneOtpService → Type 0
Tried phone secret n s =
    (r : OtpRecord)
    → get phone s.codes ≡ some r
    → (r.code ≡ secret)
      × ((r.exhausted ≡ true) ⊎ ((n ≤ r.attempts) × (r.attempts < max_verify_attempts)))

-- no new code is asked for, and no guess is the code
abbrev pub IsGuess : String → String → Request → Type 0
IsGuess phone secret (asks p code now) = p ≢ phone
IsGuess phone secret (verifies p code name device now drawn) = (p ≡ phone) → code ≢ secret

-- no new code is asked for
abbrev pub IsQuiet : String → Request → Type 0
IsQuiet phone (asks p code now) = p ≢ phone
IsQuiet phone (verifies p code name device now drawn) = Unit

-- How many verifications of the phone get as far as the comparison: those with an ASCII code.
unfoldable pub guesses : String → List Request → ℕ
guesses phone [] = 0
guesses phone (asks p code now ∷ rest) = guesses phone rest
guesses phone (verifies p code name device now drawn ∷ rest) =
    let later = guesses phone rest in if p == phone && is_ascii code then later + 1 else later

pub guesses_cons :
    (phone : String) (q : Request) (rest : List Request) (n : ℕ)
    → guesses phone rest + (guesses phone (q ∷ []) + n) ≡ guesses phone (q ∷ rest) + n
unfolding guesses
guesses_cons phone (asks p code now) rest n = omega arith
guesses_cons phone (verifies p code name device now drawn) rest n = ground arith

continue-codes :
    {A B : Type 0} (r : Result A) (f : A → Exec PhoneOtpService B) (s : PhoneOtpService)
    → ((a : A) → (f a s).1.codes ≡ s.codes)
    → (continue r f s).1.codes ≡ s.codes
continue-codes (ok a) f s h = h a
continue-codes (err c) f s h = refl
continue-codes escaped f s h = refl

-- a miss is counted, and the last one that is allowed shuts the code
missed :
    (q : OtpRecord) (secret : String) (n : ℕ)
    → q.exhausted ≡ false
    → (q.code ≡ secret)
      × ((q.exhausted ≡ true) ⊎ ((n ≤ q.attempts) × (q.attempts < max_verify_attempts)))
    → ((miss q).code ≡ secret)
      × (((miss q).exhausted ≡ true)
          ⊎ ((n + 1 ≤ (miss q).attempts) × ((miss q).attempts < max_verify_attempts)))
unfolding miss
missed q secret n fresh h = ground arith

issued :
    (phone secret : String) (r : OtpRecord) (now : ℕ)
    → some (record {
      code = secret;
      issued_at = now;
      expires_at = now + code_ttl;
      attempts = 0;
      exhausted = false;
    })
      ≡ some r
    → (r.code ≡ secret)
      × ((r.exhausted ≡ true) ⊎ ((0 ≤ r.attempts) × (r.attempts < max_verify_attempts)))
issued phone secret r now h = ground (arith, h)

module _ (is_e164 : String → Bool) (digits_of : String → String) where
  abbrev pub IsPhone : String → Type 0
  IsPhone phone = (not (is_empty phone) && is_e164 phone) ≡ true

  log_in-codes :
      (phone name device : String) (now : ℕ) (drawn : Drawn) (s : PhoneOtpService)
      → (log_in is_e164 digits_of phone name device now drawn s).1.codes ≡ s.codes
  unfolding log_in
  log_in-codes phone name device now drawn s = refl

  pub verify-codes :
      (phone code name device : String) (now : ℕ) (drawn : Drawn) (s : PhoneOtpService)
      → IsPhone phone
      → (verify_code is_e164 digits_of phone code name device now drawn s).1.codes
        ≡ (check_code phone code now s).1.codes
  unfolding verify_code
  verify-codes phone code name device now drawn s valid =
      let then_in : Exec PhoneOtpService (UserRecord × String × Bool) =
        log_in is_e164 digits_of phone name device now drawn in
      let body : Exec PhoneOtpService (UserRecord × String × Bool) =
        check_code phone code now >> then_in in
      let opened : verify_code is_e164 digits_of phone code name device now drawn s ≡ body s =
        require-true _ invalid_phone_number body s valid in
      ap (λ (x : Result (UserRecord × String × Bool) × PhoneOtpService). x.1.codes) opened
      ∙ continue-codes (check_code phone code now s).0 (λ _. then_in)
          (check_code phone code now s).1
          (λ _. log_in-codes phone name device now drawn (check_code phone code now s).1)

  pub verify-invalid :
      (phone code name device : String) (now : ℕ) (drawn : Drawn) (s : PhoneOtpService)
      → (not (is_empty phone) && is_e164 phone) ≡ false
      → (verify_code is_e164 digits_of phone code name device now drawn s).1.codes ≡ s.codes
  unfolding verify_code
  verify-invalid phone code name device now drawn s h = rw h refl

  -- A verification that is not a right guess for `phone` leaves the record of `phone` as it is,
  -- drops it, or counts it as a miss of `phone`.
  pub verify_other :
      (p phone code name device : String) (now : ℕ) (drawn : Drawn) (s : PhoneOtpService)
      → (r : OtpRecord) → p ≢ phone
      → get phone (verify_code is_e164 digits_of p code name device now drawn s).1.codes ≡ some r
      → get phone s.codes ≡ some r
  verify_other p phone code name device now drawn s r other h =
      elim (Bool-cases (not (is_empty p) && is_e164 p)) [
        | inr invalid ↦
            subst (λ d. get phone d ≡ some r)
              (verify-invalid p code name device now drawn s invalid) h
        | inl valid ↦
            let h' =
              subst (λ d. get phone d ≡ some r) (verify-codes p code name device now drawn s valid)
                h in
            elim (check_code-cases p code s now) [
              | inl (same, _) ↦ subst (λ d. get phone d ≡ some r) same h'
              | inr (inl gone) ↦
                  sym (get-pop_ne p phone s.codes other) ∙ subst (λ d. get phone d ≡ some r) gone h'
              | inr (inr (q, _, _, _, counted)) ↦
                  sym (get-put_ne p phone (miss q) s.codes other)
                  ∙ subst (λ d. get phone d ≡ some r) counted h'
            ]
      ]

  pub asks_other :
      (p phone code : String) (now : ℕ) (s : PhoneOtpService) (r : OtpRecord)
      → p ≢ phone
      → get phone (request_code is_e164 p code now s).1.codes ≡ some r
      → get phone s.codes ≡ some r
  unfolding request_code issue
  asks_other p phone code now s r other h = elim (Bool-cases (not (is_empty p) && is_e164 p)) [
    | inr invalid ↦ rw invalid at h
    | inl valid ↦ elim (Bool-cases (is_too_soon now (get p (purge now s.codes)))) [
      | inl soon ↦ get-purge-some now phone r s.codes (rw (valid, soon) at h)
      | inr late ↦
          get-purge-some now phone r s.codes
            (sym (get-put_ne p phone _ (purge now s.codes) other) ∙ (rw (valid, late) at h))
    ]
  ]

  pub verify_wrong :
      (phone secret code name device : String) (n now : ℕ) (drawn : Drawn) (s : PhoneOtpService)
      → IsPhone phone
      → is_ascii code ≡ true
      → code ≢ secret
      → Tried phone secret n s
      → Tried phone secret
          (n + 1)
          (verify_code is_e164 digits_of phone code name device now drawn s).1
  verify_wrong phone secret code name device n now drawn s valid plain wrong h r e =
      let e' =
        subst (λ d. get phone d ≡ some r) (verify-codes phone code name device now drawn s valid)
          e in
      elim (check_code-cases phone code s now) [
        | inl (same, spent) ↦
            let q = subst (λ d. get phone d ≡ some r) same e' in
            (
              (h r q).0,
              inl (elim (spent r q) [ inl over ↦ over | inr strange ↦ cc (plain, strange) ]),
            )
        | inr (inl gone) ↦ absurd (cc (get-pop_self phone s.codes, gone, e'))
        | inr (inr (q, at, fresh, _, counted)) ↦
            let same : r ≡ miss q =
              cc (get-put_self phone (miss q) s.codes, ap (get phone) counted, e') in
            rw same (missed q secret n fresh (h q at))
      ]

  -- a code that is not ASCII takes no attempt back
  pub verify_strange :
      (phone secret code name device : String) (n now : ℕ) (drawn : Drawn) (s : PhoneOtpService)
      → IsPhone phone
      → Tried phone secret n s
      → Tried phone secret n (verify_code is_e164 digits_of phone code name device now drawn s).1
  verify_strange phone secret code name device n now drawn s valid h r e =
      let e' =
        subst (λ d. get phone d ≡ some r) (verify-codes phone code name device now drawn s valid)
          e in
      elim (check_code-cases phone code s now) [
        | inl (same, _) ↦ h r (subst (λ d. get phone d ≡ some r) same e')
        | inr (inl gone) ↦ absurd (cc (get-pop_self phone s.codes, gone, e'))
        | inr (inr (q, at, fresh, _, counted)) ↦
            let same : r ≡ miss q =
              cc (get-put_self phone (miss q) s.codes, ap (get phone) counted, e') in
            let after = missed q secret n fresh (h q at) in rw same (ground (arith, after))
      ]

  pub request-issues :
      (phone secret : String) (now : ℕ) (s : PhoneOtpService)
      → IsOk (request_code is_e164 phone secret now s).0
      → IsPhone phone × Tried phone secret 0 (request_code is_e164 phone secret now s).1
  unfolding request_code issue
  request-issues phone secret now s h = elim (Bool-cases (not (is_empty phone) && is_e164 phone)) [
    | inr invalid ↦ absurd (rw invalid at h)
    | inl valid ↦ elim (Bool-cases (is_too_soon now (get phone (purge now s.codes)))) [
      | inl soon ↦ absurd (rw (valid, soon) at h)
      | inr late ↦ (
        valid,
        λ r e.
            let at = sym (get-put_self phone _ (purge now s.codes)) ∙ (rw (valid, late) at e) in
            issued phone secret r now at,
      )
    ]
  ]

  pub verify-IsShut :
      (phone code name device : String) (now : ℕ) (drawn : Drawn) (s : PhoneOtpService)
      → IsShut phone s
      → IsShut phone (verify_code is_e164 digits_of phone code name device now drawn s).1
  verify-IsShut phone code name device now drawn s h r e =
      elim (Bool-cases (not (is_empty phone) && is_e164 phone)) [
        | inr invalid ↦ h r (
            subst (λ d. get phone d ≡ some r)
              (verify-invalid phone code name device now drawn s invalid) e)
        | inl valid ↦
            let e' =
              subst (λ d. get phone d ≡ some r)
                (verify-codes phone code name device now drawn s valid) e in
            elim (check_code-cases phone code s now) [
              | inl (same, spent) ↦ h r (subst (λ d. get phone d ≡ some r) same e')
              | inr (inl gone) ↦ absurd (cc (get-pop_self phone s.codes, gone, e'))
              | inr (inr (q, at, fresh, _, counted)) ↦ absurd (cc (h q at, fresh))
            ]
      ]
