-- ===== src/PhoneOtp/Moves.antt =====
-- What one request makes of the code of a phone.
use telegram.Prelude.{
  eq_nat, eq_string, eq_pair, ◌==◌, ==_iff, Bool-cases, ℕ, ◌+◌, String, ◌≡◌, sym, subst, inl, inr,
  Bool, [], ◌∷◌, arith,
}
use telegram.PhoneOtp.{PhoneOtpService, Request, asks, verifies, verify_code, handle, is_ascii}
use telegram.PhoneOtp.Guesses.{
  IsShut, Tried, IsGuess, IsQuiet, guesses, IsPhone, verify_other, asks_other, verify_wrong,
  verify_strange, verify-IsShut,
}

module _ (is_e164 : String → Bool) (digits_of : String → String) where
  pub step-Tried :
      (phone secret : String) (n : ℕ) (q : Request) (s : PhoneOtpService)
      → IsPhone is_e164 digits_of phone
      → IsGuess phone secret q
      → Tried phone secret n s
      → Tried phone secret (guesses phone (q ∷ []) + n) (handle is_e164 digits_of q s)
  unfolding handle guesses
  step-Tried phone secret n (asks p code now) s valid guess h r e =
      let after = h r (asks_other is_e164 digits_of p phone code now s r guess e) in
      ground (arith, after)
  step-Tried phone secret n (verifies p code name device now drawn) s valid guess h r e =
      elim (Bool-cases (p == phone)) [
        | inl same ↦
            let is : p ≡ phone = (==_iff p phone).0 same in
            let at : (m : ℕ)
                → Tried phone secret m
                    (verify_code is_e164 digits_of phone code name device now drawn s).1
                → Tried phone secret m
                    (verify_code is_e164 digits_of p code name device now drawn s).1 =
              λ m.
                subst
                  (λ x.
                    Tried phone secret m
                      (verify_code is_e164 digits_of x code name device now drawn s).1)
                  (sym is) in
            elim (Bool-cases (is_ascii code)) [
              | inl plain ↦
                  let after =
                    at (n + 1)
                      (verify_wrong is_e164 digits_of phone secret code name device n now drawn s
                        valid plain (guess is) h)
                      r e in
                  rw (same, plain) (ground (arith, after))
              | inr strange ↦
                  let after =
                    at n
                      (verify_strange is_e164 digits_of phone secret code name device n now drawn s
                        valid h)
                      r e in
                  rw (same, strange) (ground (arith, after))
            ]
        | inr other ↦
            let after = h r (
              verify_other is_e164 digits_of p phone code name device now drawn s r
                (λ q. cc ((==_iff p phone).1 q, other)) e) in
            rw other (ground (arith, after))
      ]

  pub step-IsShut :
      (phone : String) (q : Request) (s : PhoneOtpService)
      → IsQuiet phone q
      → IsShut phone s
      → IsShut phone (handle is_e164 digits_of q s)
  unfolding handle
  step-IsShut phone (asks p code now) s quiet h r e =
      h r (asks_other is_e164 digits_of p phone code now s r quiet e)
  step-IsShut phone (verifies p code name device now drawn) s quiet h r e =
      elim (Bool-cases (p == phone)) [
        | inl same ↦
            let is : p ≡ phone = (==_iff p phone).0 same in
            let w : IsShut phone (verify_code is_e164 digits_of p code name device now drawn s).1 =
              subst
                (λ x. IsShut phone (verify_code is_e164 digits_of x code name device now drawn s).1)
                (sym is) (verify-IsShut is_e164 digits_of phone code name device now drawn s h) in
            w r e
        | inr other ↦ h r (
            verify_other is_e164 digits_of p phone code name device now drawn s r
              (λ q. cc ((==_iff p phone).1 q, other)) e)
      ]
