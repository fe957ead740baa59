-- ===== src/PhoneOtp/Rules.antt =====
-- What a request makes of the table of codes.
use telegram.Prelude.{
  eq_nat, eq_string, eq_pair, ◌==◌, ==_iff, ltb, leb, if◌then◌else◌, Bool-cases, Option-cases, ℕ,
  ◌+◌, ◌≤◌, String, ◌≡◌, refl, sym, ap, subst, ◌∙◌, ◌≢◌, ◌↔◌, ◌⊎◌, inl, inr, Bool, true, false, not,
  Option, none, some, [], ◌∷◌, arith,
}
use telegram.Prelude.Dict.{Dict, get, put, pop, get-pop}
use telegram.Prelude.Exec.{Result, Exec, escape, require, IsOk, ◌>>◌}
use telegram.Errors.{ErrorCode, otp_attempts_exhausted}
use telegram.PhoneOtp.{
  OtpRecord, PhoneOtpService, purge, miss, refuse, burn, compare_code, check_found, check_code,
  max_verify_attempts, is_ascii,
}

kept : ℕ → Option OtpRecord → Option OtpRecord
kept now none = none
kept now (some r) = if leb now r.expires_at then some r else none

get-purge :
    (now : ℕ) (k : String) (d : Dict String OtpRecord) → get k (purge now d) ≡ kept now (get k d)
unfolding purge get kept
get-purge now k [] = refl
get-purge now k ((j, r) ∷ d) =
    ground (arith, get-purge now k d, get-pop j k (purge now d), ==_iff j k)

-- a record that the table has after a request had been there before, or counts one attempt more
pub get-purge-some :
    (now : ℕ) (k : String) (r : OtpRecord) (d : Dict String OtpRecord)
    → get k (purge now d) ≡ some r
    → get k d ≡ some r
unfolding kept
get-purge-some now k r d h = ground (arith, get-purge now k d, h)

refuse-codes :
    (phone : String) (r : OtpRecord) (s : PhoneOtpService)
    → (refuse phone r s).1.codes ≡ put phone (miss r) s.codes
unfolding refuse
refuse-codes phone r s = elim (Bool-cases (ltb (r.attempts + 1) max_verify_attempts)) [
  | inl more ↦ rw more refl
  | inr last ↦ rw last refl
]

pub require-true :
    {S B : Type 0} (b : Bool) (c : ErrorCode) (m : Exec S B) (s : S)
    → b ≡ true
    → (require b c >> m) s ≡ m s
require-true true c m s h = refl
require-true false c m s h = cc

same_exhausted :
    (b : Bool) (r r' : OtpRecord)
    → some r ≡ some r'
    → (r.exhausted ≡ true) ⊎ (b ≡ false)
    → (r'.exhausted ≡ true) ⊎ (b ≡ false)
same_exhausted b r r' q h =
    let e : r ≡ r' = cc in subst (λ (x : OtpRecord). (x.exhausted ≡ true) ⊎ (b ≡ false)) e h

module _ (phone code : String) (s : PhoneOtpService) where
  refused :
      (r : OtpRecord)
      → r.exhausted ≡ false
      → is_ascii code ≡ true
      → (r.code == code) ≡ false
      → (compare_code phone code r s).1.codes ≡ (refuse phone r s).1.codes
  unfolding compare_code
  refused r fresh plain other =
      let branch : Exec PhoneOtpService Unit = elim (is_ascii code) [
        | true ↦ elim (r.code == code) [ true ↦ burn phone | false ↦ refuse phone r ]
        | false ↦ escape
      ] in
      let opened : (compare_code phone code r s) ≡ branch s =
        require-true (not r.exhausted) otp_attempts_exhausted branch s (ap not fresh) in
      let taken : branch s ≡ refuse phone r s = rw (plain, other) refl in
      ap (λ (x : Result Unit × PhoneOtpService). x.1.codes) (opened ∙ taken)

  compare_code-cases :
      (r : OtpRecord)
      → (((compare_code phone code r s).1.codes ≡ s.codes)
          × ((r.exhausted ≡ true) ⊎ (is_ascii code ≡ false)))
        ⊎ ((compare_code phone code r s).1.codes ≡ pop phone s.codes)
        ⊎ ((r.exhausted ≡ false)
            × (r.code ≢ code)
            × ((compare_code phone code r s).1.codes ≡ put phone (miss r) s.codes))
  unfolding compare_code burn
  compare_code-cases r = elim (Bool-cases r.exhausted) [
    | inl spent ↦ inl (simp spent refl, inl spent)
    | inr fresh ↦ elim (Bool-cases (is_ascii code)) [
      | inr strange ↦ inl (simp (fresh, strange) refl, inr strange)
      | inl plain ↦ elim (Bool-cases (r.code == code)) [
        | inl same ↦ inr (inl (simp (fresh, plain, same) refl))
        | inr other ↦ inr (
            inr (
              fresh,
              (λ q. cc ((==_iff r.code code).1 q, other)),
              refused r fresh plain other ∙ refuse-codes phone r s,
            ))
      ]
    ]
  ]

  check_found-cases :
      (now : ℕ) (r : OtpRecord)
      → (((check_found phone code now r s).1.codes ≡ s.codes)
          × ((r.exhausted ≡ true) ⊎ (is_ascii code ≡ false)))
        ⊎ ((check_found phone code now r s).1.codes ≡ pop phone s.codes)
        ⊎ ((r.exhausted ≡ false)
            × (r.code ≢ code)
            × ((check_found phone code now r s).1.codes ≡ put phone (miss r) s.codes))
  unfolding check_found burn
  check_found-cases now r = elim (Bool-cases (ltb r.expires_at now)) [
    | inl late ↦ inr (inl (rw (late, check_found, burn) refl))
    | inr early ↦
        let e : check_found phone code now r s ≡ compare_code phone code r s =
          rw (early, check_found) refl in
        rw e (compare_code-cases r)
  ]

  -- the ways a check can go: nothing to find, no attempts left or no ASCII code, the code is gone, one attempt more
  pub check_code-cases :
      (now : ℕ)
      → (((check_code phone code now s).1.codes ≡ s.codes)
          × ((r : OtpRecord)
              → get phone s.codes ≡ some r
              → (r.exhausted ≡ true) ⊎ (is_ascii code ≡ false)))
        ⊎ ((check_code phone code now s).1.codes ≡ pop phone s.codes)
        ⊎ ((r : OtpRecord) × (get phone s.codes ≡ some r)
            × (r.exhausted ≡ false)
            × (r.code ≢ code)
            × ((check_code phone code now s).1.codes ≡ put phone (miss r) s.codes))
  unfolding check_code
  check_code-cases now = elim (Option-cases (get phone s.codes)) [
    | inl e ↦ inl (rw (e, check_code) refl, λ r q. cc (e, q))
    | inr (r, e) ↦
        let found : check_code phone code now s ≡ check_found phone code now r s =
          rw (e, check_code) refl in
        rw found (elim (check_found-cases now r) [
          | inl (same, spent) ↦
              inl (same, λ r' q. same_exhausted (is_ascii code) r r' (sym e ∙ q) spent)
          | inr (inl gone) ↦ inr (inl gone)
          | inr (inr (fresh, other, counted)) ↦ inr (inr (r, e, fresh, other, counted))
        ])
  ]

compare_code-IsOk_iff :
    (phone code : String) (r : OtpRecord) (s : PhoneOtpService)
    → IsOk (compare_code phone code r s).0
      ↔ ((r.exhausted ≡ false) × (r.code ≡ code) × (is_ascii code ≡ true))
unfolding compare_code refuse burn
compare_code-IsOk_iff phone code r s = ground (arith, ==_iff r.code code)

check_found-IsOk_iff :
    (phone code : String) (now : ℕ) (r : OtpRecord) (s : PhoneOtpService)
    → IsOk (check_found phone code now r s).0
      ↔ ((now ≤ r.expires_at) × (r.exhausted ≡ false) × (r.code ≡ code) × (is_ascii code ≡ true))
unfolding check_found burn
check_found-IsOk_iff phone code now r s = ground (arith, compare_code-IsOk_iff phone code r s)

-- A check succeeds exactly for a code that was issued for the phone, has not expired, has attempts
-- left, and is the one given, which is ASCII.
pub check_code-IsOk_iff :
    (phone code : String) (now : ℕ) (s : PhoneOtpService)
    → IsOk (check_code phone code now s).0 ↔ (
        (r : OtpRecord) × (get phone s.codes ≡ some r)
        × (now ≤ r.expires_at)
        × (r.exhausted ≡ false)
        × (r.code ≡ code)
        × (is_ascii code ≡ true))
unfolding check_code
check_code-IsOk_iff phone code now s = elim (Option-cases (get phone s.codes)) [
  | inl e ↦ rw e ((λ h. absurd h), λ h. cc h.1)
  | inr (r, e) ↦
      let found : check_code phone code now s ≡ check_found phone code now r s = rw e refl in
      let iff = check_found-IsOk_iff phone code now r s in
      rw found (
        (λ h. (r, e, (iff.0 h).0, (iff.0 h).1, (iff.0 h).2, (iff.0 h).3)),
        λ h.
            let same : h.0 ≡ r = cc (e, h.1) in
            iff.1 (
              subst
                (λ (x : OtpRecord).
                  (now ≤ x.expires_at)
                  × (x.exhausted ≡ false)
                  × (x.code ≡ code)
                  × (is_ascii code ≡ true))
                same (h.2, h.3, h.4, h.5)),
      )
]
