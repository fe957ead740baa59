-- ===== src/TwoFa/Rules.antt =====
-- Once two-factor login is on, only a right code turns it off.
use telegram.Prelude.{
  eq_nat, eq_string, eq_pair, Bool-cases, Option-cases, ℕ, String, ◌≡◌, refl, sym, ap, subst, ◌∙◌,
  ◌≢◌, ◌⊎◌, inl, inr, Bool, true, false, some,
}
use telegram.Prelude.Dict.{get, put, pop, get-put_ne}
use telegram.Prelude.Text.{Bytes, is_empty}
use telegram.State.{UserRecord, save_runtime_state}
use telegram.TwoFa.{
  TwoFaService, Request, begins, discards, confirms, disables, set_secret, begin_enable,
  discard_pending_enrollment, verify_totp, confirm_enable, disable, handle,
}

-- An enrolment waits only for a user whose two-factor login is off.
pub record IsValid (s : TwoFaService) : Type 0 where
  pub waits :
      (u secret : String) (user : UserRecord)
      → get u s.pending ≡ some secret
      → get u s.state.users ≡ some user
      → is_empty user.two_fa_secret ≡ true

module _ (digest_of : String → ℕ → Bytes) (is_six_digits : String → Bool) where
  pub confirm_enable-cases :
      (u code : String) (now : ℕ) (s : TwoFaService)
      → ((confirm_enable digest_of is_six_digits u code now s).1 ≡ s)
        ⊎ ((secret : String) × (user : UserRecord) × (get u s.pending ≡ some secret)
            × (get u s.state.users ≡ some user)
            × ((confirm_enable digest_of is_six_digits u code now s).1
                ≡ set_secret u user secret (record s { pending = pop u s.pending })))
  unfolding confirm_enable
  confirm_enable-cases u code now s = elim (Option-cases (get u s.pending)) [
    | inl e ↦ inl (rw (e, confirm_enable) refl)
    | inr (secret, e) ↦ elim (Bool-cases (verify_totp digest_of is_six_digits secret code now)) [
      | inr wrong ↦ inl (rw (e, wrong, confirm_enable) refl)
      | inl right ↦ elim (Option-cases (get u s.state.users)) [
        | inl f ↦ inl (rw (e, right, f, confirm_enable) refl)
        | inr (user, f) ↦ inr (secret, user, e, f, rw (e, right, f, confirm_enable) refl)
      ]
    ]
  ]

  pub disable-cases :
      (u code : String) (now : ℕ) (s : TwoFaService)
      → ((disable digest_of is_six_digits u code now s).1 ≡ s)
        ⊎ ((user : UserRecord) × (get u s.state.users ≡ some user)
            × (verify_totp digest_of is_six_digits user.two_fa_secret code now ≡ true)
            × ((disable digest_of is_six_digits u code now s).1 ≡ set_secret u user "" s))
  unfolding disable
  disable-cases u code now s = elim (Option-cases (get u s.state.users)) [
    | inl e ↦ inl (rw (e, disable) refl)
    | inr (user, e) ↦ elim (Bool-cases (is_empty user.two_fa_secret)) [
      | inl off ↦ inl (rw (e, off, disable) refl)
      | inr on ↦
          elim (Bool-cases (verify_totp digest_of is_six_digits user.two_fa_secret code now)) [
            | inr wrong ↦ inl (rw (e, on, wrong, disable) refl)
            | inl right ↦ inr (user, e, right, rw (e, on, right, disable) refl)
          ]
    ]
  ]

same_off :
    (a b : UserRecord)
    → some a ≡ some b
    → is_empty a.two_fa_secret ≡ true
    → is_empty b.two_fa_secret ≡ true
same_off a b q h =
    let e : a ≡ b = cc in subst (λ (x : UserRecord). is_empty x.two_fa_secret ≡ true) e h

pub begin_enable-cases :
    (u secret : String) (s : TwoFaService)
    → ((begin_enable u secret s).1 ≡ s)
      ⊎ (((user : UserRecord)
            → get u s.state.users ≡ some user
            → is_empty user.two_fa_secret ≡ true)
          × ((begin_enable u secret s).1 ≡ record s { pending = put u secret s.pending }))
unfolding begin_enable
begin_enable-cases u secret s = elim (Option-cases (get u s.state.users)) [
  | inl e ↦ inl (rw (e, begin_enable) refl)
  | inr (user, e) ↦ elim (Bool-cases (is_empty user.two_fa_secret)) [
    | inr on ↦ inl (rw (e, on, begin_enable) refl)
    | inl off ↦ inr (λ user' q. same_off user user' (sym e ∙ q) off, rw (e, off, begin_enable) refl)
  ]
]

same_user :
    (v u : String) (a b : UserRecord) (s : TwoFaService)
    → v ≡ u
    → get v s.state.users ≡ some a
    → get u s.state.users ≡ some b
    → a.two_fa_secret ≡ b.two_fa_secret
same_user v u a b s q f e =
    let same : a ≡ b = cc (f, e, ap (λ x. get x s.state.users) q) in
    ap (λ (x : UserRecord). x.two_fa_secret) same

pub set_secret-users :
    (u : String) (user : UserRecord) (secret : String) (s : TwoFaService)
    → (set_secret u user secret s).state.users
      ≡ put u (record user { two_fa_secret = secret }) s.state.users
unfolding set_secret save_runtime_state
set_secret-users u user secret s = refl

pub set_secret-pending :
    (u : String) (user : UserRecord) (secret : String) (s : TwoFaService)
    → (set_secret u user secret s).pending ≡ s.pending
unfolding set_secret
set_secret-pending u user secret s = refl

module _ (digest_of : String → ℕ → Bytes) (is_six_digits : String → Bool) where
  -- a request to turn it off for `u` has a code that is not right for `secret`
  abbrev pub LacksCode : String → String → Request → Type 0
  LacksCode u secret (begins v fresh) = Unit
  LacksCode u secret (discards v) = Unit
  LacksCode u secret (confirms v code now) = Unit
  LacksCode u secret (disables v code now) =
      v ≡ u → verify_totp digest_of is_six_digits secret code now ≡ false

  set_secret_other :
      (v u : String) (new_one user : UserRecord) (secret : String) (s : TwoFaService)
      → v ≢ u
      → get u s.state.users ≡ some user
      → get u (set_secret v new_one secret s).state.users ≡ some user
  set_secret_other v u new_one user secret s other e =
      ap (get u) (set_secret-users v new_one secret s) ∙ get-put_ne v u _ s.state.users other ∙ e

  pub handle-keeps :
      (u : String) (user : UserRecord) (r : Request) (s : TwoFaService)
      → IsValid s
      → get u s.state.users ≡ some user
      → is_empty user.two_fa_secret ≡ false
      → LacksCode u user.two_fa_secret r
      → get u (handle digest_of is_six_digits r s).state.users ≡ some user
  unfolding handle
  handle-keeps u user (begins v fresh) s valid e on lacks = elim (begin_enable-cases v fresh s) [
    | inl same ↦ rw same e
    | inr (_, made) ↦ rw made e
  ]
  handle-keeps u user (discards v) s valid e on lacks = unfold discard_pending_enrollment in e
  handle-keeps u user (confirms v code now) s valid e on lacks =
      elim (confirm_enable-cases digest_of is_six_digits v code now s) [
        | inl same ↦ rw same e
        | inr (secret, owner, p, f, made) ↦
            let other : v ≢ u = λ q. cc (
              valid.waits v secret owner p f,
              ap is_empty (same_user v u owner user s q f e),
              on,
            ) in
            ap (λ (x : TwoFaService). get u x.state.users) made
            ∙ set_secret_other v u owner user secret (record s { pending = pop v s.pending }) other
                e
      ]
  handle-keeps u user (disables v code now) s valid e on lacks =
      elim (disable-cases digest_of is_six_digits v code now s) [
        | inl same ↦ rw same e
        | inr (owner, f, right, made) ↦
            let other : v ≢ u = λ q. cc (
              lacks q,
              right,
              ap (λ k. verify_totp digest_of is_six_digits k code now)
                  (same_user v u owner user s q f e),
            ) in
            ap (λ (x : TwoFaService). get u x.state.users) made
            ∙ set_secret_other v u owner user "" s other e
      ]
