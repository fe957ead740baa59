-- ===== src/TwoFa/Safety.antt =====
-- Two-factor login stays on, and enrolments wait only for users without it.
use telegram.Prelude.{
  eq_nat, eq_string, eq_pair, ◌==◌, ==_iff, Bool-cases, All, ℕ, String, ◌≡◌, refl, sym, ap, subst,
  ◌∙◌, ◌≢◌, ◌↔◌, ◌⊎◌, inl, inr, Bool, true, false, none, some, List, [], ◌∷◌, arith,
}
use telegram.Prelude.Dict.{get, put, pop, get-put_self, get-put_ne, get-pop_self, get-pop_ne}
use telegram.Prelude.Text.{Bytes, is_empty}
use telegram.State.{UserRecord}
use telegram.TwoFa.{
  TwoFaService, Request, begins, discards, confirms, disables, set_secret,
  discard_pending_enrollment, verify_totp, verify_login_code, handle, serve,
}
use telegram.TwoFa.Rules.{
  IsValid, LacksCode, confirm_enable-cases, disable-cases, begin_enable-cases, set_secret-users,
  set_secret-pending, handle-keeps,
}

now_off :
    (v u secret k : String) (user w : UserRecord) (s : TwoFaService)
    → v ≡ u
    → (get v s.pending ≡ none) ⊎ (is_empty secret ≡ true)
    → get u s.pending ≡ some k
    → get u (put v (record user { two_fa_secret = secret }) s.state.users) ≡ some w
    → is_empty w.two_fa_secret ≡ true
now_off v u secret k user w s is (inl none_waits) p e =
    absurd (cc (none_waits, ap (λ x. get x s.pending) is, p))
now_off v u secret k user w s is (inr off) p e =
    let made : UserRecord = record user { two_fa_secret = secret } in
    let same : made ≡ w =
      cc (get-put_self v made s.state.users, ap (λ x. get x (put v made s.state.users)) is, e) in
    ap (λ (x : UserRecord). is_empty x.two_fa_secret) (sym same) ∙ off

-- switching off keeps the invariant, and so does switching on once nothing waits
switched :
    (v secret : String) (user : UserRecord) (s : TwoFaService)
    → IsValid s
    → (get v s.pending ≡ none) ⊎ (is_empty secret ≡ true)
    → IsValid (set_secret v user secret s)
switched v secret user s valid h = record {
  waits = λ u k w p e.
      let p' = subst (λ d. get u d ≡ some k) (set_secret-pending v user secret s) p in
      let e' = subst (λ d. get u d ≡ some w) (set_secret-users v user secret s) e in
      elim (Bool-cases (v == u)) [
        | inr other ↦
            let ne : v ≢ u = λ q. cc ((==_iff v u).1 q, other) in
            valid.waits u k w p' (sym (get-put_ne v u _ s.state.users ne) ∙ e')
        | inl same ↦
            let is : v ≡ u = (==_iff v u).0 same in now_off v u secret k user w s is h p' e'
      ];
}

-- an enrolment begins only for a user whose two-factor login is off
enrolled :
    (v fresh : String) (s : TwoFaService)
    → IsValid s
    → ((user : UserRecord) → get v s.state.users ≡ some user → is_empty user.two_fa_secret ≡ true)
    → IsValid (record s { pending = put v fresh s.pending })
enrolled v fresh s valid off = record {
  waits = λ u k w p e. elim (Bool-cases (v == u)) [
    | inr other ↦
        let ne : v ≢ u = λ q. cc ((==_iff v u).1 q, other) in
        valid.waits u k w (sym (get-put_ne v u fresh s.pending ne) ∙ p) e
    | inl same ↦ off w (subst (λ x. get x s.state.users ≡ some w) (sym ((==_iff v u).0 same)) e)
  ];
}

dropped :
    (v : String) (s : TwoFaService) → IsValid s → IsValid (record s { pending = pop v s.pending })
dropped v s valid = record {
  waits = λ u k w p e. elim (Bool-cases (v == u)) [
    | inr other ↦
        let ne : v ≢ u = λ q. cc ((==_iff v u).1 q, other) in
        valid.waits u k w (sym (get-pop_ne v u s.pending ne) ∙ p) e
    | inl same ↦
        absurd (
          cc (get-pop_self v s.pending, ap (λ x. get x (pop v s.pending)) ((==_iff v u).0 same), p))
  ];
}

module _ (digest_of : String → ℕ → Bytes) (is_six_digits : String → Bool) where
  -- Every request keeps the invariant: an enrolment waits only for a user whose login is off.
  pub handle-IsValid :
      (r : Request) (s : TwoFaService) → IsValid s → IsValid (handle digest_of is_six_digits r s)
  unfolding handle
  handle-IsValid (begins v fresh) s valid = elim (begin_enable-cases v fresh s) [
    | inl same ↦ rw same valid
    | inr (off, made) ↦ rw made (enrolled v fresh s valid off)
  ]
  handle-IsValid (discards v) s valid = unfold discard_pending_enrollment in dropped v s valid
  handle-IsValid (confirms v code now) s valid =
      elim (confirm_enable-cases digest_of is_six_digits v code now s) [
        | inl same ↦ rw same valid
        | inr (secret, owner, p, f, made) ↦ rw made (
            switched v secret owner (record s { pending = pop v s.pending }) (dropped v s valid)
              (inl (get-pop_self v s.pending)))
      ]
  handle-IsValid (disables v code now) s valid =
      elim (disable-cases digest_of is_six_digits v code now s) [
        | inl same ↦ rw same valid
        | inr (owner, f, right, made) ↦ rw made (switched v "" owner s valid (inr refl))
      ]

  -- From a valid service, while no request to turn two-factor login off for a user has a code that
  -- is right for the user's secret, the record of a user with a secret stays as it is: the secret is
  -- neither removed nor replaced, whatever else is asked for.
  pub serve-keeps :
      (u : String) (user : UserRecord) (rest : List Request) (s : TwoFaService)
      → IsValid s
      → get u s.state.users ≡ some user
      → is_empty user.two_fa_secret ≡ false
      → All (LacksCode digest_of is_six_digits u user.two_fa_secret) rest
      → get u (serve digest_of is_six_digits rest s).state.users ≡ some user
  unfolding serve
  serve-keeps u user [] s valid e on lacks = e
  serve-keeps u user (r ∷ rest) s valid e on lacks =
      serve-keeps u user rest (handle digest_of is_six_digits r s) (handle-IsValid r s valid)
        (handle-keeps digest_of is_six_digits u user r s valid e on lacks.0) on lacks.1

  -- A user with a secret who is in the table logs in exactly with a code that is right for it at
  -- that time; a user without one needs no code.
  pub verify_login_code_iff :
      (u code : String) (now : ℕ) (user : UserRecord) (s : TwoFaService)
      → get u s.state.users ≡ some user
      → (verify_login_code digest_of is_six_digits u code now s ≡ true) ↔ (
          (is_empty user.two_fa_secret ≡ true)
          ⊎ (verify_totp digest_of is_six_digits user.two_fa_secret code now ≡ true))
  unfolding verify_login_code
  verify_login_code_iff u code now user s e = rw (e, verify_login_code) (ground arith)
