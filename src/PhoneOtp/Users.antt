-- ===== src/PhoneOtp/Users.antt =====
-- The ids that new phone accounts get.
use telegram.Prelude.{
  eq_nat, eq_string, eq_pair, nat_eq, Bool-cases, Option-cases, nat_eq_iff, length, ℕ, zero, suc,
  ◌+◌, ◌≤◌, ◌<◌, String, ◌≡◌, refl, subst, ◌≢◌, ◌⊎◌, inl, inr, true, false, none, arith,
}
use telegram.Prelude.Dict.{Dict, get, pop, has, get-pop_ne, length-pop-lt}
use telegram.Prelude.Text.{numbered, numbered_injective}
use Prim.Native.String.{◌++◌ as ◌++ₛ◌}
use telegram.State.{UserRecord}
use telegram.PhoneOtp.{free_suffix, next_user_id}

missing : (k : String) (d : Dict String UserRecord) → has k d ≡ true → ¬ (get k d ≡ none)
missing k d h e = let q : has k d ≡ false = rw (e, has) refl in cc (q, h)

not_missing : (k : String) (d : Dict String UserRecord) → has k d ≡ false → get k d ≡ none
not_missing k d h = elim (Option-cases (get k d)) [
  | inl e ↦ e
  | inr (u, e) ↦ let q : has k d ≡ true = rw (e, has) refl in cc (q, h)
]

-- the other numbers stay when one is taken out
popped :
    (stem : String) (s i : ℕ) (d : Dict String UserRecord)
    → s < i
    → has (numbered stem i) d ≡ true
    → has (numbered stem i) (pop (numbered stem s) d) ≡ true
popped stem s i d lt h =
    let other : numbered stem s ≢ numbered stem i =
      λ q. absurd (omega (arith, lt, numbered_injective stem s i q)) in
    rw (get-pop_ne (numbered stem s) (numbered stem i) d other, has) h

-- `n` numbered keys in a row need a table of `n` entries
numbered_fit :
    (stem : String) (s n : ℕ) (d : Dict String UserRecord)
    → ((i : ℕ) → s ≤ i → i < s + n → has (numbered stem i) d ≡ true)
    → n ≤ length d
numbered_fit stem s zero d h = omega arith
numbered_fit stem s (suc n) d h = elim (Option-cases (get (numbered stem s) d)) [
  | inl e ↦ absurd (missing (numbered stem s) d (h s (omega arith) (omega arith)) e)
  | inr (u, e) ↦
      let smaller =
        numbered_fit stem (suc s) n (pop (numbered stem s) d)
          (λ i lo hi. popped stem s i d (omega arith) (h i (omega arith) (omega arith))) in
      omega (arith, smaller, length-pop-lt (numbered stem s) u d e)
]

module _ (stem : String) (users : Dict String UserRecord) where
  -- the first number and those after it
  at_or_after :
      (s n : ℕ)
      → has (numbered stem s) users ≡ true
      → ((i : ℕ) → s + 1 ≤ i → i < s + 1 + n → has (numbered stem i) users ≡ true)
      → (i : ℕ) → s ≤ i
      → i < s + suc n
      → has (numbered stem i) users ≡ true
  at_or_after s n first all i lo hi = elim (Bool-cases (nat_eq s i)) [
    | inl same ↦ subst (λ x. has (numbered stem x) users ≡ true) ((nat_eq_iff s i).0 same) first
    | inr other ↦ all i (ground arith) (omega arith)
  ]

  -- the last number and those before it
  up_to :
      (s n : ℕ)
      → has (numbered stem (s + n)) users ≡ true
      → ((i : ℕ) → s ≤ i → i < s + n → has (numbered stem i) users ≡ true)
      → (i : ℕ) → s ≤ i
      → i < s + (n + 1)
      → has (numbered stem i) users ≡ true
  up_to s n last all i lo hi = elim (Bool-cases (nat_eq (s + n) i)) [
    | inl same ↦
        subst (λ x. has (numbered stem x) users ≡ true) ((nat_eq_iff (s + n) i).0 same) last
    | inr other ↦ all i lo (ground arith)
  ]

  free_suffix-cases :
      (fuel s : ℕ)
      → (get (numbered stem (free_suffix fuel stem s users)) users ≡ none)
        ⊎ ((free_suffix fuel stem s users ≡ s + fuel)
            × ((i : ℕ) → s ≤ i → i < s + fuel → has (numbered stem i) users ≡ true))
  unfolding free_suffix
  free_suffix-cases zero s = inr (omega arith, λ i lo hi. absurd (omega arith))
  free_suffix-cases (suc fuel) s = elim (Bool-cases (has (numbered stem s) users)) [
    | inr free ↦ inl (rw free (not_missing (numbered stem s) users free))
    | inl taken ↦ rw taken (elim (free_suffix-cases fuel (s + 1)) [
      | inl free ↦ inl free
      | inr (end, all) ↦ inr (omega (arith, end), λ i lo hi. at_or_after s fuel taken all i lo hi)
    ])
  ]

  free_suffix-free :
      (s : ℕ) → get (numbered stem (free_suffix (length users) stem s users)) users ≡ none
  free_suffix-free s = elim (free_suffix-cases (length users) s) [
    | inl free ↦ free
    | inr (end, all) ↦ elim (Bool-cases (has (numbered stem (s + length users)) users)) [
      | inr free ↦ rw end (not_missing (numbered stem (s + length users)) users free)
      | inl taken ↦ absurd (
          omega (
            arith,
            numbered_fit stem s (length users + 1) users
                (λ i lo hi. up_to s (length users) taken all i lo hi),
          ))
    ]
  ]

-- The id of a new phone account is not that of an account that exists.
pub next_user_id-unused :
    (digits : String) (users : Dict String UserRecord)
    → get (next_user_id digits users) users ≡ none
unfolding next_user_id
next_user_id-unused digits users =
    let candidate = "u_phone_" ++ₛ digits in
    elim (Bool-cases (has candidate users)) [
      | inl taken ↦ rw taken (free_suffix-free (candidate ++ₛ "_") users 1)
      | inr free ↦ rw free (not_missing candidate users free)
    ]
