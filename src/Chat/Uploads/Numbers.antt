-- ===== src/Chat/Uploads/Numbers.antt =====
-- The numbers that stand in the keys of a table.
use telegram.Prelude.{
  eq_nat, eq_string, eq_pair, ◌==◌, ==_iff, Bool-cases, ℕ, ◌≤◌, ◌<◌, String, ◌≡◌, refl, sym, subst,
  ◌∙◌, inl, inr, none, some, arith,
}
use telegram.Prelude.Dict.{Dict, get, put, pop, get-put, get-pop}
use telegram.Prelude.Text.{numbered, numbered_injective}

-- The numbers of the keys with the prefix are below `b`.
abbrev pub IsUnder : {A : Type 0} → String → ℕ → Dict String A → Type 0
IsUnder {A = A} prefix b d = (n : ℕ) (x : A) → get (numbered prefix n) d ≡ some x → n < b

pub IsUnder-put :
    {A : Type 0} (prefix : String) (b c k : ℕ) (x : A) (d : Dict String A)
    → IsUnder prefix b d
    → b ≤ c
    → k < c
    → IsUnder prefix c (put (numbered prefix k) x d)
IsUnder-put prefix b c k x d under le lt n y h =
    elim (Bool-cases (numbered prefix k == numbered prefix n)) [
      | inl here ↦
          let same = numbered_injective prefix _ _ ((==_iff _ _).0 here) in omega (arith, same, lt)
      | inr there ↦
          let before : get (numbered prefix n) (put (numbered prefix k) x d)
              ≡ get (numbered prefix n) d =
            get-put (numbered prefix k) (numbered prefix n) x d ∙ rw there refl in
          omega (arith, le, under n y (sym before ∙ h))
    ]

pub IsUnder-replace :
    {A : Type 0} (prefix : String) (b : ℕ) (id : String) (x y : A) (d : Dict String A)
    → IsUnder prefix b d
    → get id d ≡ some x
    → IsUnder prefix b (put id y d)
IsUnder-replace prefix b id x y d under found n z h = elim (Bool-cases (id == numbered prefix n)) [
  | inl here ↦ under n x (subst (λ k. get k d ≡ some x) ((==_iff _ _).0 here) found)
  | inr there ↦ under n z (sym (get-put id (numbered prefix n) y d ∙ rw there refl) ∙ h)
]

pub IsUnder-pop :
    {A : Type 0} (prefix : String) (b : ℕ) (id : String) (d : Dict String A)
    → IsUnder prefix b d
    → IsUnder prefix b (pop id d)
IsUnder-pop prefix b id d under n z h = elim (Bool-cases (id == numbered prefix n)) [
  | inl here ↦
      let gone : get (numbered prefix n) (pop id d) ≡ none =
        get-pop id (numbered prefix n) d ∙ rw here refl in
      cc (gone, h)
  | inr there ↦ under n z (sym (get-pop id (numbered prefix n) d ∙ rw there refl) ∙ h)
]
