-- ===== src/Contacts/Rules.antt =====
-- The contact lists as a relation between users.
use telegram.Prelude.{
  eq_nat, eq_string, eq_pair, ◌==◌, ==_iff, if◌then◌else◌, Bool-cases, elem, elem-append, String,
  ◌≡◌, refl, sym, ap, ◌∙◌, ◌⊎◌, inl, inr, Bool, true, false, ◌&&◌, ◌||◌, List, [], ◌∷◌, ◌++◌, arith,
}
use telegram.Prelude.Dict.{has, get-put}
use telegram.Prelude.Exec.{IsOk}
use telegram.State.{InMemoryState, save_runtime_state}
use telegram.Contacts.{contacts_of, set_contacts, add}

set_contacts-of :
    (x a : String) (owned : List String) (s : InMemoryState)
    → contacts_of a (set_contacts x owned s) ≡ (if x == a then owned else contacts_of a s)
unfolding contacts_of set_contacts
set_contacts-of x a owned s = ground (arith, get-put x a owned s.contacts)

save-contacts_of :
    (a : String) (s : InMemoryState) → contacts_of a (save_runtime_state s) ≡ contacts_of a s
unfolding contacts_of save_runtime_state
save-contacts_of a s = refl

same_list :
    (x a : String) (s : InMemoryState)
    → contacts_of a (set_contacts x (contacts_of x s) s) ≡ contacts_of a s
same_list x a s = set_contacts-of x a (contacts_of x s) s ∙ elim (Bool-cases (x == a)) [
  | inl same ↦ rw same (ap (λ k. contacts_of k s) ((==_iff x a).0 same))
  | inr other ↦ rw other refl
]

or_false : (p : Bool) → (p || false) ≡ p
or_false true = refl
or_false false = refl

module _ (is_online : String → Bool) (x y : String) (s : InMemoryState) where
  abbrev longer : List String
  longer = contacts_of x s ++ y ∷ []

  abbrev touched : InMemoryState
  touched = set_contacts x (contacts_of x s) s

  abbrev written : InMemoryState
  written = save_runtime_state (set_contacts x longer touched)

  add-cases :
      ((IsOk (add is_online x y s).0 → ⊥) × ((add is_online x y s).1 ≡ s))
      ⊎ ((IsOk (add is_online x y s).0 → ⊥) × ((add is_online x y s).1 ≡ touched))
      ⊎ (IsOk (add is_online x y s).0 × ((add is_online x y s).1 ≡ written))
  unfolding add
  add-cases = elim (Bool-cases (x == y)) [
    | inl self ↦ inl (rw self (λ h. h, refl))
    | inr fine ↦ elim (Bool-cases (has y s.users)) [
      | inr stranger ↦ inl (rw (fine, stranger) (λ h. h, refl))
      | inl known ↦ elim (Bool-cases (elem y (contacts_of x s))) [
        | inl again ↦ inr (inl (rw (fine, known, again) (λ h. h, refl)))
        | inr fresh ↦ inr (inr (rw (fine, known, fresh) (tt, refl)))
      ]
    ]
  ]

  written-of : (a : String) → contacts_of a written ≡ (if x == a then longer else contacts_of a s)
  written-of a =
      save-contacts_of a (set_contacts x longer touched)
      ∙ set_contacts-of x a longer touched
      ∙ ap (λ l. if x == a then longer else l) (same_list x a s)

  added :
      (a b : String)
      → elem b (contacts_of a written) ≡ (elem b (contacts_of a s) || (x == a && y == b))
  added a b = elim (Bool-cases (x == a)) [
    | inl same ↦
        let pick : (if x == a then longer else contacts_of a s) ≡ longer = rw same refl in
        ap (elem b) (written-of a ∙ pick)
        ∙ elem-append b (contacts_of x s) (y ∷ [])
        ∙ ap (λ p. elem b (contacts_of x s) || p) (or_false (y == b))
        ∙ rw same (ap (λ k. elem b (contacts_of k s) || y == b) ((==_iff x a).0 same))
    | inr other ↦
        let pick : (if x == a then longer else contacts_of a s) ≡ contacts_of a s = rw other refl in
        ap (elem b) (written-of a ∙ pick) ∙ rw other (sym (or_false (elem b (contacts_of a s))))
  ]

-- For every pair of users: an `add` that succeeds makes the pair it names contacts, in the direction
-- from owner to target, and no other pair; one that raises changes no pair.
pub add_refines :
    (is_online : String → Bool) (x y : String) (s : InMemoryState) (a b : String)
    → (IsOk (add is_online x y s).0
        → elem b (contacts_of a (add is_online x y s).1)
          ≡ (elem b (contacts_of a s) || (x == a && y == b)))
      × ((IsOk (add is_online x y s).0 → ⊥)
          → elem b (contacts_of a (add is_online x y s).1) ≡ elem b (contacts_of a s))
add_refines is_online x y s a b =
    let see : InMemoryState → Bool = λ t. elem b (contacts_of a t) in
    elim (add-cases is_online x y s) [
      | inl (bad, same) ↦ (λ h. absurd (bad h), λ _. ap see same)
      | inr (inl (bad, same)) ↦
          (λ h. absurd (bad h), λ _. ap see same ∙ ap (elem b) (same_list x a s))
      | inr (inr (good, made)) ↦
          (λ _. ap see made ∙ added is_online x y s a b, λ bad. absurd (bad good))
    ]
