-- ===== src/Flags/Rules.antt =====
-- The flags of conversations as two relations between users and conversations.
use telegram.Prelude.{
  eq_nat, eq_string, eq_pair, ◌==◌, ==_iff, if◌then◌else◌, Bool-cases, Option-cases, elem,
  elem-append, String, ◌≡◌, refl, sym, ap, subst, ◌∙◌, inl, inr, Bool, true, false, not, ◌&&◌, ◌||◌,
  List, [], ◌∷◌, ◌++◌, arith,
}
use telegram.Prelude.Dict.{Dict, get, put, pop, get-put, get-pop}
use telegram.Prelude.Exec.{Result, Exec, IsOk, ◌>>◌}
use telegram.Prelude.Text.{is_empty}
use telegram.State.{InMemoryState, save_runtime_state}
use telegram.Flags.{
  bag_of, discard, set_flag, guard, set_pinned, is_pinned, set_archived, is_archived,
}

elem-discard :
    (c d : String) (bag : List String) → elem d (discard c bag) ≡ (elem d bag && not (c == d))
unfolding discard
elem-discard c d [] = ground arith
elem-discard c d (x ∷ bag) =
    ground (arith, elem-discard c d bag, ==_iff x c, ==_iff x d, ==_iff c d)

bag_of-put :
    (u v : String) (bag : List String) (table : Dict String (List String))
    → bag_of v (put u bag table) ≡ (if u == v then bag else bag_of v table)
unfolding bag_of
bag_of-put u v bag table = ground (arith, get-put u v bag table)

bag_of-pop :
    (u v : String) (table : Dict String (List String))
    → bag_of v (pop u table) ≡ (if u == v then [] else bag_of v table)
unfolding bag_of
bag_of-pop u v table = ground (arith, get-pop u v table)

-- a bag is written back, or dropped when it is empty
bag_of-unset :
    (u v c : String) (table : Dict String (List String))
    → bag_of v (set_flag u c false table)
      ≡ (if u == v then discard c (bag_of u table) else bag_of v table)
unfolding set_flag
bag_of-unset u v c table = rest (discard c (bag_of u table))
  where
    rest :
        (bag : List String)
        → bag_of v (elim bag [ [] ↦ pop u table | x ∷ more ↦ put u (x ∷ more) table ])
          ≡ (if u == v then bag else bag_of v table)
    rest [] = bag_of-pop u v table
    rest (x ∷ more) = bag_of-put u v (x ∷ more) table

bag_of-set :
    (u v c : String) (table : Dict String (List String))
    → bag_of v (set_flag u c true table) ≡ (
        if u == v
        then (if elem c (bag_of u table) then bag_of u table else bag_of u table ++ c ∷ [])
        else bag_of v table)
unfolding set_flag
bag_of-set u v c table = bag_of-put u v _ table

or_false : (p : Bool) → (p || false) ≡ p
or_false true = refl
or_false false = refl

or_if : (b e : Bool) → (e || b) ≡ (if b then true else e)
or_if b e = ground arith

and_if : (b e : Bool) → (e && not b) ≡ (if b then false else e)
and_if b e = ground arith

known : (c d : String) (bag : List String) → elem c bag ≡ true → elem d bag ≡ (elem d bag || c == d)
known c d bag h = elim (Bool-cases (c == d)) [
  | inl same ↦
      let is : c ≡ d = (==_iff c d).0 same in
      let there : elem d bag ≡ true = subst (λ x. elem x bag ≡ true) is h in rw there refl
  | inr other ↦ rw other (sym (or_false (elem d bag)))
]

elem-add :
    (c d : String) (bag : List String)
    → elem d (if elem c bag then bag else bag ++ c ∷ []) ≡ (elem d bag || c == d)
elem-add c d bag = elim (Bool-cases (elem c bag)) [
  | inl old ↦ rw old (known c d bag old)
  | inr new ↦ rw new (elem-append d bag (c ∷ []) ∙ ap (λ b. elem d bag || b) (or_false (c == d)))
]

-- A flag is set for the pair it names and for no other.
elem-set_flag :
    (u c : String) (on : Bool) (table : Dict String (List String)) (v d : String)
    → elem d (bag_of v (set_flag u c on table))
      ≡ (if u == v && c == d then on else elem d (bag_of v table))
elem-set_flag u c true table v d =
    ap (elem d) (bag_of-set u v c table) ∙ elim (Bool-cases (u == v)) [
      | inl same ↦
          let is : u ≡ v = (==_iff u v).0 same in
          rw same (
            elem-add c d (bag_of u table)
            ∙ ap (λ w. elem d (bag_of w table) || c == d) is
            ∙ or_if (c == d) (elem d (bag_of v table)))
      | inr other ↦ rw other refl
    ]
elem-set_flag u c false table v d =
    ap (elem d) (bag_of-unset u v c table) ∙ elim (Bool-cases (u == v)) [
      | inl same ↦
          let is : u ≡ v = (==_iff u v).0 same in
          rw same (
            elem-discard c d (bag_of u table)
            ∙ ap (λ w. elem d (bag_of w table) && not (c == d)) is
            ∙ and_if (c == d) (elem d (bag_of v table)))
      | inr other ↦ rw other refl
    ]

guard-passed :
    {A : Type 0} (u c : String) (m : Exec InMemoryState A) (s : InMemoryState)
    → IsOk ((guard u c >> m) s).0
    → (guard u c >> m) s ≡ m s
unfolding guard
guard-passed u c m s h = elim (Bool-cases (is_empty c)) [
  | inl nameless ↦ absurd (rw nameless at h)
  | inr named ↦ elim (Option-cases (get c s.conversations)) [
    | inl e ↦ absurd (rw (named, e) at h)
    | inr (conv, e) ↦ elim (Bool-cases (elem u conv.participant_user_ids)) [
      | inr outside ↦ absurd (rw (named, e, outside) at h)
      | inl inside ↦ rw (named, e, inside) refl
    ]
  ]
]

-- After a `set_pinned` that succeeds, for every user and conversation: the pair it names is pinned as
-- was asked, every other pair is pinned as before, and no pair is archived otherwise than before.
pub is_pinned-set_pinned :
    (u c : String) (on : Bool) (s : InMemoryState) (v d : String)
    → IsOk (set_pinned u c on s).0
    → (is_pinned v d (set_pinned u c on s).1 ≡ (if u == v && c == d then on else is_pinned v d s))
      × (is_archived v d (set_pinned u c on s).1 ≡ is_archived v d s)
unfolding set_pinned is_pinned is_archived save_runtime_state
is_pinned-set_pinned u c on s v d h =
    let done = guard-passed u c _ s h in
    (
      ap (λ (x : Result Bool × InMemoryState). is_pinned v d x.1) done
          ∙ elem-set_flag u c on s.pinned_conversations v d,
      ap (λ (x : Result Bool × InMemoryState). is_archived v d x.1) done,
    )

-- After a `set_archived` that succeeds, for every user and conversation: the pair it names is
-- archived as was asked, every other pair is archived as before, and no pair is pinned otherwise
-- than before.
pub is_archived-set_archived :
    (u c : String) (on : Bool) (s : InMemoryState) (v d : String)
    → IsOk (set_archived u c on s).0
    → (is_archived v d (set_archived u c on s).1
        ≡ (if u == v && c == d then on else is_archived v d s))
      × (is_pinned v d (set_archived u c on s).1 ≡ is_pinned v d s)
unfolding set_archived is_pinned is_archived save_runtime_state
is_archived-set_archived u c on s v d h =
    let done = guard-passed u c _ s h in
    (
      ap (λ (x : Result Bool × InMemoryState). is_archived v d x.1) done
          ∙ elem-set_flag u c on s.archived_conversations v d,
      ap (λ (x : Result Bool × InMemoryState). is_pinned v d x.1) done,
    )
