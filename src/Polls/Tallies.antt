-- ===== src/Polls/Tallies.antt =====
-- The tallies of a poll against the votes that they are computed from.
use telegram.Prelude.{
  by_test, eq_nat, eq_string, eq_pair, ◌==◌, if◌then◌else◌, ltb→lt, lt→ltb, Bool-cases, nat_eq_iff,
  length, get_elem?, keep, any, All, elem, ℕ, zero, suc, ◌+◌, ◌<◌, String, ◌≡◌, refl, ap, subst,
  ◌∙◌, inl, inr, true, false, some, List, [], ◌∷◌, map, arith,
}
use telegram.Prelude.Dict.{Dict, put, values}
use telegram.Prelude.Int.{ℤ, pos, negsuc, ltb_ℤ}
use telegram.Prelude.Int.{pos_part, neg_part}
use telegram.State.{Message, Poll}
use telegram.Polls.{
  insert_pick, bump, count_picks, count_votes, zeros, tallies, sorted_picks, is_outside,
}

-- No number twice.
abbrev pub NoRepeat : List ℕ → Type 0
NoRepeat [] = Unit
NoRepeat (i ∷ is) = (elem i is ≡ false) × NoRepeat is

-- Each voter picks each option at most once.
abbrev pub IsFair : List (List ℕ) → Type 0
IsFair votes = All NoRepeat votes

-- How many of the voters have picked the option.
abbrev pub voters_for : ℕ → List (List ℕ) → ℕ
voters_for i votes = length (keep (elem i) votes)

get-bump_same :
    (i : ℕ) (ts : List ℕ) (n : ℕ) → get_elem? ts i ≡ some n → get_elem? (bump i ts) i ≡ some (n + 1)
unfolding bump
get-bump_same i [] n h = cc h
get-bump_same zero (t ∷ ts) n h = let same : t ≡ n = cc h in ap (λ k. some (k + 1)) same
get-bump_same (suc i) (t ∷ ts) n h = get-bump_same i ts n h

get-bump_other :
    (i j : ℕ) (ts : List ℕ) → (j == i) ≡ false → get_elem? (bump j ts) i ≡ get_elem? ts i
unfolding bump
get-bump_other i j [] h = refl
get-bump_other zero zero (t ∷ ts) h = cc h
get-bump_other (suc i) zero (t ∷ ts) h = refl
get-bump_other zero (suc j) (t ∷ ts) h = refl
get-bump_other (suc i) (suc j) (t ∷ ts) h = get-bump_other i j ts (ground arith)

get-count_picks :
    (i : ℕ) (picks ts : List ℕ) (n : ℕ)
    → NoRepeat picks
    → get_elem? ts i ≡ some n
    → get_elem? (count_picks picks ts) i ≡ some (if elem i picks then n + 1 else n)
unfolding count_picks
get-count_picks i [] ts n fair h = h
get-count_picks i (j ∷ js) ts n (fresh, fair) h = elim (Bool-cases (j == i)) [
  | inl same ↦
      let gone : elem i js ≡ false =
        subst (λ k. elem k js ≡ false) ((nat_eq_iff j i).0 same) fresh in
      let bumped : get_elem? (bump j ts) i ≡ get_elem? (bump i ts) i =
        ap (λ k. get_elem? (bump k ts) i) ((nat_eq_iff j i).0 same) in
      get-count_picks i js (bump j ts) (n + 1) fair (bumped ∙ get-bump_same i ts n h)
      ∙ ap some (ground (arith, gone, same))
  | inr other ↦
      get-count_picks i js (bump j ts) n fair (get-bump_other i j ts other ∙ h)
      ∙ ap some (ground (arith, other))
]

get-count_votes :
    (i : ℕ) (votes : List (List ℕ)) (ts : List ℕ) (n : ℕ)
    → IsFair votes
    → get_elem? ts i ≡ some n
    → get_elem? (count_votes votes ts) i ≡ some (n + voters_for i votes)
unfolding count_votes
get-count_votes i [] ts n fair h = h ∙ ap some (omega arith)
get-count_votes i (picks ∷ rest) ts n (one, fair) h =
    let counted = get-count_picks i picks ts n one h in
    elim (Bool-cases (elem i picks)) [
      | inl picked ↦
          get-count_votes i rest (count_picks picks ts) (n + 1) fair
            (counted ∙ ap some (ground (arith, picked)))
          ∙ ap some (ground (arith, picked))
      | inr not_picked ↦
          get-count_votes i rest (count_picks picks ts) n fair
            (counted ∙ ap some (ground (arith, not_picked)))
          ∙ ap some (ground (arith, not_picked))
    ]

get-zeros :
    (i : ℕ) (options : List String) → i < length options → get_elem? (zeros options) i ≡ some 0
get-zeros i [] h = ground arith
get-zeros zero (o ∷ os) h = refl
get-zeros (suc i) (o ∷ os) h = get-zeros i os (omega arith)

-- In a poll in which no voter has picked an option twice, the tally of every option is the number
-- of the voters who have picked it.
pub tallies-counts :
    (poll : Poll) (i : ℕ)
    → IsFair (values poll.votes)
    → i < length poll.options
    → get_elem? (tallies poll) i ≡ some (voters_for i (values poll.votes))
unfolding tallies
tallies-counts poll i fair h =
    get-count_votes i (values poll.votes) (zeros poll.options) 0 fair (get-zeros i poll.options h)
    ∙ ap some (omega arith)

-- Every number is below the ones after it.
abbrev pub IsRising : List ℤ → Type 0
IsRising [] = Unit
IsRising (i ∷ is) = All (λ j. ltb_ℤ i j ≡ true) is × IsRising is

ltb_trans : (a b c : ℤ) → ltb_ℤ a b ≡ true → ltb_ℤ b c ≡ true → ltb_ℤ a c ≡ true
ltb_trans a b c h k = lt→ltb (pos_part a + neg_part c) (pos_part c + neg_part a) (
    let ab = ltb→lt (pos_part a + neg_part b) (pos_part b + neg_part a) h in
    let bc = ltb→lt (pos_part b + neg_part c) (pos_part c + neg_part b) k in omega arith)

All-above :
    (i j : ℤ) (ks : List ℤ)
    → ltb_ℤ i j ≡ true
    → All (λ k. ltb_ℤ j k ≡ true) ks
    → All (λ k. ltb_ℤ i k ≡ true) ks
All-above i j [] h all = tt
All-above i j (k ∷ ks) h (first, all) = (ltb_trans i j k h first, All-above i j ks h all)

All-insert_pick {κ} :
    (P : ℤ → Type κ) (i : ℤ) (js : List ℤ) → P i → All P js → All P (insert_pick i js)
unfolding insert_pick
All-insert_pick P i [] p all = (p, tt)
All-insert_pick P i (j ∷ js) p (first, all) =
    let rest : All P (insert_pick i js) = All-insert_pick P i js p all in
    by_test (All P) (ltb_ℤ i j) _ _ (λ h. (p, (first, all)))
      (λ h. by_test (All P) (ltb_ℤ j i) _ _ (λ k. (first, rest)) (λ k. (first, all)))

insert_pick-IsRising : (i : ℤ) (js : List ℤ) → IsRising js → IsRising (insert_pick i js)
unfolding insert_pick
insert_pick-IsRising i [] rising = (tt, tt)
insert_pick-IsRising i (j ∷ js) (above, rising) =
    let rest : IsRising (insert_pick i js) = insert_pick-IsRising i js rising in
    let later : ltb_ℤ i j ≡ true → All (λ k. ltb_ℤ i k ≡ true) js = λ h. All-above i j js h above in
    let all : ltb_ℤ j i ≡ true → All (λ k. ltb_ℤ j k ≡ true) (insert_pick i js) =
      λ h. All-insert_pick (λ k. ltb_ℤ j k ≡ true) i js h above in
    by_test IsRising (ltb_ℤ i j) _ _ (λ h. ((h, later h), (above, rising)))
      (λ h. by_test IsRising (ltb_ℤ j i) _ _ (λ k. (all k, rest)) (λ k. (above, rising)))

pub sorted_picks-IsRising : (is : List ℤ) → IsRising (sorted_picks is)
unfolding sorted_picks
sorted_picks-IsRising [] = tt
sorted_picks-IsRising (i ∷ is) = insert_pick-IsRising i (sorted_picks is) (sorted_picks-IsRising is)

elem-above :
    (opt_count i : ℕ) (js : List ℤ)
    → any (is_outside opt_count) js ≡ false
    → All (λ j. ltb_ℤ (pos i) j ≡ true) js
    → elem i (map pos_part js) ≡ false
elem-above opt_count i [] inside above = refl
elem-above opt_count i (pos j ∷ js) inside (first, above) =
    let rest : any (is_outside opt_count) js ≡ false = ground (arith, inside) in
    ground (arith, elem-above opt_count i js rest above)
elem-above opt_count i (negsuc j ∷ js) inside (first, above) = cc inside

pub NoRepeat-picks :
    (opt_count : ℕ) (is : List ℤ)
    → any (is_outside opt_count) is ≡ false
    → IsRising is
    → NoRepeat (map pos_part is)
NoRepeat-picks opt_count [] inside rising = tt
NoRepeat-picks opt_count (pos i ∷ is) inside (above, rising) =
    let rest : any (is_outside opt_count) is ≡ false = ground (arith, inside) in
    (elem-above opt_count i is rest above, NoRepeat-picks opt_count is rest rising)
NoRepeat-picks opt_count (negsuc i ∷ is) inside rising = cc inside

-- What a conversation holds are fair polls.
abbrev pub AreFair : List Message → Type 0
AreFair ms = All (λ m. (poll : Poll) → m.poll ≡ some poll → IsFair (values poll.votes)) ms

pub IsFair-put :
    (voter : String) (picks : List ℕ) (votes : Dict String (List ℕ))
    → NoRepeat picks
    → IsFair (values votes)
    → IsFair (values (put voter picks votes))
unfolding put
IsFair-put voter picks [] one fair = (one, tt)
IsFair-put voter picks ((j, w) ∷ d) one (first, fair) =
    by_test (λ (d : Dict String (List ℕ)). IsFair (values d)) (j == voter) _ _ (λ h. (one, fair))
      (λ h. (first, IsFair-put voter picks d one fair))

pub same-IsFair :
    (p : Poll) → IsFair (values p.votes) → (q : Poll) → some p ≡ some q → IsFair (values q.votes)
same-IsFair p fair q same =
    let p=q : p ≡ q = cc same in subst (λ (r : Poll). IsFair (values r.votes)) p=q fair
