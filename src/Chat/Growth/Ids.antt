-- ===== src/Chat/Growth/Ids.antt =====
-- The ids of the messages of a conversation stay distinct while it grows.
use telegram.Prelude.{
  eq_nat, eq_string, eq_pair, ◌==◌, ==_iff, ==_refl, Bool-cases, length, elem, elem-append, ℕ, zero,
  suc, ◌+◌, ◌-◌, ◌≤◌, ◌<◌, String, ◌≡◌, sym, ap, subst, ◌∙◌, ◌⊎◌, inl, inr, true, false, ◌||◌, List,
  [], ◌∷◌, ◌++◌, arith,
}
use telegram.Prelude.Text.{numbered, numbered_injective}
use telegram.State.{Message}
use telegram.Chat.{ids_of}
use telegram.Chat.Growth.{Grown, numbered_from}

abbrev pub Distinct : List String → Type 0
Distinct [] = Unit
Distinct (id ∷ ids) = (elem id ids ≡ false) × Distinct ids

-- Every numbered id is below the counter.
abbrev pub IsBelow : ℕ → List String → Type 0
IsBelow n ids = (k : ℕ) → elem (numbered "msg_" k) ids ≡ true → k < n

ids-Grown :
    (actor : String) (n n' : ℕ) (ms ks : List Message)
    → Grown actor n n' ms ks
    → ids_of ks ≡ ids_of ms ++ numbered_from n (n' - n)
unfolding Grown
ids-Grown actor n n' [] ks h =
    let size : length ks ≡ n' - n = omega (arith, h.1) in h.0 ∙ ap (numbered_from n) size
ids-Grown actor n n' (m ∷ ms) [] h = absurd h
ids-Grown actor n n' (m ∷ ms) (k ∷ ks) h = cc (h.0.id, ids-Grown actor n n' ms ks h.1)

elem-numbered_from :
    (x : String) (n k : ℕ)
    → elem x (numbered_from n k) ≡ true
    → (j : ℕ) × (n ≤ j) × (j < n + k) × (x ≡ numbered "msg_" j)
unfolding numbered_from
elem-numbered_from x n zero h = cc h
elem-numbered_from x n (suc k) h = elim (Bool-cases (numbered "msg_" n == x)) [
  | inl here ↦ (n, omega arith, omega arith, sym ((==_iff (numbered "msg_" n) x).0 here))
  | inr later ↦
      let (j, low, high, same) = elem-numbered_from x (n + 1) k (rw later at h) in
      (j, omega arith, omega arith, same)
]

later_unused : (n i k : ℕ) → i < n → elem (numbered "msg_" i) (numbered_from n k) ≡ false
later_unused n i k h = elim (Bool-cases (elem (numbered "msg_" i) (numbered_from n k))) [
  | inl used ↦
      let (j, low, high, same) = elem-numbered_from (numbered "msg_" i) n k used in
      let equal = numbered_injective "msg_" i j same in absurd (omega (arith, equal))
  | inr unused ↦ unused
]

Distinct-numbered_from : (n k : ℕ) → Distinct (numbered_from n k)
unfolding numbered_from
Distinct-numbered_from n zero = tt
Distinct-numbered_from n (suc k) =
    (later_unused (n + 1) n k (omega arith), Distinct-numbered_from (n + 1) k)

Distinct-append :
    (xs ys : List String)
    → Distinct xs
    → Distinct ys
    → ((x : String) → elem x xs ≡ true → elem x ys ≡ false)
    → Distinct (xs ++ ys)
Distinct-append [] ys dx dy apart = dy
Distinct-append (x ∷ xs) ys dx dy apart = (
  ground (arith, elem-append x xs ys, ==_refl x, apart x, dx.0),
  Distinct-append xs ys dx.1 dy (λ y m. apart y (ground (arith, m))),
)

module _ (actor : String) (n n' : ℕ) (ms ks : List Message) (below : IsBelow n (ids_of ms))
    (h : Grown actor n n' ms ks) where
  pub IsBelow-Grown : n ≤ n' → IsBelow n' (ids_of ks)
  IsBelow-Grown le i m =
      let id = numbered "msg_" i in
      let split : (elem id (ids_of ms) || elem id (numbered_from n (n' - n))) ≡ true =
        sym (elem-append id (ids_of ms) (numbered_from n (n' - n)))
        ∙ ap (elem id) (sym (ids-Grown actor n n' ms ks h))
        ∙ m in
      elim (Bool-cases (elem id (ids_of ms))) [
        | inl old ↦ omega (arith, below i old)
        | inr new ↦
            let (j, low, high, same) = elem-numbered_from id n (n' - n) (rw new at split) in
            let equal = numbered_injective "msg_" i j same in omega (arith, equal)
      ]

  apart :
      (x : String)
      → elem x (ids_of ms) ≡ true
      → (elem x (numbered_from n (n' - n)) ≡ true) ⊎ (elem x (numbered_from n (n' - n)) ≡ false)
      → elem x (numbered_from n (n' - n)) ≡ false
  apart x m (inr unused) = unused
  apart x m (inl used) =
      let (j, low, high, same) = elem-numbered_from x n (n' - n) used in
      absurd (omega (arith, below j (subst (λ y. elem y (ids_of ms) ≡ true) same m)))

  pub Distinct-Grown : Distinct (ids_of ms) → Distinct (ids_of ks)
  Distinct-Grown d = subst Distinct (sym (ids-Grown actor n n' ms ks h)) (
      Distinct-append (ids_of ms) (numbered_from n (n' - n)) d (Distinct-numbered_from n (n' - n))
        (λ x m. apart x m (Bool-cases (elem x (numbered_from n (n' - n))))))
