-- ===== src/Prelude/Dict.antt =====
-- Python's `dict`: an association list in insertion order. A write to a present key keeps its place.
use Prim.Native.Nat.{◌≤◌, ◌<◌}
use mathlib.Core.Path.{◌≡◌, refl}
use mathlib.Core.Logic.{◌≢◌}
use mathlib.Core.Bool.{Bool, true, false}
use mathlib.Core.List.{List, [], ◌∷◌}
use mathlib.Core.Option.{Option, none, some}
use native.Mathlib.Omega.{arith}
use telegram.Prelude.Lists.{elem, length}
use telegram.Prelude.Tests.{if◌then◌else◌, Eq, ◌==◌, ==_iff}

abbrev pub Dict {ℓ κ} : Type ℓ → Type κ → Type (ℓ ⊔ κ)
Dict K V = List (K × V)

module _ {ℓ κ} {K : Type ℓ} {V : Type κ} where
  -- `d.values()`
  abbrev pub values : Dict K V → List V
  values [] = []
  values ((k, v) ∷ d) = v ∷ values d

  -- `list(d)`
  abbrev pub keys : Dict K V → List K
  keys [] = []
  keys ((k, v) ∷ d) = k ∷ keys d

module _ {ℓ κ} {K : Type ℓ} {V : Type κ} ⦃e : Eq K⦄ where
  -- `d.get(k)`
  unfoldable pub get : K → Dict K V → Option V
  get k [] = none
  get k ((j, v) ∷ d) = if j == k then some v else get k d

  -- `d[k] = v`
  unfoldable pub put : K → V → Dict K V → Dict K V
  put k v [] = (k, v) ∷ []
  put k v ((j, w) ∷ d) = if j == k then (j, v) ∷ d else (j, w) ∷ put k v d

  -- `d.pop(k, None)`
  unfoldable pub pop : K → Dict K V → Dict K V
  pop k [] = []
  pop k ((j, w) ∷ d) = let rest = pop k d in if j == k then rest else (j, w) ∷ rest

  -- `k in d`
  abbrev pub has : K → Dict K V → Bool
  has k d = elim (get k d) [ none ↦ false | some _ ↦ true ]

  pub get-put :
      (k j : K) (v : V) (d : Dict K V) → get j (put k v d) ≡ (if k == j then some v else get j d)
  unfolding get put
  get-put k j v [] = ground (arith, ==_iff k j)
  get-put k j v ((i, w) ∷ d) = ground (arith, ==_iff k j, ==_iff i k, ==_iff i j, get-put k j v d)

  pub get-pop : (k j : K) (d : Dict K V) → get j (pop k d) ≡ (if k == j then none else get j d)
  unfolding get pop
  get-pop k j [] = ground arith
  get-pop k j ((i, w) ∷ d) = ground (arith, ==_iff k j, ==_iff i k, ==_iff i j, get-pop k j d)

  pub get-put_self : (k : K) (v : V) (d : Dict K V) → get k (put k v d) ≡ some v
  get-put_self k v d = ground (arith, get-put k k v d, ==_iff k k)

  pub get-put_ne : (k j : K) (v : V) (d : Dict K V) → k ≢ j → get j (put k v d) ≡ get j d
  get-put_ne k j v d h = ground (arith, get-put k j v d, ==_iff k j)

  pub get-pop_self : (k : K) (d : Dict K V) → get k (pop k d) ≡ none
  get-pop_self k d = ground (arith, get-pop k k d, ==_iff k k)

  pub get-pop_ne : (k j : K) (d : Dict K V) → k ≢ j → get j (pop k d) ≡ get j d
  get-pop_ne k j d h = ground (arith, get-pop k j d, ==_iff k j)

  pub get-keys : (k : K) (d : Dict K V) → has k d ≡ elem k (keys d)
  unfolding get
  get-keys k [] = refl
  get-keys k ((j, w) ∷ d) = ground (arith, get-keys k d)

  length-pop-le : (k : K) (d : Dict K V) → length (pop k d) ≤ length d
  unfolding pop
  length-pop-le k [] = omega arith
  length-pop-le k ((j, w) ∷ d) = ground (arith, length-pop-le k d)

  pub length-pop-lt :
      (k : K) (v : V) (d : Dict K V) → get k d ≡ some v → length (pop k d) < length d
  unfolding get pop
  length-pop-lt k v [] h = cc
  length-pop-lt k v ((j, w) ∷ d) h = ground (arith, length-pop-le k d, length-pop-lt k v d)

pub ruleset dict_laws = (get-put, get-pop)
