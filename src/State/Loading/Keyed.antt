-- ===== src/State/Loading/Keyed.antt =====
-- Tables whose entries stand under their own ids, under writes and deletes.
use telegram.Prelude.{
  eq_nat, eq_string, eq_pair, ◌==◌, ==_iff, Bool-cases, any, elem, String, ◌≡◌, refl, sym, ◌∙◌, inl,
  inr, Bool, false, [], ◌∷◌, arith,
}
use telegram.Prelude.Dict.{Dict, put, pop, keys, values}
use telegram.State.Loading.Restart.{IsKeyed}

elem-put :
    {A : Type 0} (j k : String) (v : A) (d : Dict String A)
    → (j == k) ≡ false
    → elem k (keys d) ≡ false
    → elem k (keys (put j v d)) ≡ false
unfolding put
elem-put j k v [] other h = ground (arith, other)
elem-put j k v ((i, w) ∷ d) other h = elim (Bool-cases (i == j)) [
  | inl here ↦ rw here (ground (arith, other, h))
  | inr later ↦ rw later (ground (arith, h, elem-put j k v d other))
]

elem-pop :
    {A : Type 0} (j k : String) (d : Dict String A)
    → elem k (keys d) ≡ false
    → elem k (keys (pop j d)) ≡ false
unfolding pop
elem-pop j k [] h = h
elem-pop j k ((i, w) ∷ d) h = elim (Bool-cases (i == j)) [
  | inl here ↦ rw here (elem-pop j k d (ground (arith, h)))
  | inr later ↦ rw later (ground (arith, h, elem-pop j k d))
]

pub put-IsKeyed :
    {A : Type 0} (key : A → String) (k : String) (v : A) (d : Dict String A)
    → key v ≡ k
    → IsKeyed key d
    → IsKeyed key (put k v d)
unfolding put IsKeyed
put-IsKeyed key k v [] own h = (own, refl, tt)
put-IsKeyed key k v ((j, w) ∷ d) own h = elim (Bool-cases (j == k)) [
  | inl here ↦ let same : j ≡ k = (==_iff j k).0 here in rw here (own ∙ sym same, h.1, h.2)
  | inr later ↦
      let other : (k == j) ≡ false = ground (arith, later, ==_iff j k, ==_iff k j) in
      rw later (h.0, elem-put k j v d other h.1, put-IsKeyed key k v d own h.2)
]

pub pop-IsKeyed :
    {A : Type 0} (key : A → String) (k : String) (d : Dict String A)
    → IsKeyed key d
    → IsKeyed key (pop k d)
unfolding pop IsKeyed
pop-IsKeyed key k [] h = tt
pop-IsKeyed key k ((j, w) ∷ d) h = elim (Bool-cases (j == k)) [
  | inl here ↦ rw here (pop-IsKeyed key k d h.2)
  | inr later ↦ rw later (h.0, elem-pop k j d h.1, pop-IsKeyed key k d h.2)
]

pub any-put :
    {A : Type 0} (p : A → Bool) (k : String) (v : A) (d : Dict String A)
    → p v ≡ false
    → any p (values d) ≡ false
    → any p (values (put k v d)) ≡ false
unfolding put
any-put p k v [] own h = ground (arith, own)
any-put p k v ((j, w) ∷ d) own h = elim (Bool-cases (j == k)) [
  | inl here ↦ rw here (ground (arith, own, h))
  | inr later ↦ rw later (ground (arith, h, any-put p k v d own))
]
