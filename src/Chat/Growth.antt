-- ===== src/Chat/Growth.antt =====
-- How the messages of a conversation change: those that are there stay in place, and new ones come
-- behind them, with new ids.
pub mod Ids
pub mod Release
use telegram.Prelude.{
  eq_nat, eq_string, eq_pair, ◌==◌, Bool-cases, length, get_elem?, ℕ, zero, suc, ◌+◌, ◌≤◌, String,
  ◌≡◌, refl, sym, subst, ◌≢◌, inl, inr, true, some, List, [], ◌∷◌, ◌++◌, append_assoc, arith,
}
use telegram.Prelude.Text.{numbered}
use telegram.State.{Message}
use telegram.Chat.{ids_of, first_message, change_message}

-- One message before and after a request of `actor`.
pub record Same (actor : String) (m n : Message) : Type 0 where
  pub id : n.message_id ≡ m.message_id
  pub sender : n.sender_user_id ≡ m.sender_user_id
  pub by_others : m.sender_user_id ≢ actor → (n.text ≡ m.text) × (n.deleted ≡ m.deleted)
  pub once_deleted : m.deleted ≡ true → (n.text ≡ m.text) × (n.deleted ≡ m.deleted)

-- The ids that the counter gives out from `n` on.
unfoldable pub numbered_from : ℕ → ℕ → List String
numbered_from n zero = []
numbered_from n (suc k) = numbered "msg_" n ∷ numbered_from (n + 1) k

-- From `ms` to the second list, while the counter goes from `n` to `n'`.
pub Grown : (actor : String) (n n' : ℕ) (ms ks : List Message) → Type 0
unfolding numbered_from
Grown actor n n' [] ks = (ids_of ks ≡ numbered_from n (length ks)) × (n + length ks ≡ n')
Grown actor n n' (m ∷ ms) [] = ⊥
Grown actor n n' (m ∷ ms) (k ∷ ks) = Same actor m k × Grown actor n n' ms ks

pub Same-refl : (actor : String) (m : Message) → Same actor m m
Same-refl actor m = record {
  id = refl;
  sender = refl;
  by_others = λ h. (refl, refl);
  once_deleted = λ h. (refl, refl);
}

-- New messages, numbered in turn.
pub Grown-append :
    (actor : String) (n : ℕ) (ms ks : List Message)
    → ids_of ks ≡ numbered_from n (length ks)
    → Grown actor n (n + length ks) ms (ms ++ ks)
unfolding Grown
Grown-append actor n [] ks h = (h, refl)
Grown-append actor n (m ∷ ms) ks h = (Same-refl actor m, Grown-append actor n ms ks h)

pub Grown-refl : (actor : String) (n : ℕ) (ms : List Message) → Grown actor n n ms ms
unfolding Grown numbered_from
Grown-refl actor n [] = (refl, omega arith)
Grown-refl actor n (m ∷ ms) = (Same-refl actor m, Grown-refl actor n ms)

-- A change of the message that `_find_message` returns.
pub Grown-change :
    (actor : String) (n : ℕ) (id : String) (f : Message → Message) (ms : List Message)
    → ((m : Message) → first_message id ms ≡ some m → Same actor m (f m))
    → Grown actor n n ms (change_message id f ms)
unfolding Grown change_message
Grown-change actor n id f [] h = Grown-refl actor n []
Grown-change actor n id f (m ∷ ms) h = elim (Bool-cases (m.message_id == id)) [
  | inl here ↦ rw here (h m (rw here refl), Grown-refl actor n ms)
  | inr later ↦
      let rest : (k : Message) → first_message id ms ≡ some k → Same actor k (f k) =
        λ k at. h k (rw later at) in
      rw later (Same-refl actor m, Grown-change actor n id f ms rest)
]

-- What stands at a place stays there.
pub Grown-get :
    (actor : String) (n n' : ℕ) (ms ks : List Message) (i : ℕ) (m : Message)
    → Grown actor n n' ms ks
    → get_elem? ms i ≡ some m
    → (k : Message) × (get_elem? ks i ≡ some k) × Same actor m k
unfolding Grown
Grown-get actor n n' [] ks i m h at = cc at
Grown-get actor n n' (x ∷ ms) [] i m h at = absurd h
Grown-get actor n n' (x ∷ ms) (y ∷ ks) zero m h at =
    (y, refl, subst (λ z. Same actor z y) (cc at) h.0)
Grown-get actor n n' (x ∷ ms) (y ∷ ks) (suc i) m h at = Grown-get actor n n' ms ks i m h.1 at

pub Grown-le : (actor : String) (n n' : ℕ) (ms ks : List Message) → Grown actor n n' ms ks → n ≤ n'
unfolding Grown
Grown-le actor n n' [] ks h = omega (arith, h.1)
Grown-le actor n n' (m ∷ ms) [] h = absurd h
Grown-le actor n n' (m ∷ ms) (k ∷ ks) h = Grown-le actor n n' ms ks h.1

-- The same in two steps, for two new messages.
pub Grown-append_two :
    (actor : String) (n : ℕ) (ms : List Message) (a b : Message)
    → a.message_id ≡ numbered "msg_" n
    → b.message_id ≡ numbered "msg_" (n + 1)
    → Grown actor n (n + 1 + 1) ms ((ms ++ a ∷ []) ++ b ∷ [])
unfolding numbered_from
Grown-append_two actor n ms a b ha hb =
    let ids : ids_of (a ∷ b ∷ []) ≡ numbered_from n 2 = cc (ha, hb) in
    let two : n + 2 ≡ n + 1 + 1 = omega arith in
    subst (λ k. Grown actor n k ms ((ms ++ a ∷ []) ++ b ∷ [])) two
      (subst (Grown actor n (n + 2) ms) (sym (append_assoc ms (a ∷ []) (b ∷ [])))
        (Grown-append actor n ms (a ∷ b ∷ []) ids))
