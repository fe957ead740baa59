-- ===== src/BlockMute/Rules.antt =====
-- The block lists as a relation between users, and the mutes as a table of times.
use telegram.Prelude.{
  eq_nat, eq_string, eq_pair, ◌==◌, ==_iff, nat_eq, if◌then◌else◌, Bool-cases, length, keep, ℕ,
  String, ◌≡◌, refl, ap, ◌∙◌, ◌⊎◌, inl, inr, Bool, true, false, not, ◌&&◌, ◌||◌, List, [], ◌∷◌,
  ◌++◌, arith,
}
use telegram.Prelude.Dict.{has, get-put}
use telegram.Prelude.Exec.{IsOk}
use telegram.Prelude.Text.{is_empty}
use telegram.State.{BlockedUserEntry, InMemoryState, save_runtime_state}
use telegram.BlockMute.{list_blocked, targets, is_blocked_by, set_blocked, block, unblock}

targets-append :
    (target : String) (e : BlockedUserEntry) (entries : List BlockedUserEntry)
    → targets target (entries ++ e ∷ []) ≡ (targets target entries || e.target_user_id == target)
unfolding targets
targets-append target e [] = ground arith
targets-append target e (x ∷ entries) = ground (arith, targets-append target e entries)

targets-keep :
    (target gone : String) (entries : List BlockedUserEntry)
    → targets target (keep (λ (e : BlockedUserEntry). not (e.target_user_id == gone)) entries)
      ≡ (targets target entries && not (gone == target))
unfolding targets
targets-keep target gone [] = ground arith
targets-keep target gone (x ∷ entries) = ground (
  arith,
  targets-keep target gone entries,
  ==_iff x.target_user_id gone,
  ==_iff x.target_user_id target,
  ==_iff gone target,
)

set_blocked-list :
    (x a : String) (entries : List BlockedUserEntry) (s : InMemoryState)
    → list_blocked a (set_blocked x entries s) ≡ (if x == a then entries else list_blocked a s)
unfolding list_blocked set_blocked
set_blocked-list x a entries s = ground (arith, get-put x a entries s.blocked_users)

save-list :
    (a : String) (s : InMemoryState) → list_blocked a (save_runtime_state s) ≡ list_blocked a s
unfolding list_blocked save_runtime_state
save-list a s = refl

if_same :
    (x a : String) (s : InMemoryState)
    → ((x == a) ≡ true) ⊎ ((x == a) ≡ false)
    → (if x == a then list_blocked x s else list_blocked a s) ≡ list_blocked a s
if_same x a s (inl h) = rw h (ap (λ k. list_blocked k s) ((==_iff x a).0 h))
if_same x a s (inr h) = rw h refl

-- writing a list back where it was read changes no list
set_blocked_same :
    (x a : String) (s : InMemoryState)
    → list_blocked a (set_blocked x (list_blocked x s) s) ≡ list_blocked a s
set_blocked_same x a s =
    set_blocked-list x a (list_blocked x s) s ∙ if_same x a s (Bool-cases (x == a))

or_false : (p : Bool) → p ≡ (p || false)
or_false true = refl
or_false false = refl

and_true : (p : Bool) → p ≡ (p && true)
and_true true = refl
and_true false = refl

-- the three ways a `block` can go
block-cases :
    (x y : String) (now : ℕ) (s : InMemoryState)
    → ((IsOk (block x y now s).0 → ⊥) × ((block x y now s).1 ≡ s))
      ⊎ ((IsOk (block x y now s).0 → ⊥)
          × ((block x y now s).1 ≡ set_blocked x (list_blocked x s) s))
      ⊎ (IsOk (block x y now s).0
          × ((block x y now s).1
              ≡ save_runtime_state (
                  set_blocked x
                    (list_blocked x s ++ record { target_user_id = y; blocked_at_ms = now } ∷ [])
                    (set_blocked x (list_blocked x s) s))))
unfolding block
block-cases x y now s = elim (Bool-cases (is_empty y || y == x)) [
  | inl self ↦ inl (rw self (λ h. h, refl))
  | inr fine ↦ elim (Bool-cases (has y s.users)) [
    | inr stranger ↦ inl (rw (fine, stranger) (λ h. h, refl))
    | inl known ↦ elim (Bool-cases (targets y (list_blocked x s))) [
      | inl again ↦ inr (inl (rw (fine, known, again) (λ h. h, refl)))
      | inr fresh ↦ inr (inr (rw (fine, known, fresh) (tt, refl)))
    ]
  ]
]

unblock-cases :
    (x y : String) (s : InMemoryState)
    → ((IsOk (unblock x y s).0 → ⊥) × ((unblock x y s).1 ≡ s))
      ⊎ (IsOk (unblock x y s).0
          × ((unblock x y s).1
              ≡ save_runtime_state (
                  set_blocked x
                    (keep
                      (λ (e : BlockedUserEntry). not (e.target_user_id == y))
                      (list_blocked x s))
                    s)))
unfolding unblock
unblock-cases x y s =
    let entries = list_blocked x s in
    let left = keep (λ (e : BlockedUserEntry). not (e.target_user_id == y)) entries in
    elim (Bool-cases (nat_eq (length left) (length entries))) [
      | inl same ↦ inl (rw same (λ h. h, refl))
      | inr fewer ↦ inr (rw fewer (tt, refl))
    ]

module _ (x y : String) (now : ℕ) (s : InMemoryState) where
  abbrev longer : List BlockedUserEntry
  longer = list_blocked x s ++ record { target_user_id = y; blocked_at_ms = now } ∷ []

  abbrev written : InMemoryState
  written = save_runtime_state (set_blocked x longer (set_blocked x (list_blocked x s) s))

  written-list :
      (a : String) → list_blocked a written ≡ (if x == a then longer else list_blocked a s)
  written-list a =
      save-list a (set_blocked x longer (set_blocked x (list_blocked x s) s))
      ∙ set_blocked-list x a longer (set_blocked x (list_blocked x s) s)
      ∙ ap (λ l. if x == a then longer else l) (set_blocked_same x a s)

  added :
      (a b : String)
      → ((x == a) ≡ true) ⊎ ((x == a) ≡ false)
      → targets b (list_blocked a written) ≡ (targets b (list_blocked a s) || (x == a && y == b))
  added a b (inl same) =
      let pick : (if x == a then longer else list_blocked a s) ≡ longer = rw same refl in
      ap (targets b) (written-list a ∙ pick)
      ∙ targets-append b (record { target_user_id = y; blocked_at_ms = now }) (list_blocked x s)
      ∙ rw same (ap (λ k. targets b (list_blocked k s) || y == b) ((==_iff x a).0 same))
  added a b (inr other) =
      let pick : (if x == a then longer else list_blocked a s) ≡ list_blocked a s = rw other refl in
      ap (targets b) (written-list a ∙ pick) ∙ rw other (or_false (targets b (list_blocked a s)))

-- For every pair of users: a `block` that succeeds adds the pair it names to the pairs that are
-- blocked and no other, and one that raises changes none.
pub block_refines :
    (x y : String) (now : ℕ) (s : InMemoryState) (a b : String)
    → (IsOk (block x y now s).0
        → is_blocked_by a b (block x y now s).1 ≡ (is_blocked_by a b s || (x == a && y == b)))
      × ((IsOk (block x y now s).0 → ⊥)
          → is_blocked_by a b (block x y now s).1 ≡ is_blocked_by a b s)
unfolding is_blocked_by
block_refines x y now s a b = elim (block-cases x y now s) [
  | inl (bad, same) ↦ (λ h. absurd (bad h), λ _. ap (is_blocked_by a b) same)
  | inr (inl (bad, same)) ↦ (
    λ h. absurd (bad h),
    λ _. ap (is_blocked_by a b) same ∙ ap (targets b) (set_blocked_same x a s),
  )
  | inr (inr (good, made)) ↦ (
    λ _. ap (is_blocked_by a b) made ∙ added x y now s a b (Bool-cases (x == a)),
    λ bad. absurd (bad good),
  )
]

module _ (x y : String) (s : InMemoryState) where
  abbrev shorter : List BlockedUserEntry
  shorter = keep (λ (e : BlockedUserEntry). not (e.target_user_id == y)) (list_blocked x s)

  removed :
      (a b : String)
      → ((x == a) ≡ true) ⊎ ((x == a) ≡ false)
      → targets b (list_blocked a (save_runtime_state (set_blocked x shorter s)))
        ≡ (targets b (list_blocked a s) && not (x == a && y == b))
  removed a b (inl same) =
      let pick : (if x == a then shorter else list_blocked a s) ≡ shorter = rw same refl in
      ap (targets b) (save-list a (set_blocked x shorter s) ∙ set_blocked-list x a shorter s ∙ pick)
      ∙ targets-keep b y (list_blocked x s)
      ∙ rw same (ap (λ k. targets b (list_blocked k s) && not (y == b)) ((==_iff x a).0 same))
  removed a b (inr other) =
      let pick : (if x == a then shorter else list_blocked a s) ≡ list_blocked a s =
        rw other refl in
      ap (targets b) (save-list a (set_blocked x shorter s) ∙ set_blocked-list x a shorter s ∙ pick)
      ∙ rw other (and_true (targets b (list_blocked a s)))

-- For every pair of users: an `unblock` that succeeds takes the pair it names out of the pairs that
-- are blocked and no other, and one that raises changes none.
pub unblock_refines :
    (x y : String) (s : InMemoryState) (a b : String)
    → (IsOk (unblock x y s).0
        → is_blocked_by a b (unblock x y s).1 ≡ (is_blocked_by a b s && not (x == a && y == b)))
      × ((IsOk (unblock x y s).0 → ⊥) → is_blocked_by a b (unblock x y s).1 ≡ is_blocked_by a b s)
unfolding is_blocked_by
unblock_refines x y s a b = elim (unblock-cases x y s) [
  | inl (bad, same) ↦ (λ h. absurd (bad h), λ _. ap (is_blocked_by a b) same)
  | inr (good, made) ↦ (
    λ _. ap (is_blocked_by a b) made ∙ removed x y s a b (Bool-cases (x == a)),
    λ bad. absurd (bad good),
  )
]
