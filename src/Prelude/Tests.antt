-- ===== src/Prelude/Tests.antt =====
-- Boolean tests: orders on native numbers, and one `==` for every type with an instance of `Eq`.
use Prim.Native.Nat.{ℕ, ◌≤◌, ◌<◌, compare, Ordering}
use Prim.Native.String.{String}
use mathlib.Core.Path.{◌≡◌, refl}
use mathlib.Core.Logic.{◌≢◌, ◌↔◌, ◌⊎◌, inl, inr}
use mathlib.Core.Bool.{Bool, true, false, ◌&&◌}
use mathlib.Core.Option.{Option, none, some}
use native.Mathlib.Omega.{arith}
use text.Mathlib.Text.{◌==◌ as native_text_eq}
use text.Mathlib.TextEquality.{eq_iff}

abbrev pub ltb : ℕ → ℕ → Bool
ltb a b = elim (compare a b) [ Ordering.lt ↦ true | _ ↦ false ]

abbrev pub leb : ℕ → ℕ → Bool
leb a b = elim (compare a b) [ Ordering.gt ↦ false | _ ↦ true ]

abbrev pub nat_eq : ℕ → ℕ → Bool
nat_eq a b = elim (compare a b) [ Ordering.eq ↦ true | _ ↦ false ]

infix 1 if◌then◌else◌
abbrev pub if◌then◌else◌ {ℓ} : {A : Type ℓ} → Bool → A → A → A
if true then x else y = x
if false then x else y = y

pub ltb→lt : (a b : ℕ) → ltb a b ≡ true → a < b
ltb→lt a b h = ground arith

pub lt→ltb : (a b : ℕ) → a < b → ltb a b ≡ true
lt→ltb a b h = ground arith

pub leb→le : (a b : ℕ) → leb a b ≡ true → a ≤ b
leb→le a b h = ground arith

pub le→leb : (a b : ℕ) → a ≤ b → leb a b ≡ true
le→leb a b h = ground arith

pub ruleset tests = (arith, ltb→lt, lt→ltb, leb→le, le→leb)

-- To split on a computed value and keep the equation.
pub Bool-cases : (b : Bool) → (b ≡ true) ⊎ (b ≡ false)
Bool-cases true = inl refl
Bool-cases false = inr refl

-- What holds on both branches holds of the test.
pub by_test {ℓ κ} :
    {A : Type ℓ} (P : A → Type κ) (b : Bool) (x y : A)
    → (b ≡ true → P x)
    → (b ≡ false → P y)
    → P (if b then x else y)
by_test P true x y on off = on refl
by_test P false x y on off = off refl

pub Option-cases {ℓ} : {A : Type ℓ} (o : Option A) → (o ≡ none) ⊎ ((a : A) × (o ≡ some a))
Option-cases none = inl refl
Option-cases (some a) = inr (a, refl)

pub record Eq {ℓ} (A : Type ℓ) : Type ℓ where
  -- Python's `==`
  pub same : (x y : A) → Bool
  pub same_iff : (x y : A) → (same x y ≡ true) ↔ (x ≡ y)

infix 50 ◌==◌
abbrev pub ◌==◌ {ℓ} : {A : Type ℓ} ⦃test : Eq A⦄ (x y : A) → Bool
◌==◌ ⦃test⦄ x y = test.same x y

pub nat_eq_iff : (a b : ℕ) → (nat_eq a b ≡ true) ↔ (a ≡ b)
nat_eq_iff a b = ground arith

instance abbrev pub eq_nat : Eq ℕ
eq_nat = record { same = nat_eq; same_iff = nat_eq_iff }

-- Shut, so that a proof splits a test of two texts in two ways and not by their order.
unfoldable pub text_eq : String → String → Bool
text_eq a b = native_text_eq a b

pub text_eq_iff : (a b : String) → (text_eq a b ≡ true) ↔ (a ≡ b)
unfolding text_eq
text_eq_iff a b = eq_iff a b

instance abbrev pub eq_string : Eq String
eq_string = record { same = text_eq; same_iff = text_eq_iff }

module _ {ℓ κ} {A : Type ℓ} {B : Type κ} ⦃e : Eq A⦄ ⦃f : Eq B⦄ where
  abbrev pub pair_eq : A × B → A × B → Bool
  pair_eq p q = e.same p.0 q.0 && f.same p.1 q.1

  pub pair_eq_iff : (p q : A × B) → (pair_eq p q ≡ true) ↔ (p ≡ q)
  pair_eq_iff p q = ground (arith, e.same_iff p.0 q.0, f.same_iff p.1 q.1)

  instance abbrev pub eq_pair : Eq (A × B)
  eq_pair = record { same = pair_eq; same_iff = pair_eq_iff }

module _ {ℓ} {A : Type ℓ} ⦃e : Eq A⦄ where
  pub ==_iff : (a b : A) → ((a == b) ≡ true) ↔ (a ≡ b)
  ==_iff a b = e.same_iff a b

  pub ==_refl : (a : A) → (a == a) ≡ true
  ==_refl a = (e.same_iff a a).1 refl

  pub ==_of_ne : (a b : A) → a ≢ b → (a == b) ≡ false
  ==_of_ne a b h = ground (arith, e.same_iff a b)
