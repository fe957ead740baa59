-- ===== src/Prelude/Exec/Guards.antt =====
-- Rules for a statement on what a method returns and leaves: one for each guard it starts with.
use mathlib.Core.Path.{◌≡◌, refl}
use mathlib.Core.Bool.{Bool, true, false}
use mathlib.Core.Option.{Option, none, some}
use telegram.Errors.{ErrorCode}
use telegram.Prelude.Exec.{Result, err, Exec, or_raise, require, ◌>>=◌, ◌>>◌}

module _ {S A : Type 0} (P : Result A × S → Type 0) (s : S) where
  pub past_guard :
      (b : Bool) (e : ErrorCode) (k : Exec S A)
      → ((e : ErrorCode) → P (err e, s))
      → (b ≡ true → P (k s))
      → P ((require b e >> k) s)
  past_guard true e k bad good = good refl
  past_guard false e k bad good = bad e

  pub past_value :
      {B : Type 0} (o : Option B) (e : ErrorCode) (k : B → Exec S A)
      → ((e : ErrorCode) → P (err e, s))
      → ((b : B) → o ≡ some b → P (k b s))
      → P ((or_raise o e >>= k) s)
  past_value none e k bad good = bad e
  past_value (some b) e k bad good = good b refl
