-- ===== src/Prelude/Exec.antt =====
-- Service methods: they mutate their service's state and may raise `ServiceError`. What was written
-- before a raise stays written, so the state comes back beside the error too. `escaped` is an
-- exception that is no `ServiceError`: it leaves the method in the same way, without an error code.
pub mod Guards
use mathlib.Core.Bool.{Bool, true, false}
use mathlib.Core.Option.{Option, none, some}
use telegram.Errors.{ErrorCode}

pub data Result (A : Type 0) : Type 0 where
  ok : A → Result A
  err : ErrorCode → Result A
  escaped : Result A

abbrev pub Exec : Type 0 → Type 0 → Type 0
Exec S A = S → Result A × S

module _ {S A : Type 0} where
  abbrev pub pure : A → Exec S A
  pure a s = (ok a, s)

  abbrev pub raise : ErrorCode → Exec S A
  raise c s = (err c, s)

  abbrev pub escape : Exec S A
  escape s = (escaped, s)

  abbrev pub gets : (S → A) → Exec S A
  gets f s = (ok (f s), s)

  -- `if x is None: raise ServiceError(c)`
  abbrev pub or_raise : Option A → ErrorCode → Exec S A
  or_raise none c s = (err c, s)
  or_raise (some a) c s = (ok a, s)

module _ {S : Type 0} where
  abbrev pub modify : (S → S) → Exec S Unit
  modify f s = (ok tt, f s)

  -- `if not b: raise ServiceError(c)`
  abbrev pub require : Bool → ErrorCode → Exec S Unit
  require true c s = (ok tt, s)
  require false c s = (err c, s)

module _ {S A B : Type 0} where
  abbrev pub continue : Result A → (A → Exec S B) → Exec S B
  continue (ok a) f s = f a s
  continue (err c) f s = (err c, s)
  continue escaped f s = (escaped, s)

  infixl 10 ◌>>=◌
  abbrev pub ◌>>=◌ : Exec S A → (A → Exec S B) → Exec S B
  ◌>>=◌ m f s = let (r, s') = m s in continue r f s'

module _ {S B : Type 0} where
  infixl 10 ◌>>◌
  abbrev pub ◌>>◌ : Exec S Unit → Exec S B → Exec S B
  m >> n = m >>= λ _. n

abbrev pub IsOk : {A : Type 0} → Result A → Type 0
IsOk (ok a) = Unit
IsOk (err c) = ⊥
IsOk escaped = ⊥
