-- ===== src/Protocol.antt =====
-- server/server/protocol.py: the message types and error codes by their names on the wire, and the
-- texts that go with the codes. The codes themselves stand in Errors.
pub mod Messages
pub mod Codes
pub mod TypeNames
pub mod CodeNames
use Prim.Native.String.{String}
use mathlib.Core.List.{List, [], ◌∷◌}
use mathlib.Core.Option.{Option, none, some}
use telegram.Prelude.{if◌then◌else◌, ◌==◌, eq_string}

-- the member of an enumeration with a given value
unfoldable pub member_with : {A : Type 0} → (A → String) → String → List A → Option A
member_with value name [] = none
member_with value name (a ∷ rest) =
    let later = member_with value name rest in if value a == name then some a else later
