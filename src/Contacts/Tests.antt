-- ===== src/Contacts/Tests.antt =====
-- Runs of server/server/services/contacts.py on the seeded users.
use telegram.Prelude.{
  text_eq, eq_nat, eq_string, eq_pair, elem, String, ◌≡◌, refl, Bool, false, ◌&&◌, ◌||◌, [], ◌∷◌,
}
use telegram.Prelude.Dict.{get, put}
use telegram.Prelude.Exec.{IsOk}
use telegram.State.Samples.{seeded_state}
use telegram.Contacts.{contacts_of, add}
use telegram.Contacts.Rules.{add_refines}

abbrev nobody : String → Bool
nobody user = false

bob_added : contacts_of "u_alice" (add nobody "u_alice" "u_bob" seeded_state).1 ≡ "u_bob" ∷ []
unfolding contacts_of add get text_eq telegram.State.save_runtime_state put
bob_added = refl

add_refines_example :
    (IsOk (add nobody "u_alice" "u_bob" seeded_state).0
      → elem "u_bob" (contacts_of "u_alice" (add nobody "u_alice" "u_bob" seeded_state).1) ≡ (
          elem "u_bob" (contacts_of "u_alice" seeded_state)
          || (text_eq "u_alice" "u_alice" && text_eq "u_bob" "u_bob")))
    × ((IsOk (add nobody "u_alice" "u_bob" seeded_state).0 → ⊥)
        → elem "u_bob" (contacts_of "u_alice" (add nobody "u_alice" "u_bob" seeded_state).1)
          ≡ elem "u_bob" (contacts_of "u_alice" seeded_state))
add_refines_example = add_refines nobody "u_alice" "u_bob" seeded_state "u_alice" "u_bob"
