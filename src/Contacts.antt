-- ===== src/Contacts.antt =====
-- server/server/services/contacts.py: each user's list of contacts and the names given to them.
-- `is_user_online` of the presence service is an argument.
pub mod Rules
pub mod Tests
use Prim.Native.String.{◌++◌ as ◌++ₛ◌}
use telegram.Prelude.{
  eq_nat, eq_string, eq_pair, ◌==◌, leb, if◌then◌else◌, elem, remove, String, Bool, not, none, some,
  List, [], ◌∷◌, ◌++◌,
}
use telegram.Prelude.Dict.{Dict, get, put, pop, has}
use telegram.Prelude.Exec.{Exec, pure, gets, or_raise, modify, require, ◌>>=◌, ◌>>◌}
use telegram.Prelude.Text.{strip, is_empty, text_length}
use telegram.Errors.{
  contact_self_not_allowed, unknown_user, contact_already_added, contact_not_present,
  invalid_registration_payload,
}
use telegram.State.{UserRecord, InMemoryState, save_runtime_state}

pub record ContactDescriptor : Type 0 where
  pub user_id : String
  pub display_name : String
  pub online : Bool

-- `contacts.get(owner, [])`
pub contacts_of : String → InMemoryState → List String
contacts_of owner s = elim (get owner s.contacts) [ none ↦ [] | some owned ↦ owned ]

-- `contact_aliases.get(owner, {})`
pub aliases_of : String → InMemoryState → Dict String String
aliases_of owner s = elim (get owner s.contact_aliases) [ none ↦ [] | some aliases ↦ aliases ]

pub set_contacts : String → List String → InMemoryState → InMemoryState
set_contacts owner owned s = record s { contacts = put owner owned s.contacts }

-- `contact_aliases.get(owner, {}).pop(target, None)`: an owner without a table gets none
pub drop_alias : String → String → InMemoryState → InMemoryState
drop_alias owner target s = record s {
  contact_aliases = elim (get owner s.contact_aliases) [
    | none ↦ s.contact_aliases
    | some aliases ↦ put owner (pop target aliases) s.contact_aliases
  ];
}

pub describe_all :
    (String → Bool)
    → Dict String UserRecord
    → Dict String String
    → List String
    → List ContactDescriptor
describe_all is_online users aliases [] = []
describe_all is_online users aliases (target ∷ rest) =
    let later = describe_all is_online users aliases rest in
    elim (get target users) [
      | none ↦ later
      | some user ↦
          record {
            user_id = target;
            display_name = elim (get target aliases) [
              | none ↦ user.display_name
              | some alias ↦ alias
            ];
            online = is_online target;
          }
          ∷ later
    ]

module _ (is_online : String → Bool) where
  pub list : String → InMemoryState → List ContactDescriptor
  unfolding describe_all aliases_of contacts_of
  list owner s = describe_all is_online s.users (aliases_of owner s) (contacts_of owner s)

  -- The list is made (`setdefault`) before it is searched, so it stays when the search raises.
  pub add : String → String → Exec InMemoryState (List ContactDescriptor)
  unfolding list contacts_of set_contacts
  add owner target = do
    require (not (owner == target)) contact_self_not_allowed
    users ← gets (λ s. s.users)
    require (has target users) unknown_user
    owned ← gets (contacts_of owner)
    modify (set_contacts owner owned)
    require (not (elem target owned)) contact_already_added
    modify (λ s. save_runtime_state (set_contacts owner (owned ++ target ∷ []) s))
    gets (list owner)

  pub remove_contact : String → String → Exec InMemoryState (List ContactDescriptor)
  unfolding list contacts_of set_contacts drop_alias
  remove_contact owner target = do
    owned ← gets (contacts_of owner)
    require (elem target owned) contact_not_present
    modify (λ s.
        save_runtime_state (drop_alias owner target (set_contacts owner (remove target owned) s)))
    gets (list owner)

  pub edit : String → String → String → Exec InMemoryState (List ContactDescriptor)
  unfolding list contacts_of aliases_of
  edit owner target display_name = do
    owned ← gets (contacts_of owner)
    require (elem target owned) contact_not_present
    let name = strip display_name
    require (not (is_empty name)) invalid_registration_payload
    require (leb (text_length name) 64) invalid_registration_payload
    modify (λ s. save_runtime_state (record s {
      contact_aliases = put owner (put target name (aliases_of owner s)) s.contact_aliases;
    }))
    gets (list owner)

-- the display name, the username and the text to share
pub share : String → String → Exec InMemoryState (String × String × String)
unfolding contacts_of aliases_of
share owner target = do
  owned ← gets (contacts_of owner)
  require (elem target owned) contact_not_present
  users ← gets (λ s. s.users)
  user ← or_raise (get target users) unknown_user
  aliases ← gets (aliases_of owner)
  let alias : String = elim (get target aliases) [ none ↦ "" | some name ↦ name ]
  let display_name = if is_empty alias then user.display_name else alias
  pure (display_name, user.username, display_name ++ₛ " (@" ++ₛ user.username ++ₛ ")")
