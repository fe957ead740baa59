-- ===== src/Chat/Members.antt =====
-- server/server/services/chat.py: who takes part in a conversation, and in which role.
use telegram.Prelude.{
  eq_nat, eq_string, eq_pair, ◌==◌, ltb, leb, if◌then◌else◌, Bool-cases, length, elem, remove, ℕ,
  ◌+◌, String, ◌≡◌, refl, ◌⊎◌, inl, inr, Bool, true, false, not, ◌&&◌, ◌||◌, Option, none, some,
  List, [], ◌∷◌, ◌++◌,
}
use telegram.Prelude.Dict.{Dict, get, put, pop, has}
use telegram.Prelude.Exec.{ok, err, Exec, pure, gets, or_raise, modify, require, ◌>>=◌, ◌>>◌}
use telegram.Prelude.Text.{numbered, strip, is_empty}
use telegram.Errors.{ErrorCode}
use telegram.Errors.{
  unknown_user, conversation_too_few_participants, conversation_permission_denied,
  conversation_participant_already_present, conversation_participant_not_present,
  leave_confirmation_required, report_reason_required, conversation_invalid_role,
  conversation_owner_role_immutable,
}
use telegram.State.{
  ConversationRecord, UserRecord, Role, owner, admin, member, conversation_updated,
  save_runtime_state,
}
use telegram.Chat.{ChatService, require_participant, store}
use telegram.Chat.Descriptors.{descriptor}
use telegram.Chat.Feed.{change_of, record_change}
use telegram.Chat.Payloads.{ConversationDescriptor}

abbrev pub Role_eq : Role → Role → Bool
Role_eq owner owner = true
Role_eq admin admin = true
Role_eq member member = true
Role_eq _ _ = false

abbrev pub role_of : ConversationRecord → String → Role
role_of c user_id = elim (get user_id c.roles) [ none ↦ member | some role ↦ role ]

abbrev pub is_empty_dict : Dict String Role → Bool
is_empty_dict [] = true
is_empty_dict (r ∷ rs) = false

-- `conversation.roles and len(conversation.participant_user_ids) > 2`
abbrev pub is_gated : ConversationRecord → Bool
is_gated c = not (is_empty_dict c.roles) && ltb 2 (length c.participant_user_ids)

-- `role in ("owner", "admin")`
abbrev pub is_manager : Role → Bool
is_manager member = false
is_manager _ = true

-- The loop over `other_user_ids`.
unfoldable pub add_others :
    Dict String UserRecord → String → List String → List String → Exec ChatService (List String)
add_others users creator [] participants = pure participants
add_others users creator (uid ∷ uids) participants =
    let skip = add_others users creator uids participants in
    let more = add_others users creator uids (participants ++ uid ∷ []) in
    if uid == creator
    then skip
    else if elem uid participants
    then skip
    else require (has uid users) unknown_user >> more

-- It stops at an unknown user, and changes nothing.
pub add_others-cases :
    (users : Dict String UserRecord) (creator : String) (uids participants : List String)
    (s : ChatService)
    → ((c : ErrorCode) × (add_others users creator uids participants s ≡ (err c, s)))
      ⊎ ((all : List String) × (add_others users creator uids participants s ≡ (ok all, s)))
unfolding add_others
add_others-cases users creator [] participants s = inr (participants, refl)
add_others-cases users creator (uid ∷ uids) participants s =
    let skip = add_others-cases users creator uids participants s in
    let more = add_others-cases users creator uids (participants ++ uid ∷ []) s in
    elim (Bool-cases (uid == creator)) [
      | inl same ↦ rw same skip
      | inr other ↦ elim (Bool-cases (elem uid participants)) [
        | inl again ↦ rw (other, again) skip
        | inr fresh ↦ elim (Bool-cases (has uid users)) [
          | inl known ↦ rw (other, fresh, known) more
          | inr stranger ↦ rw (other, fresh, stranger) (inl (_, refl))
        ]
      ]
    ]

unfoldable pub create_conversation :
    String → List String → String → Exec ChatService ConversationDescriptor
unfolding add_others
create_conversation creator other_user_ids title = do
  users ← gets (λ s. s.state.users)
  participants ← add_others users creator other_user_ids (creator ∷ [])
  require (leb 2 (length participants)) conversation_too_few_participants
  counter ← gets (λ s. s.conversation_counter)
  let conversation_id = numbered "conv_" counter
  let conversation : ConversationRecord = record {
    conversation_id = conversation_id;
    participant_user_ids = participants;
    messages = [];
    title = title;
    read_markers = [];
    change_seq = 0;
    changes = [];
    avatar_attachment_id = "";
    roles = (creator, owner) ∷ [];
  }
  modify (λ s.
      store conversation_id conversation
        (record s { conversation_counter = s.conversation_counter + 1 }))
  gets (λ s. descriptor s.state conversation)

-- The change that every change of the members makes, the save, and the answer.
abbrev pub update : String → ConversationRecord → Exec ChatService ConversationDescriptor
update conversation_id c = do
  let changed = record_change (change_of conversation_updated) c
  modify (store conversation_id changed)
  gets (λ s. descriptor s.state changed)

unfoldable pub add_participant : String → String → String → Exec ChatService ConversationDescriptor
unfolding require_participant
add_participant conversation_id actor new_user_id = do
  conversation ← require_participant conversation_id actor
  require (not (is_gated conversation) || is_manager (role_of conversation actor))
      conversation_permission_denied
  users ← gets (λ s. s.state.users)
  require (has new_user_id users) unknown_user
  require (not (elem new_user_id conversation.participant_user_ids))
      conversation_participant_already_present
  update conversation_id (record conversation {
    participant_user_ids = conversation.participant_user_ids ++ new_user_id ∷ [];
  })

-- The rules on who removes whom from a group.
abbrev pub may_remove : Role → Role → Bool
may_remove actor_role target_role =
    is_manager actor_role
    && not (Role_eq target_role owner)
    && (not (Role_eq target_role admin) || Role_eq actor_role owner)

abbrev pub without : String → ConversationRecord → ConversationRecord
without user_id c = record c {
  participant_user_ids = remove user_id c.participant_user_ids;
  roles = pop user_id c.roles;
}

unfoldable pub remove_participant :
    String → String → String → Exec ChatService ConversationDescriptor
unfolding require_participant
remove_participant conversation_id actor target = do
  conversation ← require_participant conversation_id actor
  require (elem target conversation.participant_user_ids) conversation_participant_not_present
  require
      (not (is_gated conversation)
        || target == actor
        || may_remove (role_of conversation actor) (role_of conversation target))
      conversation_permission_denied
  update conversation_id (without target conversation)

unfoldable pub leave_conversation : String → String → Bool → Exec ChatService ConversationDescriptor
unfolding remove_participant
leave_conversation conversation_id actor confirmed = do
  require confirmed leave_confirmation_required
  remove_participant conversation_id actor actor

-- What `role` may name: `_VALID_ROLES`, with `member` for the missing entry.
abbrev pub requested_role : String → Option Role
requested_role role =
    if role == "admin" then some admin else if role == "member" then some member else none

abbrev pub with_role : String → Role → Dict String Role → Dict String Role
with_role user_id member roles = pop user_id roles
with_role user_id role roles = put user_id role roles

unfoldable pub set_role :
    String → String → String → String → Exec ChatService ConversationDescriptor
unfolding require_participant
set_role conversation_id actor target role' = do
  conversation ← require_participant conversation_id actor
  role ← or_raise (requested_role role') conversation_invalid_role
  require (elem target conversation.participant_user_ids) conversation_participant_not_present
  require (Role_eq (role_of conversation actor) owner) conversation_permission_denied
  require (not (Role_eq (role_of conversation target) owner)) conversation_owner_role_immutable
  update conversation_id (record conversation { roles = with_role target role conversation.roles })

unfoldable pub report_conversation : ℕ → String → String → String → String → Exec ChatService Unit
unfolding require_participant
report_conversation now_ms conversation_id actor reason comment = do
  conversation ← require_participant conversation_id actor
  let normalized = strip reason
  require (not (is_empty normalized)) report_reason_required
  modify (λ s. record s {
    state = save_runtime_state (record s.state {
      conversation_reports =
          s.state.conversation_reports
          ++ record {
            conversation_id = conversation_id;
            reporter_user_id = actor;
            reason = normalized;
            comment = strip comment;
            created_at_ms = now_ms;
          }
            ∷ [];
    });
  })
