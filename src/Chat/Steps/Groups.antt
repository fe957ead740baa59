-- ===== src/Chat/Steps/Groups.antt =====
-- The requests on the members of a conversation are steps.
use telegram.Prelude.{
  eq_nat, eq_string, eq_pair, ◌==◌, ==_iff, ==_of_ne, ltb, leb, Bool-cases, length, elem,
  elem-append, ℕ, String, ◌≡◌, refl, sym, subst, ◌∙◌, ◌≢◌, inl, inr, Bool, true, false, not, ◌||◌,
  some, List, [], ◌∷◌, arith,
}
use telegram.Prelude.Dict.{Dict, get, has, get-put_ne, get-pop_ne}
use telegram.Prelude.Exec.{Result}
use telegram.Prelude.Text.{strip, is_empty}
use telegram.Prelude.{elem-remove}
use telegram.State.{Role, ConversationRecord, owner, admin, member, save_runtime_state}
use telegram.Chat.{ChatService, conversation_of, store}
use telegram.Chat.Feed.{record_change}
use telegram.Chat.Growth.{Grown, Grown-refl}
use telegram.Chat.Members.{
  create_conversation, add_others-cases, add_participant, remove_participant, leave_conversation,
  set_role, report_conversation, update, without, with_role, role_of, is_empty_dict, Role_eq,
  is_gated, is_manager, may_remove, requested_role,
}
use telegram.Prelude.Exec.Guards.{past_guard, past_value}
use telegram.Chat.Steps.{Step, OwnerStays, kept, created, past_participant}
use telegram.Chat.Steps.Edits.{Step-refl, store-Step}

module _ (actor id : String) (s : ChatService) (c : ConversationRecord)
    (found : conversation_of id s ≡ some c) where
  update-Step :
      (c' : ConversationRecord)
      → c'.messages ≡ c.messages
      → OwnerStays actor c c'
      → Step actor s (update id c' s).1
  update-Step c' same stays = store-Step actor id s c found _ (
      unfold record_change in
      record {
        messages =
            subst (λ ms. Grown actor s.message_counter s.message_counter c.messages ms) (sym same)
              (Grown-refl actor s.message_counter c.messages);
        ownership = stays;
      })

has_roles :
    (u : String) (r : Role) (roles : Dict String Role)
    → get u roles ≡ some r
    → is_empty_dict roles ≡ false
unfolding get
has_roles u r [] h = cc h
has_roles u r (x ∷ xs) h = refl

may_remove_owner : (r : Role) → may_remove r owner ≡ false
may_remove_owner owner = refl
may_remove_owner admin = refl
may_remove_owner member = refl

denied :
    (gated self : Bool) (r q : Role)
    → gated ≡ true
    → self ≡ false
    → q ≡ owner
    → (not gated || self || may_remove r q) ≡ false
denied gated self r q hg hs hq = rw (hg, hs, hq) (may_remove_owner r)

is_owner : (r : Role) → r ≡ owner → not (Role_eq r owner) ≢ true
is_owner owner h e = cc e
is_owner admin h e = cc h
is_owner member h e = cc h

apart : (x y : String) → (x == y) ≡ false → x ≢ y
apart x y h e = cc ((==_iff x y).1 e, h)

-- Nobody removes the owner of a group of more than two but the owner.
pub unseated :
    (c : ConversationRecord) (actor u : String)
    → u ≢ actor
    → get u c.roles ≡ some owner
    → ltb 2 (length c.participant_user_ids) ≡ true
    → (not (is_gated c) || u == actor || may_remove (role_of c actor) (role_of c u)) ≡ false
unseated c actor u other o many =
    let roles = has_roles u owner c.roles o in
    denied (is_gated c) (u == actor) (role_of c actor) (role_of c u) (rw (roles, many) refl)
      (==_of_ne u actor other) (rw (o, role_of) refl)

without-OwnerStays :
    (c : ConversationRecord) (actor target : String)
    → (not (is_gated c) || target == actor || may_remove (role_of c actor) (role_of c target))
      ≡ true
    → OwnerStays actor c (without target c)
without-OwnerStays c actor target allowed u other o inside many = elim (Bool-cases (target == u)) [
  | inl same ↦
      let allowed_u =
        subst
          (λ t.
            (not (is_gated c) || t == actor || may_remove (role_of c actor) (role_of c t)) ≡ true)
          ((==_iff target u).0 same) allowed in
      absurd (cc (allowed_u, unseated c actor u other o many))
  | inr differ ↦ (
    get-pop_ne target u c.roles (apart target u differ) ∙ o,
    elem-remove u target c.participant_user_ids differ ∙ inside,
  )
]

get-with_role :
    (target u : String) (role : Role) (roles : Dict String Role)
    → target ≢ u
    → get u (with_role target role roles) ≡ get u roles
get-with_role target u owner roles h = get-put_ne target u owner roles h
get-with_role target u admin roles h = get-put_ne target u admin roles h
get-with_role target u member roles h = get-pop_ne target u roles h

with_role-OwnerStays :
    (c : ConversationRecord) (actor target : String) (role : Role)
    → not (Role_eq (role_of c target) owner) ≡ true
    → OwnerStays actor c (record c { roles = with_role target role c.roles })
with_role-OwnerStays c actor target role below u other o inside many =
    elim (Bool-cases (target == u)) [
      | inl same ↦
          let below_u =
            subst (λ t. not (Role_eq (role_of c t) owner) ≡ true) ((==_iff target u).0 same)
              below in
          absurd (is_owner (role_of c u) (rw (o, role_of) refl) below_u)
      | inr differ ↦ (get-with_role target u role c.roles (apart target u differ) ∙ o, inside)
    ]

module _ (id actor : String) (s : ChatService) where
  abbrev Good : {A : Type 0} → Result A × ChatService → Type 0
  Good o = Step actor s o.1

  abbrev stay : {A : Type 0} → A → Step actor s s
  stay e = Step-refl actor s

  pub add-Step : (u : String) → Step actor s (add_participant id actor u s).1
  unfolding add_participant
  add-Step u = past_participant Good s id actor _ stay λ c found inside.
      past_guard Good s (not (is_gated c) || is_manager (role_of c actor)) _ _ stay λ allowed.
        past_guard Good s (has u s.state.users) _ _ stay λ known.
          past_guard Good s (not (elem u c.participant_user_ids)) _ _ stay λ new.
            update-Step actor id s c found _ refl λ v other o there many.
              (o, ground (arith, elem-append v c.participant_user_ids (u ∷ []), there))

  pub remove-Step : (target : String) → Step actor s (remove_participant id actor target s).1
  unfolding remove_participant
  remove-Step target = past_participant Good s id actor _ stay λ c found inside.
      past_guard Good s (elem target c.participant_user_ids) _ _ stay λ present.
        past_guard Good s
          (not (is_gated c) || target == actor || may_remove (role_of c actor) (role_of c target)) _
          _ stay
          λ allowed.
            update-Step actor id s c found _ refl (without-OwnerStays c actor target allowed)

  pub leave-Step : (confirmed : Bool) → Step actor s (leave_conversation id actor confirmed s).1
  unfolding leave_conversation
  leave-Step confirmed = past_guard Good s confirmed _ _ stay λ sure. remove-Step actor

  pub set_role-Step : (target role : String) → Step actor s (set_role id actor target role s).1
  unfolding set_role
  set_role-Step target role = past_participant Good s id actor _ stay λ c found inside.
      past_value Good s (requested_role role) _ _ stay λ wanted asked.
        past_guard Good s (elem target c.participant_user_ids) _ _ stay λ present.
          past_guard Good s (Role_eq (role_of c actor) owner) _ _ stay λ leads.
            past_guard Good s (not (Role_eq (role_of c target) owner)) _ _ stay λ below.
              update-Step actor id s c found _ refl
                (with_role-OwnerStays c actor target wanted below)

  pub report-Step :
      (now : ℕ) (reason comment : String)
      → Step actor s (report_conversation now id actor reason comment s).1
  unfolding report_conversation save_runtime_state
  report-Step now reason comment = past_participant Good s id actor _ stay λ c found inside.
      past_guard Good s (not (is_empty (strip reason))) _ _ stay
        λ worded. kept refl (omega arith) refl

  pub create-Step :
      (users : List String) (title : String)
      → Step actor s (create_conversation actor users title s).1
  unfolding create_conversation store save_runtime_state
  create-Step users title = elim (add_others-cases s.state.users actor users (actor ∷ []) s) [
    | inl (e, stopped) ↦ rw stopped (stay e)
    | inr (all, done) ↦ elim (Bool-cases (leb 2 (length all))) [
      | inl enough ↦ rw (done, enough) (created _ refl refl refl refl)
      | inr few ↦ rw (done, few) (stay tt)
    ]
  ]
