-- ===== src/Chat/Steps/Tables.antt =====
-- What a step does to each conversation of the table.
use telegram.Prelude.{
  eq_nat, eq_string, eq_pair, ◌==◌, ==_iff, Bool-cases, Option-cases, keep, elem, ℕ, ◌+◌, ◌≤◌,
  String, ◌≡◌, refl, sym, ap, subst, ◌∙◌, ◌≢◌, ◌⊎◌, inl, inr, Option, none, some, List, [], ◌∷◌,
  arith,
}
use telegram.Prelude.Dict.{Dict, get, put, get-put, get-put_ne}
use telegram.Prelude.Text.{numbered}
use telegram.State.{Message, ConversationRecord}
use telegram.Chat.{ChatService, conversation_of}
use telegram.Chat.Feed.{record_change}
use telegram.Chat.Growth.{Grown-refl, Grown-le}
use telegram.Chat.Growth.Release.{Grown-release}
use telegram.Chat.Sending.{release_conversations, release_in, release_changes, is_due}
use telegram.Chat.Steps.{Step, Evolves, kept, wrote, created, released}

-- What has become of a conversation; other conversations may have used ids too.
abbrev pub Later :
    String → ChatService → ChatService → ConversationRecord → ConversationRecord → Type 0
Later actor s t c c' = (k : ℕ) × (k ≤ t.message_counter) × Evolves actor s.message_counter k c c'

still :
    (actor : String) (s t : ChatService) (c : ConversationRecord)
    → s.message_counter ≤ t.message_counter
    → Later actor s t c c
still actor s t c le = (
  s.message_counter,
  le,
  record {
    messages = Grown-refl actor s.message_counter c.messages;
    ownership = λ u other o inside many. (o, inside);
  },
)

release_changes-members :
    (ms : List Message) (c : ConversationRecord)
    → ((release_changes ms c).roles ≡ c.roles)
      × ((release_changes ms c).participant_user_ids ≡ c.participant_user_ids)
unfolding release_changes record_change
release_changes-members [] c = (refl, refl)
release_changes-members (m ∷ ms) c = release_changes-members ms _

Evolves-release :
    (actor : String) (n now : ℕ) (c : ConversationRecord) → Evolves actor n n c (release_in now c)
unfolding release_in
Evolves-release actor n now c =
    let (roles, members) = release_changes-members (keep (is_due now) c.messages) c in
    record {
      messages = Grown-release actor n now c.messages;
      ownership = λ u other o inside many. (ap (get u) roles ∙ o, ap (elem u) members ∙ inside);
    }

abbrev released_of : ℕ → Option ConversationRecord → Option ConversationRecord
released_of now none = none
released_of now (some c) = some (release_in now c)

get-release :
    (now : ℕ) (id : String) (d : Dict String ConversationRecord)
    → get id (release_conversations now d) ≡ released_of now (get id d)
unfolding get
get-release now id [] = refl
get-release now id ((j, c) ∷ d) = elim (Bool-cases (j == id)) [
  | inl here ↦ rw here refl
  | inr later ↦ rw later (get-release now id d)
]

module _ (actor : String) (s t : ChatService) where
  -- A step loses no conversation, unless the id of a new one is taken.
  pub Step-history :
      Step actor s t
      → (id : String) (c : ConversationRecord) → id ≢ numbered "conv_" s.conversation_counter
      → conversation_of id s ≡ some c
      → (c' : ConversationRecord) × (conversation_of id t ≡ some c') × Later actor s t c c'
  Step-history (kept same le _) id c new h = (c, ap (get id) same ∙ h, still actor s t c le)
  Step-history (wrote j x x' found same e _) id c new h = elim (Bool-cases (j == id)) [
    | inl here ↦
        let found_id = subst (λ k. conversation_of k s ≡ some x) ((==_iff j id).0 here) found in
        let same_c : x ≡ c = cc (found_id, h) in
        (
          x',
          ap (get id) same ∙ get-put j id x' s.state.conversations ∙ rw here refl,
          (
            t.message_counter,
            omega arith,
            subst (λ z. Evolves actor s.message_counter t.message_counter z x') same_c e,
          ),
        )
    | inr there ↦ (
      c,
      ap (get id) same ∙ get-put j id x' s.state.conversations ∙ rw there h,
      still actor s t c (Grown-le actor _ _ _ _ e.messages),
    )
  ]
  Step-history (created x empty same le _) id c new h = (
    c,
    ap (get id) same ∙ get-put_ne _ id x s.state.conversations (λ e. new (sym e)) ∙ h,
    still actor s t c (omega (arith, le)),
  )
  Step-history (released now same le _) id c new h = (
    release_in now c,
    ap (get id) same ∙ get-release now id s.state.conversations ∙ rw h refl,
    (s.message_counter, omega (arith, le), Evolves-release actor s.message_counter now c),
  )

  -- Where a conversation after a step comes from.
  pub Step-origin :
      Step actor s t
      → (id : String) (c' : ConversationRecord) → conversation_of id t ≡ some c'
      → ((c : ConversationRecord) × (conversation_of id s ≡ some c) × Later actor s t c c')
        ⊎ ((c'.messages ≡ [])
            × (id ≡ numbered "conv_" s.conversation_counter)
            × (t.conversation_counter ≡ s.conversation_counter + 1))
  Step-origin (kept same le _) id c' h = inl (c', sym (ap (get id) same) ∙ h, still actor s t c' le)
  Step-origin (wrote j x x' found same e _) id c' h = elim (Bool-cases (j == id)) [
    | inl here ↦
        let found_id = subst (λ k. conversation_of k s ≡ some x) ((==_iff j id).0 here) found in
        let now_x : get id (put j x' s.state.conversations) ≡ some x' =
          get-put j id x' s.state.conversations ∙ rw here refl in
        let same_c : x' ≡ c' = cc (sym (ap (get id) same) ∙ h, now_x) in
        inl (
          x,
          found_id,
          (
            t.message_counter,
            omega arith,
            subst (Evolves actor s.message_counter t.message_counter x) same_c e,
          ),
        )
    | inr there ↦
        let before : get id (put j x' s.state.conversations) ≡ get id s.state.conversations =
          get-put j id x' s.state.conversations ∙ rw there refl in
        inl (
          c',
          sym before ∙ sym (ap (get id) same) ∙ h,
          still actor s t c' (Grown-le actor _ _ _ _ e.messages),
        )
  ]
  Step-origin (created x empty same le up) id c' h =
      elim (Bool-cases (numbered "conv_" s.conversation_counter == id)) [
        | inl here ↦
            let now_x : get id
                  (put (numbered "conv_" s.conversation_counter) x s.state.conversations)
                ≡ some x =
              get-put _ id x s.state.conversations ∙ rw here refl in
            let same_c : x ≡ c' = cc (sym (ap (get id) same) ∙ h, now_x) in
            inr (ap (λ z. z.messages) (sym same_c) ∙ empty, sym ((==_iff _ id).0 here), up)
        | inr there ↦
            let before : get id
                  (put (numbered "conv_" s.conversation_counter) x s.state.conversations)
                ≡ get id s.state.conversations =
              get-put _ id x s.state.conversations ∙ rw there refl in
            inl
              (c', sym before ∙ sym (ap (get id) same) ∙ h, still actor s t c' (omega (arith, le)))
      ]
  Step-origin (released now same le _) id c' h =
      elim (Option-cases (get id s.state.conversations)) [
        | inl gone ↦
            let nothing : conversation_of id t ≡ none =
              ap (get id) same ∙ get-release now id s.state.conversations ∙ rw gone refl in
            absurd (cc (nothing, h))
        | inr (c, found) ↦
            let there : conversation_of id t ≡ some (release_in now c) =
              ap (get id) same ∙ get-release now id s.state.conversations ∙ rw found refl in
            let same_c : release_in now c ≡ c' = cc (there, h) in
            inl (
              c,
              found,
              (
                s.message_counter,
                omega (arith, le),
                subst (Evolves actor s.message_counter s.message_counter c) same_c
                    (Evolves-release actor s.message_counter now c),
              ),
            )
      ]

  pub Step-counter : Step actor s t → s.conversation_counter ≤ t.conversation_counter
  Step-counter (kept same le eq) = omega (arith, eq)
  Step-counter (wrote j x x' found same e eq) = omega (arith, eq)
  Step-counter (created x empty same le up) = omega (arith, up)
  Step-counter (released now same le eq) = omega (arith, eq)
