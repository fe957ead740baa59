-- ===== src/Chat/Messages/Markers.antt =====
-- The read markers of a conversation.
use telegram.Prelude.{
  eq_nat, eq_string, eq_pair, ltb, leb, if◌then◌else◌, leb→le, Bool-cases, ℕ, max, String, ◌≡◌,
  refl, sym, subst, ◌≢◌, inl, inr, Bool, true, false, Option, none, some, List, arith,
}
use telegram.Prelude.Dict.{Dict, get, put, get-put_self, get-put_ne}
use telegram.Prelude.Exec.{Result, IsOk}
use telegram.State.{Message, Change, ConversationRecord, save_runtime_state}
use telegram.Chat.{ChatService, conversation_of, store}
use telegram.Chat.Feed.{record_change}
use telegram.Chat.Messages.{mark_read, rank, advance}
use telegram.Prelude.Exec.Guards.{past_guard}
use telegram.Chat.Steps.{past_participant}

-- How far a reader has come: one more than the index of the marker, and 0 with none.
abbrev pub progress : String → ConversationRecord → List Message → ℕ
progress reader c messages = elim (get reader c.read_markers) [
  | none ↦ 0
  | some id ↦ rank id messages
]

-- The marker that `mark_read` leaves, and those of the other readers.
pub record IsMarked (reader mid : String) (c c' : ConversationRecord) : Type 0 where
  pub messages : c'.messages ≡ c.messages
  pub mine :
      progress reader c' c.messages ≡ max (progress reader c c.messages) (rank mid c.messages)
  pub theirs : (u : String) → u ≢ reader → get u c'.read_markers ≡ get u c.read_markers

rank-advance :
    (mid : String) (current : Option String) (ms : List Message)
    → rank (advance mid current ms) ms
      ≡ max (elim current [ none ↦ 0 | some id ↦ rank id ms ]) (rank mid ms)
rank-advance mid none ms = omega arith
rank-advance mid (some id) ms = elim (Bool-cases (leb (rank id ms) (rank mid ms))) [
  | inl on ↦ rw on (omega (arith, leb→le (rank id ms) (rank mid ms) on))
  | inr back ↦ rw back (ground arith)
]

marker_mine :
    (reader mid : String) (markers : Dict String String) (ms : List Message)
    → elim (get reader (put reader (advance mid (get reader markers) ms) markers)) as (λ o. ℕ) [
      | none ↦ 0
      | some id ↦ rank id ms
    ]
      ≡ max
          (elim (get reader markers) as (λ o. ℕ) [ none ↦ 0 | some id ↦ rank id ms ])
          (rank mid ms)
marker_mine reader mid markers ms =
    rw (get-put_self reader (advance mid (get reader markers) ms) markers)
      (rank-advance mid (get reader markers) ms)

marked :
    (reader mid : String) (c : ConversationRecord) (b : Bool) (change : Change)
    → let after = record c {
      read_markers = put reader (advance mid (get reader c.read_markers) c.messages) c.read_markers;
    } in
      IsMarked reader mid c (if b then after else record_change change after)
unfolding record_change
marked reader mid c true change = record {
  messages = refl;
  mine = marker_mine reader mid c.read_markers c.messages;
  theirs = λ u other. get-put_ne reader u _ c.read_markers (λ e. other (sym e));
}
marked reader mid c false change = record {
  messages = refl;
  mine = marker_mine reader mid c.read_markers c.messages;
  theirs = λ u other. get-put_ne reader u _ c.read_markers (λ e. other (sym e));
}

module _ (id reader mid : String) (s : ChatService) (c : ConversationRecord) where
  abbrev pub Marks : ChatService → Type 0
  Marks t = (c' : ConversationRecord) × (conversation_of id t ≡ some c') × IsMarked reader mid c c'

  abbrev Good : {A : Type 0} → Result A × ChatService → Type 0
  Good o = IsOk o.0 → Marks o.1

  fail : {A : Type 0} → A → ⊥ → Marks s
  fail e bad = absurd bad

  moved : (k c' : ConversationRecord) → k ≡ c → IsMarked reader mid k c' → IsMarked reader mid c c'
  moved k c' same = subst (λ z. IsMarked reader mid z c') same

  -- A `mark_read` that succeeds takes the reader to the message or leaves the marker where it was,
  -- whichever is further on, changes no message and moves no marker of another reader.
  pub mark_read-Marks :
      conversation_of id s ≡ some c
      → IsOk (mark_read id reader mid s).0
      → Marks (mark_read id reader mid s).1
  unfolding mark_read store save_runtime_state
  mark_read-Marks here = past_participant Good s id reader _ fail λ k found inside.
      past_guard Good s (ltb 0 (rank mid k.messages)) _ _ fail λ known fine.
        let same : k ≡ c = cc (found, here) in
        (_, get-put_self id _ s.state.conversations, moved k _ same (marked reader mid k _ _))
