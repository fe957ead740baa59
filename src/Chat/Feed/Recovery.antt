-- ===== src/Chat/Feed/Recovery.antt =====
-- What a client that follows the change feed of a conversation recovers.
use telegram.Prelude.{
  eq_nat, eq_string, eq_pair, ltb, if◌then◌else◌, ltb→lt, Bool-cases, length, drop, keep,
  length-append, length-drop, ℕ, zero, suc, ◌+◌, ◌-◌, ◌≤◌, ◌≡◌, refl, sym, ap, ◌∙◌, inl, inr, true,
  false, ◌&&◌, none, some, List, [], ◌∷◌, ◌++◌, append-nil, append_assoc, arith,
}
use telegram.Prelude.Int.{pos}
use telegram.Prelude.{drop-nil, drop-drop, drop-append}
use telegram.State.{Change, ConversationRecord}
use telegram.Chat.Feed.{
  max_conversation_changes, keep_last, record_change, changes_since, changes_after, is_newer,
}

-- The changes that calls of `_record_change` make, one after another.
pub record_all : List Change → ConversationRecord → ConversationRecord
record_all [] c = c
record_all (change ∷ rest) c = record_all rest (record_change change c)

-- The whole history, numbered from `n + 1`.
pub history : ℕ → List Change → List Change
history n [] = []
history n (change ∷ rest) = record change { version = n + 1 } ∷ history (n + 1) rest

-- A conversation that has seen no change.
abbrev pub unchanged : ConversationRecord → ConversationRecord
unchanged c = record c { change_seq = 0; changes = [] }

length-history : (n : ℕ) (ks : List Change) → length (history n ks) ≡ length ks
unfolding history
length-history n [] = refl
length-history n (k ∷ ks) = ap suc (length-history (n + 1) ks)

drop-history : (m n : ℕ) (ks : List Change) → drop m (history n ks) ≡ history (n + m) (drop m ks)
unfolding history
drop-history zero n ks = ap (λ i. history i ks) (omega arith)
drop-history (suc m) n [] = refl
drop-history (suc m) n (k ∷ ks) =
    drop-history m (n + 1) ks ∙ ap (λ i. history i (drop m ks)) (omega arith)

keep_last-snoc :
    {A : Type 0} (n : ℕ) (xs : List A) (y : A)
    → keep_last n (keep_last n xs ++ y ∷ []) ≡ keep_last n (xs ++ y ∷ [])
unfolding keep_last
keep_last-snoc n xs y =
    let k = length xs - n in
    let all = xs ++ y ∷ [] in
    let short = drop k xs ++ y ∷ [] in
    ap (λ l. drop (length short - n) l) (sym (drop-append k xs (y ∷ []) (omega arith)))
    ∙ drop-drop (length short - n) k all
    ∙ ap (λ i. drop i all)
        (omega
          (arith, length-append xs (y ∷ []), length-append (drop k xs) (y ∷ []), length-drop k xs))

history-append :
    (n : ℕ) (k : Change) (ks : List Change) (xs : List Change)
    → (xs ++ record k { version = n + 1 } ∷ []) ++ history (n + 1) ks ≡ xs ++ history n (k ∷ ks)
unfolding history
history-append n k ks xs = append_assoc xs _ _

-- The feed is the end of the history.
record_all-changes :
    (ks : List Change) (c : ConversationRecord) (log : List Change)
    → c.changes ≡ keep_last max_conversation_changes log
    → (record_all ks c).changes
      ≡ keep_last max_conversation_changes (log ++ history c.change_seq ks)
unfolding record_all history
record_all-changes [] c log h = h ∙ ap (keep_last max_conversation_changes) (sym (append-nil log))
record_all-changes (k ∷ ks) c log h =
    let new : Change = record k { version = c.change_seq + 1 } in
    let h' : (record_change k c).changes ≡ keep_last max_conversation_changes (log ++ new ∷ []) =
      unfold record_change in
      ap (λ l. keep_last max_conversation_changes (l ++ new ∷ [])) h
      ∙ keep_last-snoc max_conversation_changes log new in
    let seq : (record_change k c).change_seq ≡ c.change_seq + 1 = unfold record_change in refl in
    record_all-changes ks (record_change k c) (log ++ new ∷ []) h'
    ∙ ap (λ i. keep_last max_conversation_changes ((log ++ new ∷ []) ++ history i ks)) seq
    ∙ ap (keep_last max_conversation_changes) (history-append c.change_seq k ks log)

keep_all :
    (v d : ℕ) (ks : List Change) → v ≤ d → keep (is_newer (pos v)) (history d ks) ≡ history d ks
unfolding history
keep_all v d [] h = refl
keep_all v d (k ∷ ks) h = ground (arith, keep_all v (d + 1) ks)

keep_newer :
    (v d : ℕ) (ks : List Change)
    → d ≤ v
    → keep (is_newer (pos v)) (history d ks) ≡ drop (v - d) (history d ks)
unfolding history
keep_newer v d [] h = sym (drop-nil (v - d))
keep_newer v d (k ∷ ks) h = elim (Bool-cases (ltb v (d + 1))) [
  | inl all ↦
      let none_gone : v - d ≡ 0 = omega (arith, ltb→lt v (d + 1) all) in
      keep_all v d (k ∷ ks) (ground arith) ∙ ap (λ i. drop i (history d (k ∷ ks))) (sym none_gone)
  | inr later ↦
      let one_less : suc (v - (d + 1)) ≡ v - d = ground arith in
      rw later (keep_newer v (d + 1) ks (ground arith))
      ∙ ap (λ i. drop i (history d (k ∷ ks))) one_less
]

-- The answer to a client that has the changes up to `v`.
changes_since-history :
    (d v : ℕ) (ks : List Change)
    → changes_since (pos v) (history d ks)
      ≡ (if ltb v d && ltb 0 (length ks) then none else some (drop (v - d) (history d ks)))
unfolding changes_since history
changes_since-history d v [] = elim (Bool-cases (ltb v d)) [
  | inl old ↦ rw old (ap some (sym (drop-nil (v - d))))
  | inr fine ↦ rw fine (ap some (sym (drop-nil (v - d))))
]
changes_since-history d v (k ∷ ks) = elim (Bool-cases (ltb v d)) [
  | inl old ↦ ground arith
  | inr fine ↦
      let young : ltb (v + 1) (d + 1) ≡ false = ground arith in
      rw (young, fine) (ap some (keep_newer v d (k ∷ ks) (ground arith)))
]

history-end : (d : ℕ) (ks : List Change) → history d (drop d ks) ≡ drop d (history 0 ks)
history-end d ks =
    let start : 0 + d ≡ d = omega arith in
    sym (drop-history d 0 ks ∙ ap (λ i. history i (drop d ks)) start)

-- After any changes to a new conversation, `_changes_after` answers a client that has seen the first
-- `v` of them with exactly the changes that follow, in order, or says that the feed no longer
-- reaches back that far; the latter happens just when the client is more than 512 changes behind.
pub changes_after-record_all :
    (ks : List Change) (c : ConversationRecord) (v : ℕ)
    → changes_after (record_all ks (unchanged c)) (pos v) ≡ (
        if ltb (v + max_conversation_changes) (length ks)
        then none
        else some (drop v (history 0 ks)))
changes_after-record_all ks c v =
    let d = length ks - max_conversation_changes in
    let all = history 0 ks in
    let end : history d (drop d ks) ≡ drop d all = history-end d ks in
    let feed : (record_all ks (unchanged c)).changes ≡ history d (drop d ks) =
      record_all-changes ks (unchanged c) [] (unfold keep_last in refl)
      ∙ unfold keep_last in
        ap (λ i. drop (i - max_conversation_changes) all) (length-history 0 ks) ∙ sym end in
    ap (changes_since (pos v)) feed
    ∙ changes_since-history d v (drop d ks)
    ∙ elim (Bool-cases (ltb v d)) [
      | inl old ↦
          let left : ltb 0 (length (drop d ks)) ≡ true = ground (arith, length-drop d ks) in
          let behind : ltb (v + max_conversation_changes) (length ks) ≡ true = ground arith in
          rw (old, left, behind) refl
      | inr fine ↦
          let near : ltb (v + max_conversation_changes) (length ks) ≡ false = ground arith in
          let there : d + (v - d) ≡ v = ground arith in
          rw (fine, near)
            (ap some (ap (drop (v - d)) end ∙ drop-drop (v - d) d all ∙ ap (λ i. drop i all) there))
    ]
