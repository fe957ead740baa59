-- ===== src/Chat/History/Paging.antt =====
-- A client that reads the history of a conversation backwards, page after page.
use telegram.Prelude.{
  eq_nat, eq_string, eq_pair, ◌==◌, ==_iff, ltb, if◌then◌else◌, ltb→lt, lt→ltb, Bool-cases, length,
  get_elem?, take, drop, elem, ℕ, zero, suc, ◌+◌, ◌-◌, ◌≤◌, ◌<◌, String, ◌≡◌, refl, sym, ap, ◌∙◌,
  inl, inr, true, false, some, List, [], ◌∷◌, ◌++◌, arith,
}
use telegram.Prelude.Text.{is_empty}
use telegram.Prelude.Int.{ℤ, pos, negsuc}
use telegram.State.{Message, ConversationRecord}
use telegram.Chat.{ids_of}
use telegram.Chat.Growth.Ids.{Distinct}
use telegram.Chat.History.{
  visible_messages, index_of, clamp_limit, page_end, first_id, page_of, message_history_page,
}

-- The pages before `before`, oldest first, on fuel.
pub read_back : ℕ → ℤ → String → ConversationRecord → List Message
read_back zero limit before c = []
read_back (suc fuel) limit before c =
    let page = message_history_page c limit before in
    let older = read_back fuel limit page.next_before_message_id c in
    if page.has_more then older ++ page.messages else page.messages

-- No id is empty, and the first message with an id is the only one.
pub record IsIndexed (visible : List Message) : Type 0 where
  pub first :
      (i : ℕ) (m : Message) → get_elem? visible i ≡ some m → index_of m.message_id visible ≡ some i
  pub named : (i : ℕ) (m : Message) → get_elem? visible i ≡ some m → is_empty m.message_id ≡ false

take-nil : {A : Type 0} (n : ℕ) → take {A = A} n [] ≡ []
take-nil zero = refl
take-nil (suc n) = refl

take-append_take :
    {A : Type 0} (m n : ℕ) (xs : List A) → take m xs ++ take n (drop m xs) ≡ take (m + n) xs
take-append_take zero n xs = let same : n ≡ 0 + n = omega arith in ap (λ k. take k xs) same
take-append_take (suc m) n [] = take-nil n ∙ sym (take-nil (suc m + n))
take-append_take (suc m) n (x ∷ xs) =
    let later : suc (m + n) ≡ suc m + n = omega arith in
    ap (◌∷◌ x) (take-append_take m n xs) ∙ ap (λ k. take k (x ∷ xs)) later

take_all : {A : Type 0} (xs : List A) → take (length xs) xs ≡ xs
take_all [] = refl
take_all (x ∷ xs) = ap (◌∷◌ x) (take_all xs)

get_elem?_lt :
    {A : Type 0} (i : ℕ) (xs : List A) → i < length xs → (a : A) × (get_elem? xs i ≡ some a)
get_elem?_lt i [] h = absurd (omega arith)
get_elem?_lt zero (x ∷ xs) h = (x, refl)
get_elem?_lt (suc i) (x ∷ xs) h = get_elem?_lt i xs (omega arith)

first_id-drop :
    (i k : ℕ) (m : Message) (xs : List Message)
    → 0 < k
    → get_elem? xs i ≡ some m
    → first_id (take k (drop i xs)) ≡ m.message_id
first_id-drop i zero m xs h e = absurd (omega arith)
first_id-drop i (suc k) m [] h e = cc
first_id-drop zero (suc k) m (x ∷ xs) h e = cc
first_id-drop (suc i) (suc k) m (x ∷ xs) h e = first_id-drop i (suc k) m xs h e

clamp_limit-pos : (limit : ℤ) → 0 < clamp_limit limit
clamp_limit-pos (pos n) = omega arith
clamp_limit-pos (negsuc n) = omega arith

page_end-index :
    (id : String) (i : ℕ) (visible : List Message)
    → is_empty id ≡ false
    → index_of id visible ≡ some i
    → page_end id visible ≡ i
unfolding page_end
page_end-index id i visible named at = rw (named, at) refl

-- The next page ends where this one starts.
next-page_end :
    (visible : List Message) (start k : ℕ)
    → IsIndexed visible
    → start < length visible
    → 0 < k
    → page_end (first_id (take k (drop start visible))) visible ≡ start
next-page_end visible start k h inside some_page =
    let (m, at) = get_elem?_lt start visible inside in
    ap (λ id. page_end id visible) (first_id-drop start k m visible some_page at)
    ∙ page_end-index m.message_id start visible (h.named start m at) (h.first start m at)

read_back-take :
    (fuel e : ℕ) (limit : ℤ) (before : String) (c : ConversationRecord)
    → IsIndexed (visible_messages c.messages)
    → page_end before (visible_messages c.messages) ≡ e
    → e ≤ length (visible_messages c.messages)
    → e < fuel
    → read_back fuel limit before c ≡ take e (visible_messages c.messages)
unfolding read_back page_of
read_back-take zero e limit before c h at inside enough = absurd (omega arith)
read_back-take (suc fuel) e limit before c h at inside enough =
    let visible = visible_messages c.messages in
    let size = clamp_limit limit in
    let start = e - size in
    let some_page = clamp_limit-pos limit in
    let whole : start + (e - start) ≡ e = omega arith in
    rw at (elim (Bool-cases (ltb 0 start)) [
      | inl more ↦
          let positive : 0 < start = ltb→lt 0 start more in
          let next = next-page_end visible start (e - start) h (omega arith) (omega arith) in
          let older = read_back-take fuel start limit _ c h next (omega arith) (omega arith) in
          rw more (
            ap (λ l. l ++ take (e - start) (drop start visible)) older
            ∙ take-append_take start (e - start) visible
            ∙ ap (λ k. take k visible) whole)
      | inr last ↦
          let none_before : start ≡ 0 = ground (arith, lt→ltb 0 start) in
          let all : take (e - 0) (drop 0 visible) ≡ take e visible =
            let same : e - 0 ≡ e = omega arith in ap (λ k. take k visible) same in
          rw last (ap (λ i. take (e - i) (drop i visible)) none_before ∙ all)
    ])

elem-visible :
    (x : String) (ms : List Message)
    → elem x (ids_of ms) ≡ false
    → elem x (ids_of (visible_messages ms)) ≡ false
elem-visible x [] h = refl
elem-visible x (m ∷ ms) h = ground (arith, elem-visible x ms)

Distinct-visible :
    (ms : List Message) → Distinct (ids_of ms) → Distinct (ids_of (visible_messages ms))
Distinct-visible [] d = tt
Distinct-visible (m ∷ ms) d = elim (Bool-cases m.scheduled) [
  | inl waits ↦ rw waits (Distinct-visible ms d.1)
  | inr shown ↦ rw shown (elem-visible m.message_id ms d.0, Distinct-visible ms d.1)
]

elem-get :
    (ms : List Message) (i : ℕ) (m : Message)
    → get_elem? ms i ≡ some m
    → elem m.message_id (ids_of ms) ≡ true
elem-get [] i m h = cc h
elem-get (x ∷ ms) zero m h =
    let same : x.message_id ≡ m.message_id = cc h in
    rw ((==_iff x.message_id m.message_id).1 same) refl
elem-get (x ∷ ms) (suc i) m h = ground (arith, elem-get ms i m h)

-- Of distinct ids, each is found at its place.
index_of-get :
    (ms : List Message) (i : ℕ) (m : Message)
    → Distinct (ids_of ms)
    → get_elem? ms i ≡ some m
    → index_of m.message_id ms ≡ some i
unfolding index_of
index_of-get [] i m d h = cc h
index_of-get (x ∷ ms) zero m d h =
    let same : x.message_id ≡ m.message_id = cc h in
    rw ((==_iff x.message_id m.message_id).1 same) refl
index_of-get (x ∷ ms) (suc i) m d h = elim (Bool-cases (x.message_id == m.message_id)) [
  | inl again ↦
      let used : elem x.message_id (ids_of ms) ≡ true =
        ap (λ id. elem id (ids_of ms)) ((==_iff x.message_id m.message_id).0 again)
        ∙ elem-get ms i m h in
      absurd (cc (d.0, used))
  | inr other ↦ rw (other, index_of-get ms i m d.1 h) refl
]

empty_text : (s : String) → is_empty s ≡ true → s ≡ ""
empty_text String.[] h = refl
empty_text (String.◌∷◌ c s) h = cc h

visible-IsIndexed :
    (ms : List Message)
    → Distinct (ids_of ms)
    → elem "" (ids_of ms) ≡ false
    → IsIndexed (visible_messages ms)
visible-IsIndexed ms d named = record {
  first = λ i m at. index_of-get (visible_messages ms) i m (Distinct-visible ms d) at;
  named = λ i m at. elim (Bool-cases (is_empty m.message_id)) [
    | inr filled ↦ filled
    | inl blank ↦
        let here : elem "" (ids_of (visible_messages ms)) ≡ true =
          ap (λ id. elem id (ids_of (visible_messages ms))) (sym (empty_text m.message_id blank))
          ∙ elem-get (visible_messages ms) i m at in
        absurd (cc (here, elem-visible "" ms named))
  ];
}

-- Where the messages of a conversation have distinct ids and none is empty, a client that follows
-- `next_before_message_id` from the last page back gets every visible message once and in order, at
-- any page size that it asks for, in at most one page more than there are messages.
pub read_back-all :
    (limit : ℤ) (c : ConversationRecord)
    → Distinct (ids_of c.messages)
    → elem "" (ids_of c.messages) ≡ false
    → read_back (suc (length (visible_messages c.messages))) limit "" c
      ≡ visible_messages c.messages
read_back-all limit c d named =
    let visible = visible_messages c.messages in
    let indexed = visible-IsIndexed c.messages d named in
    let end : page_end "" visible ≡ length visible = unfold page_end in refl in
    read_back-take (suc (length visible)) (length visible) limit "" c indexed end (omega arith)
      (omega arith)
    ∙ take_all visible
