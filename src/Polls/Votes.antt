-- ===== src/Polls/Votes.antt =====
-- What creating, voting in and closing polls keep of the votes, from any state on.
use telegram.Prelude.{
  by_test, eq_nat, eq_string, eq_pair, ◌==◌, ltb, leb, Bool-cases, length, get_elem?, any, All,
  All-append, elem, ℕ, zero, suc, ◌<◌, String, ◌≡◌, refl, sym, ap, subst, ◌∙◌, inl, inr, Bool, true,
  false, not, ◌||◌, none, some, List, [], ◌∷◌, map, arith,
}
use telegram.Prelude.Dict.{get, put, values, get-put}
use telegram.Prelude.Exec.{Result, err, Exec, pure, raise, require, ◌>>=◌, ◌>>◌}
use telegram.Prelude.Text.{strip, is_empty}
use telegram.Prelude.Int.{ℤ}
use telegram.Prelude.Int.{pos_part}
use telegram.Prelude.Exec.Guards.{past_guard}
use telegram.Errors.{
  ErrorCode, unknown_conversation, unknown_message, not_a_poll, conversation_access_denied,
}
use telegram.State.{Message, Poll, ConversationRecord, InMemoryState, save_runtime_state}
use telegram.Polls.{
  cleaned_options, conversation_for, store, write_poll, admit, create, close, tallies, sorted_picks,
  is_outside, vote, conversation_for, find_poll,
}
use telegram.Polls.Tallies.{
  NoRepeat, IsFair, AreFair, voters_for, same-IsFair, IsFair-put, NoRepeat-picks,
  sorted_picks-IsRising, tallies-counts,
}

-- Every poll of every conversation is fair.
abbrev pub IsFairState : InMemoryState → Type 0
IsFairState s =
    (id : String) (c : ConversationRecord) → get id s.conversations ≡ some c → AreFair c.messages

write_poll-AreFair :
    (id : String) (poll : Poll) (ms : List Message)
    → IsFair (values poll.votes)
    → AreFair ms
    → AreFair (write_poll id poll ms)
unfolding write_poll
write_poll-AreFair id poll [] fair all = tt
write_poll-AreFair id poll (m ∷ ms) fair (first, all) =
    by_test AreFair (m.message_id == id) _ _ (λ h. (same-IsFair poll fair, all))
      (λ h. (first, write_poll-AreFair id poll ms fair all))

store-IsFairState :
    (cid : String) (c : ConversationRecord) (s : InMemoryState)
    → AreFair c.messages
    → IsFairState s
    → IsFairState (store cid c s)
unfolding store save_runtime_state
store-IsFairState cid c s fair all id d found = elim (Bool-cases (cid == id)) [
  | inl same ↦
      let there : get id (put cid c s.conversations) ≡ some c =
        get-put cid id c s.conversations ∙ rw same refl in
      let p : c ≡ d = cc (there, found) in
      subst AreFair (ap (λ (r : ConversationRecord). r.messages) p) fair
  | inr other ↦ all id d (sym (get-put cid id c s.conversations ∙ rw other refl) ∙ found)
]

module _ {A : Type 0} (P : Result A × InMemoryState → Type 0) (s : InMemoryState) where
  past_conversation :
      (cid user : String) (k : ConversationRecord → Exec InMemoryState A)
      → ((e : ErrorCode) → P (err e, s))
      → ((c : ConversationRecord) → get cid s.conversations ≡ some c → P (k c s))
      → P ((conversation_for cid user >>= k) s)
  unfolding conversation_for
  past_conversation cid user k bad good =
      elim (get cid s.conversations)
          as (λ o.
            ((c : ConversationRecord) → o ≡ some c → P (k c s)) → P ((admit user o >>= k) s)) [
              | none ↦ λ g. bad unknown_conversation
              | some c ↦ λ g.
                  elim (elem user c.participant_user_ids)
                    as (λ b. P (((require b conversation_access_denied >> pure c) >>= k) s)) [
                      | true ↦ g c refl
                      | false ↦ bad conversation_access_denied
                    ]
            ]
        good

  past_poll :
      (id : String) (ms : List Message) (k : Message × Poll → Exec InMemoryState A)
      → ((e : ErrorCode) → P (err e, s))
      → AreFair ms
      → ((m : Message) (poll : Poll) → IsFair (values poll.votes) → P (k (m, poll) s))
      → P ((find_poll id ms >>= k) s)
  unfolding find_poll
  past_poll id [] k bad fair good = bad unknown_message
  past_poll id (m ∷ ms) k bad (first, fair) good =
      by_test (λ (f : Exec InMemoryState (Message × Poll)). P ((f >>= k) s)) (m.message_id == id) _
        _
        (λ h.
          elim m.poll
              as (λ o.
                ((q : Poll) → o ≡ some q → IsFair (values q.votes))
                → P ((elim o [ none ↦ raise not_a_poll | some poll ↦ pure (m, poll) ] >>= k) s)) [
                  | none ↦ λ f. bad not_a_poll
                  | some q ↦ λ f. good m q (f q refl)
                ]
            first)
        (λ h. past_poll id ms k bad fair good)

module _ (s : InMemoryState) (all : IsFairState s) where
  abbrev Good : {A : Type 0} → Result A × InMemoryState → Type 0
  Good o = IsFairState o.1

  create-IsFairState :
      (drawn : String) (now : ℕ) (cid sender question : String) (options : List String)
      (multiple : Bool)
      → IsFairState ((create drawn now cid sender question options multiple s).1)
  unfolding create
  create-IsFairState drawn now cid sender question options multiple =
      past_conversation Good s cid sender _ (λ e. all)
        λ c found.
          past_guard Good s (not (is_empty (strip question))) _ _ (λ e. all)
            λ asked.
              past_guard Good s (leb 2 (length (cleaned_options options))) _ _ (λ e. all)
                λ enough.
                  store-IsFairState cid _ s
                    (All-append
                      (λ m. (poll : Poll) → m.poll ≡ some poll → IsFair (values poll.votes))
                      c.messages (_ ∷ []) (all cid c found) (same-IsFair _ tt, tt))
                    all

  vote-IsFairState :
      (cid id voter : String) (picks : List ℤ) → IsFairState ((vote cid id voter picks s).1)
  unfolding vote
  vote-IsFairState cid id voter picks =
      let unique = sorted_picks picks in
      past_conversation Good s cid voter _ (λ e. all)
        λ c found.
          past_poll Good s id c.messages _ (λ e. all) (all cid c found)
            λ m poll fair.
              past_guard Good s (not poll.closed) _ _ (λ e. all)
                λ running.
                  past_guard Good s (ltb 0 (length unique)) _ _ (λ e. all)
                    λ some_pick.
                      past_guard Good s (not (any (is_outside (length poll.options)) unique)) _ _
                        (λ e. all)
                        λ inside.
                          past_guard Good s (poll.multiple_choice || length unique == 1) _ _
                            (λ e. all)
                            λ allowed.
                              let once : NoRepeat (map pos_part unique) =
                                NoRepeat-picks (length poll.options) unique (ground (arith, inside))
                                  (sorted_picks-IsRising picks) in
                              store-IsFairState cid _ s
                                (write_poll-AreFair id _ c.messages
                                  (IsFair-put voter (map pos_part unique) poll.votes once fair)
                                  (all cid c found))
                                all

  close-IsFairState : (cid id actor : String) → IsFairState ((close cid id actor s).1)
  unfolding close
  close-IsFairState cid id actor =
      past_conversation Good s cid actor _ (λ e. all)
        λ c found.
          past_poll Good s id c.messages _ (λ e. all) (all cid c found)
            λ m poll fair.
              past_guard Good s (m.sender_user_id == actor) _ _ (λ e. all)
                λ own.
                  store-IsFairState cid _ s
                    (write_poll-AreFair id _ c.messages fair (all cid c found)) all

-- What a client may ask of the polls.
pub data Request : Type 0 where
  ask : String → ℕ → String → String → String → List String → Bool → Request
  cast : String → String → String → List ℤ → Request
  shut : String → String → String → Request

-- The state after a request, which may fail.
unfoldable pub serve_poll : Request → InMemoryState → InMemoryState
serve_poll (ask drawn now cid sender question options multiple) s =
    (create drawn now cid sender question options multiple s).1
serve_poll (cast cid id voter picks) s = (vote cid id voter picks s).1
serve_poll (shut cid id actor) s = (close cid id actor s).1

unfoldable pub serve_polls : List Request → InMemoryState → InMemoryState
unfolding serve_poll
serve_polls [] s = s
serve_polls (r ∷ rs) s = serve_polls rs (serve_poll r s)

serve_poll-IsFairState :
    (r : Request) (s : InMemoryState) → IsFairState s → IsFairState (serve_poll r s)
unfolding serve_poll
serve_poll-IsFairState (ask drawn now cid sender question options multiple) s all =
    create-IsFairState s all drawn now cid sender question options multiple
serve_poll-IsFairState (cast cid id voter picks) s all = vote-IsFairState s all cid id voter picks
serve_poll-IsFairState (shut cid id actor) s all = close-IsFairState s all cid id actor

serve_polls-IsFairState :
    (rs : List Request) (s : InMemoryState) → IsFairState s → IsFairState (serve_polls rs s)
unfolding serve_polls
serve_polls-IsFairState [] s all = all
serve_polls-IsFairState (r ∷ rs) s all =
    serve_polls-IsFairState rs (serve_poll r s) (serve_poll-IsFairState r s all)

all-at {ℓ κ} :
    {A : Type ℓ} (P : A → Type κ) (xs : List A) (n : ℕ) (x : A)
    → All P xs
    → get_elem? xs n ≡ some x
    → P x
all-at P [] n x all h = ground (arith, h)
all-at P (y ∷ ys) zero x (first, all) h = let y=x : y ≡ x = cc h in subst P y=x first
all-at P (y ∷ ys) (suc n) x (first, all) h = all-at P ys n x all h

-- Where every poll of the state is fair, and a list of requests has been served, each of which may
-- have created, voted in or closed a poll or failed, the tally of every option of every poll is the
-- number of the voters whose vote has the option.
pub serve_polls-counts :
    (rs : List Request) (s : InMemoryState) (id : String) (c : ConversationRecord) (n i : ℕ)
    (m : Message) (poll : Poll)
    → IsFairState s
    → get id (serve_polls rs s).conversations ≡ some c
    → get_elem? c.messages n ≡ some m
    → m.poll ≡ some poll
    → i < length poll.options
    → get_elem? (tallies poll) i ≡ some (voters_for i (values poll.votes))
serve_polls-counts rs s id c n i m poll fair found at_n is_poll option =
    let all : AreFair c.messages = serve_polls-IsFairState rs s fair id c found in
    tallies-counts poll i
      (all-at (λ m. (p : Poll) → m.poll ≡ some p → IsFair (values p.votes)) c.messages n m all at_n
        poll is_poll)
      option
