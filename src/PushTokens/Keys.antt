-- ===== src/PushTokens/Keys.antt =====
-- What any requests keep of the table of push tokens.
use telegram.Prelude.{
  by_test, eq_nat, eq_string, eq_pair, ◌==◌, ==_iff, ltb, Bool-cases, length, keep, ℕ, ◌+◌, ◌≤◌,
  String, ◌≡◌, refl, inl, inr, Bool, true, not, ◌&&◌, List, [], ◌∷◌, ◌++◌, arith,
}
use telegram.Prelude.Text.{is_empty}
use telegram.Prelude.Exec.Guards.{past_guard}
use telegram.State.{PushTokenRecord, save_runtime_state}
use telegram.PushTokens.{
  PushTokenService, is_of, with_tokens, register, unregister, notify_offline_recipient,
  drain_pending,
}

-- How many tokens stand for the user, the device and the platform.
abbrev pub tokens_of : String → String → String → List PushTokenRecord → ℕ
tokens_of u d p rs = length (keep (is_of u d p) rs)

-- A user has one token at most for a device and a platform.
abbrev pub IsUnique : List PushTokenRecord → Type 0
IsUnique rs = (u d p : String) → tokens_of u d p rs ≤ 1

tokens_of-keep :
    (u d p : String) (q : PushTokenRecord → Bool) (rs : List PushTokenRecord)
    → tokens_of u d p (keep q rs) ≤ tokens_of u d p rs
tokens_of-keep u d p q [] = omega arith
tokens_of-keep u d p q (r ∷ rs) = ground (arith, tokens_of-keep u d p q rs)

tokens_of-append :
    (u d p : String) (rs ts : List PushTokenRecord)
    → tokens_of u d p (rs ++ ts) ≡ tokens_of u d p rs + tokens_of u d p ts
tokens_of-append u d p [] ts = omega arith
tokens_of-append u d p (r ∷ rs) ts = ground (arith, tokens_of-append u d p rs ts)

tokens_of-gone :
    (u d p : String) (rs : List PushTokenRecord)
    → tokens_of u d p (keep (λ r. not (is_of u d p r)) rs) ≡ 0
tokens_of-gone u d p [] = refl
tokens_of-gone u d p (r ∷ rs) = ground (arith, tokens_of-gone u d p rs)

is_of-same :
    (u d p : String) (new : PushTokenRecord) (rs : List PushTokenRecord)
    → is_of u d p new ≡ true
    → tokens_of u d p (keep (λ r. not (is_of new.user_id new.device_id new.platform r)) rs) ≡ 0
is_of-same u d p new rs h =
    let same : (new.user_id ≡ u) × ((new.device_id ≡ d) × (new.platform ≡ p)) =
      ground (arith, h, ==_iff new.user_id u, ==_iff new.device_id d, ==_iff new.platform p) in
    rw (same.0, same.1.0, same.1.1) (tokens_of-gone u d p rs)

replaced-IsUnique :
    (new : PushTokenRecord) (rs : List PushTokenRecord)
    → IsUnique rs
    → IsUnique (keep (λ r. not (is_of new.user_id new.device_id new.platform r)) rs ++ new ∷ [])
replaced-IsUnique new rs unique u d p =
    let left : List PushTokenRecord =
      keep (λ r. not (is_of new.user_id new.device_id new.platform r)) rs in
    let split = tokens_of-append u d p left (new ∷ []) in
    elim (Bool-cases (is_of u d p new)) [
      | inl same ↦
          let none_left = is_of-same u d p new rs same in
          let one : tokens_of u d p (new ∷ []) ≡ 1 = rw same refl in
          omega (arith, split, none_left, one)
      | inr other ↦
          let before =
            tokens_of-keep u d p (λ r. not (is_of new.user_id new.device_id new.platform r)) rs in
          let no_one : tokens_of u d p (new ∷ []) ≡ 0 = rw other refl in
          omega (arith, split, before, no_one, unique u d p)
    ]

-- What a client or the dispatcher may ask of the tokens.
pub data Request : Type 0 where
  registers : ℕ → String → String → String → String → Request
  unregisters : String → String → String → String → Request
  notifies : ℕ → String → String → String → Request
  drains : Request

unfoldable pub serve_push : Request → PushTokenService → PushTokenService
serve_push (registers now u d p token) s = (register now u d p token s).1
serve_push (unregisters u d p token) s = (unregister u d p token s).1
serve_push (notifies now u kind body) s = (notify_offline_recipient now u kind body s).1
serve_push drains s = (drain_pending s).1

unfoldable pub serve_all : List Request → PushTokenService → PushTokenService
serve_all [] s = s
serve_all (r ∷ rs) s = serve_all rs (serve_push r s)

abbrev AreUnique : PushTokenService → Type 0
AreUnique s = IsUnique s.state.push_tokens

serve_push-AreUnique :
    (r : Request) (s : PushTokenService) → AreUnique s → AreUnique (serve_push r s)
unfolding serve_push register unregister notify_offline_recipient drain_pending with_tokens
    save_runtime_state
serve_push-AreUnique (registers now u d p token) s unique =
    past_guard (λ o. AreUnique o.1) s (not (is_empty p) && not (is_empty token)) _ _ (λ e. unique)
      λ named. replaced-IsUnique _ s.state.push_tokens unique
serve_push-AreUnique (unregisters u d p token) s unique =
    let is_gone = λ (r : PushTokenRecord). is_of u d p r && r.token == token in
    let left = keep (λ r. not (is_gone r)) s.state.push_tokens in
    let fewer : IsUnique left = λ u d p.
      let before = tokens_of-keep u d p (λ r. not (is_gone r)) s.state.push_tokens in
      omega (arith, before, unique u d p) in
    by_test (λ (o : Bool × PushTokenService). AreUnique o.1)
      (ltb (length left) (length s.state.push_tokens)) _ _ (λ h. fewer) (λ h. fewer)
serve_push-AreUnique (notifies now u kind body) s unique = unique
serve_push-AreUnique drains s unique = unique

-- Where no user has two tokens for one device and one platform, it stays so after any requests: to
-- register and to unregister a token, to notify a user and to take the waiting deliveries.
pub serve_push-IsUnique :
    (rs : List Request) (s : PushTokenService)
    → IsUnique s.state.push_tokens
    → IsUnique (serve_all rs s).state.push_tokens
unfolding serve_all
serve_push-IsUnique [] s unique = unique
serve_push-IsUnique (r ∷ rs) s unique =
    serve_push-IsUnique rs (serve_push r s) (serve_push-AreUnique r s unique)
