-- ===== src/PushTokens/Tests.antt =====
-- The push tokens on concrete requests.
use telegram.Prelude.{eq_nat, eq_string, eq_pair, List, [], ◌∷◌, arith}
use telegram.State.Samples.{seeded_state}
use telegram.PushTokens.{PushTokenService}
use telegram.PushTokens.Keys.{
  Request, registers, unregisters, notifies, serve_all, IsUnique, serve_push-IsUnique,
}

abbrev empty : PushTokenService
empty = record { state = record seeded_state { push_tokens = [] }; pending_deliveries = [] }

-- a token that is replaced by the next one, and a message for its user
abbrev rotation : List Request
rotation =
    registers 1 "u_alice" "phone" "fcm" "first"
    ∷ registers 2 "u_alice" "phone" "fcm" "second"
    ∷ registers 3 "u_alice" "tablet" "apns" "third"
    ∷ notifies 4 "u_alice" "message_deliver" "hello"
    ∷ unregisters "u_alice" "phone" "fcm" "first"
    ∷ []

serve_push-IsUnique_example : IsUnique (serve_all rotation empty).state.push_tokens
serve_push-IsUnique_example = serve_push-IsUnique rotation empty (λ u d p. omega arith)
