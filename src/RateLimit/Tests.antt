-- ===== src/RateLimit/Tests.antt =====
-- Runs of server/server/services/rate_limiter.py with its default limits.
use telegram.Prelude.{
  text_eq, eq_nat, eq_string, eq_pair, ℕ, ◌+◌, ◌-◌, ◌*◌, ◌≤◌, ◌≡◌, refl, true, List, [], ◌∷◌, arith,
}
use telegram.Prelude.Dict.{get, put}
use telegram.RateLimit.{
  RateLimiter, Attempt, token, per_minute, new_limiter, default_limits, try_acquire, granted,
  concerns,
}
use telegram.RateLimit.Bounds.{granted_bound, try_acquire_after_pause}

abbrev attempt : ℕ → Attempt
attempt now = record { op = "phone_otp_request"; key = "+15551234567"; cost = token; now = now }

-- five requests within a second
abbrev flood : List Attempt
flood = attempt 0 ∷ attempt 1 ∷ attempt 2 ∷ attempt 3 ∷ attempt 1000000 ∷ []

three_pass : granted ("phone_otp_request", "+15551234567") flood new_limiter ≡ 3 * token
unfolding granted try_acquire get new_limiter text_eq concerns put
three_pass = refl

abbrev spent : RateLimiter
spent = record {
  configs = ("phone_otp_request", per_minute 2 3) ∷ [];
  buckets = (("phone_otp_request", "+15551234567"), record { tokens = 0; last_refill = 5 }) ∷ [];
}

granted_bound_example :
    granted ("phone_otp_request", "+15551234567") flood new_limiter ≤ 3 * token + (1000000 - 0) * 2
granted_bound_example =
    granted_bound (per_minute 2 3) "phone_otp_request" "+15551234567" flood 0 1000000 new_limiter
      refl (unfold new_limiter default_limits get text_eq in refl) (unfold new_limiter get in refl)
      (omega arith, (omega arith, (omega arith, (omega arith, (omega arith, omega arith)))))

try_acquire_after_pause_example :
    (try_acquire "phone_otp_request" "+15551234567" token 100000000 spent).1 ≡ true
try_acquire_after_pause_example =
    try_acquire_after_pause (per_minute 2 3) "phone_otp_request" "+15551234567" token 100000000
      (record { tokens = 0; last_refill = 5 }) spent (unfold get text_eq in refl)
      (unfold get text_eq in refl) (omega arith) (omega arith)
