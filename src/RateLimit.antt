-- ===== src/RateLimit.antt =====
-- server/server/services/rate_limiter.py: token buckets by (operation, key). Times are whole
-- microseconds, and a token is 60 000 000 units, so that every configured rate is a whole number of
-- units per microsecond; the rounding of floats is not modelled.
pub mod Bounds
pub mod Tests
use telegram.Prelude.{
  eq_nat, eq_string, eq_pair, ◌==◌, leb, if◌then◌else◌, ℕ, ◌+◌, ◌-◌, ◌*◌, min, String, Bool, true,
  false, ◌&&◌, Option, none, some, List, [], ◌∷◌,
}
use telegram.Prelude.Dict.{Dict, get, put}
use telegram.Prelude.Text.{is_empty}

-- `rate` is in units per microsecond, `burst` in units.
pub record RateConfig : Type 0 where
  pub rate : ℕ
  pub burst : ℕ

abbrev pub token : ℕ
token = 60000000

-- `RateConfig(rate=count, burst=burst)`, a rate in tokens per second
abbrev pub per_second : ℕ → ℕ → RateConfig
per_second count burst = record { rate = count * 60; burst = burst * token }

-- `RateConfig.per_minute`
abbrev pub per_minute : ℕ → ℕ → RateConfig
per_minute count burst = record { rate = count; burst = burst * token }

pub default_limits : Dict String RateConfig
default_limits =
    ("message_send", per_second 5 10)
    ∷ ("register_request", per_minute 3 5)
    ∷ ("phone_otp_request", per_minute 2 3)
    ∷ ("phone_otp_verify_request", per_minute 20 20)
    ∷ ("presence_query_request", per_second 5 10)
    ∷ ("message_send_attachment", per_second 2 4)
    ∷ []

pub record Bucket : Type 0 where
  pub tokens : ℕ
  pub last_refill : ℕ

pub record RateLimiter : Type 0 where
  pub configs : Dict String RateConfig
  pub buckets : Dict (String × String) Bucket

pub new_limiter : RateLimiter
unfolding default_limits
new_limiter = record { configs = default_limits; buckets = [] }

pub configure : String → ℕ → ℕ → RateLimiter → RateLimiter
configure op rate burst l = record l {
  configs = put op (record { rate = rate; burst = burst }) l.configs;
}

pub reset : RateLimiter → RateLimiter
reset l = record l { buckets = [] }

-- The bucket that an attempt finds, made full on first use.
pub find_bucket : RateConfig → ℕ → Option Bucket → Bucket
find_bucket cfg now none = record { tokens = cfg.burst; last_refill = now }
find_bucket cfg now (some b) = b

-- `min(config.burst, tokens + elapsed * config.rate)`; on ℕ the difference is `max(0, ...)`
pub refilled : RateConfig → ℕ → Bucket → ℕ
refilled cfg now b = min cfg.burst (b.tokens + (now - b.last_refill) * cfg.rate)

pub draw : RateConfig → (String × String) → ℕ → ℕ → RateLimiter → RateLimiter × Bool
unfolding find_bucket refilled
draw cfg key cost now l =
    let tokens = refilled cfg now (find_bucket cfg now (get key l.buckets)) in
    if leb cost tokens
    then (
      record l {
        buckets = put key (record { tokens = tokens - cost; last_refill = now }) l.buckets;
      },
      true,
    )
    else (
      record l { buckets = put key (record { tokens = tokens; last_refill = now }) l.buckets },
      false,
    )

-- `try_acquire(op, key, cost=cost)` when the clock says `now`
pub try_acquire : String → String → ℕ → ℕ → RateLimiter → RateLimiter × Bool
unfolding draw
try_acquire op key cost now l = elim (get op l.configs) [
  | none ↦ (l, true)
  | some cfg ↦ if is_empty key then (l, true) else draw cfg (op, key) cost now l
]

pub record Attempt : Type 0 where
  pub op : String
  pub key : String
  pub cost : ℕ
  pub now : ℕ

pub concerns : Attempt → String × String → Bool
concerns a k = ◌==◌ {A = String × String} (a.op, a.key) k

-- the units granted to one (operation, key) along a run
pub granted : String × String → List Attempt → RateLimiter → ℕ
granted k [] l = 0
granted k (a ∷ rest) l =
    let (l', allowed) = try_acquire a.op a.key a.cost a.now l in
    let later = granted k rest l' in if allowed && concerns a k then a.cost + later else later
