-- ===== src/Api/RateLimit.antt =====
-- The token bucket of an API key (orchestrator/internal/api/ratelimit.go). Its float64 counts of
-- tokens are exact here: `tokens` counts parts of a token, of which one has `token` = 6 * 10 ^ 10,
-- so that a nanosecond refills `per_min` parts.
use orchd.Prelude.{ℕ, ◌+◌, ◌-◌, ◌*◌, Text, Bool, Option, none, some, ltb, leb, [], if◌then◌else◌}
use orchd.Prelude.Int.{ℤ, pos_part, is_positive}
use orchd.Table.{Table, lookup, insert}

abbrev pub token : ℕ
token = 60000000000

pub record Bucket : Type 0 where
  pub tokens : ℕ
  pub last : ℕ

pub record RateLimiter : Type 0 where
  pub buckets : Table Bucket
  -- requests per minute: the parts that a nanosecond refills
  pub rate : ℕ
  pub burst : ℕ

-- A sixth of the requests of a minute, and 20 at least.
unfoldable pub burst_of : ℕ → ℕ
burst_of per_min =
    if ltb (per_min * 10000000000) (20 * token) then 20 * token else per_min * 10000000000

-- newRateLimiter; `none` is off
unfoldable pub new_rate_limiter : ℤ → Option RateLimiter
unfolding burst_of
new_rate_limiter per_min =
    if is_positive per_min
    then some
        (record { buckets = []; rate = pos_part per_min; burst = burst_of (pos_part per_min) })
    else none

-- A key's bucket as it is found or made.
abbrev pub bucket_or_full : ℕ → ℕ → Option Bucket → Bucket
bucket_or_full burst now none = record { tokens = burst; last = now }
bucket_or_full burst now (some b) = b

abbrev pub capped : ℕ → ℕ → ℕ
capped burst n = if ltb burst n then burst else n

-- The tokens of a bucket after the time since its last use.
unfoldable pub refill : RateLimiter → ℕ → Bucket → ℕ
refill l now b = capped l.burst (b.tokens + l.rate * (now - b.last))

unfoldable pub allow : Text → ℕ → RateLimiter → Bool × RateLimiter
unfolding refill
allow key now l =
    let filled = refill l now (bucket_or_full l.burst now (lookup key l.buckets)) in
    let ok = leb token filled in
    (
      ok,
      record l {
        buckets =
            insert key (record { tokens = if ok then filled - token else filled; last = now })
              l.buckets;
      },
    )
