-- ===== src/Examples/Api.antt =====
-- Requests with two keys against a token bucket.
use orchd.Prelude.{
  ℕ, ◌+◌, ◌-◌, ◌*◌, ◌≤◌, ◌≡◌, refl, arith, Text, codes, text_eq, none, List, [], ◌∷◌,
}
use orchd.Prelude.Int.{pos}
use orchd.Table.{lookup, insert}
use orchd.Api.RateLimit.{RateLimiter, token, burst_of, new_rate_limiter, refill, allow}
use orchd.Api.Refill.{admitted, admitted-le}

no_limit : new_rate_limiter (pos 0) ≡ none
unfolding new_rate_limiter
no_limit = refl

-- 60 requests a minute; the key has one token left at time 5.
abbrev limiter : RateLimiter
limiter = record {
  buckets = (codes "k1", record { tokens = 60000000000; last = 5 }) ∷ [];
  rate = 60;
  burst = burst_of 60;
}

abbrev requests : List (Text × ℕ)
requests = (codes "k1", 6) ∷ (codes "k2", 7) ∷ (codes "k1", 8) ∷ []

one_admitted : admitted (codes "k1") requests limiter ≡ 1
unfolding admitted allow refill lookup insert text_eq burst_of
one_admitted = refl

admitted-le_example :
    admitted (codes "k1") requests limiter * token ≤ limiter.burst + limiter.rate * (9 - 5)
admitted-le_example =
    admitted-le (codes "k1") requests 5 9 limiter
      (omega arith, (omega arith, (omega arith, omega arith)))
