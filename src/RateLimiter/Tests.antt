-- ===== src/RateLimiter/Tests.antt =====
-- The rate limiter on small inputs: a token is 10 units, 5 units flow in per tick.
use huddle_cluster.Base.{ℕ, ◌+◌, ◌-◌, ◌*◌, ◌≤◌, ◌≡◌, refl, not, some, List, [], ◌∷◌, arith}
use huddle_cluster.Base.Dicts.{get, assign}
use huddle_cluster.RateLimiter.{
  TokenBucket, ClusterRateLimiter, new_limiter, consume_bucket, consume, is_rate_limited, bucket_of,
}
use huddle_cluster.RateLimiter.Nodes.{consume-is_rate_limited}
use huddle_cluster.RateLimiter.Burst.{Call, consumes, asks, spent, step, taken, spent-le}

abbrev limiter : ClusterRateLimiter
limiter = record { capacity = 20; refill_rate = 5; buckets = [] }

abbrev burst : List (ℕ × Call)
burst =
    (0, consumes "a" 10)
    ∷ (0, consumes "a" 10)
    ∷ (1, consumes "a" 10)
    ∷ (1, asks "b")
    ∷ (2, consumes "a" 10)
    ∷ []

limiter_starts : new_limiter 20 5 ≡ some limiter
unfolding new_limiter
limiter_starts = refl

three_tokens : spent 10 "a" burst limiter ≡ 30
unfolding spent taken step consume is_rate_limited consume_bucket bucket_of get assign
three_tokens = refl

spent-le_example : spent 10 "a" burst limiter ≤ 20 + (2 - 0) * 5
spent-le_example =
    spent-le 10 "a" 0 burst 2 limiter (omega arith) (refl, (refl, (refl, (refl, (refl, tt))))) tt

consume-is_rate_limited_example :
    (consume 3 "a" 10 (is_rate_limited 10 3 "a" limiter).0).1
    ≡ not (is_rate_limited 10 3 "a" limiter).1
consume-is_rate_limited_example = consume-is_rate_limited 10 3 "a" limiter

abbrev drained : TokenBucket
drained = record { capacity = 20; refill_rate = 5; tokens = 0; last_refill = 0; consumed = 2 }
