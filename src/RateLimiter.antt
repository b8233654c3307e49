-- ===== src/RateLimiter.antt =====
-- The token-bucket rate limiter: huddle_cluster_pkg/cluster_rate_limiter.py.
-- Amounts are whole numbers of a small unit: `unit` of them make one token. Times are ticks of
-- `time.monotonic()`, and a refill rate is in small units per tick, so `elapsed * refill_rate` is
-- exact. Each call takes the time that it reads from the clock.
pub mod Bucket
pub mod Burst
pub mod Nodes
mod Tests
use huddle_cluster.Base.{
  ℕ, ◌+◌, ◌-◌, ◌*◌, String, Bool, true, false, not, ◌&&◌, Option, none, some, List, [], ◌∷◌, Dict,
  get, assign, if◌then◌else◌, leb, ltb,
}

pub record TokenBucket : Type 0 where
  pub capacity : ℕ
  pub refill_rate : ℕ
  pub tokens : ℕ
  pub last_refill : ℕ
  pub consumed : ℕ

-- A bucket starts full.
unfoldable pub new_bucket : ℕ → ℕ → ℕ → TokenBucket
new_bucket now capacity refill_rate = record {
  capacity = capacity;
  refill_rate = refill_rate;
  tokens = capacity;
  last_refill = now;
  consumed = 0;
}

-- Python's `min(a, b)`.
abbrev pub min : ℕ → ℕ → ℕ
min a b = if ltb b a then b else a

unfoldable pub refill : ℕ → TokenBucket → TokenBucket
refill now b =
    let elapsed = now - b.last_refill in
    record b { tokens = min b.capacity (b.tokens + elapsed * b.refill_rate); last_refill = now }

unfoldable pub take_tokens : ℕ → TokenBucket → TokenBucket × Bool
take_tokens amount b =
    if leb amount b.tokens
    then (record b { tokens = b.tokens - amount; consumed = b.consumed + 1 }, true)
    else (b, false)

-- `TokenBucket.consume`
unfoldable pub consume_bucket : ℕ → ℕ → TokenBucket → TokenBucket × Bool
unfolding refill take_tokens
consume_bucket now amount b = take_tokens amount (refill now b)

unfoldable pub fill : ℕ → TokenBucket → TokenBucket
fill now b = record b { tokens = b.capacity; last_refill = now }

pub record ClusterRateLimiter : Type 0 where
  pub capacity : ℕ
  pub refill_rate : ℕ
  pub buckets : Dict TokenBucket

-- `__init__`: `none` is the ValueError.
unfoldable pub new_limiter : ℕ → ℕ → Option ClusterRateLimiter
new_limiter capacity refill_rate =
    if ltb 0 capacity && ltb 0 refill_rate
    then some (record { capacity = capacity; refill_rate = refill_rate; buckets = [] })
    else none

-- The bucket of a node, a full one if it has none yet.
unfoldable pub bucket_of : ℕ → String → ClusterRateLimiter → TokenBucket
unfolding new_bucket
bucket_of now node_id l = elim (get node_id l.buckets) [
  | none ↦ new_bucket now l.capacity l.refill_rate
  | some b ↦ b
]

-- The shared bucket object was changed.
abbrev pub store : String → TokenBucket → ClusterRateLimiter → ClusterRateLimiter
store node_id b l = record l { buckets = assign node_id b l.buckets }

-- `consume`: the new state, the result, and the nodes that `on_rate_limited` is called for.
unfoldable pub consume :
    ℕ → String → ℕ → ClusterRateLimiter → ClusterRateLimiter × Bool × List String
consume now node_id amount l =
    let (b, granted) = consume_bucket now amount (bucket_of now node_id l) in
    (store node_id b l, granted, if granted then [] else node_id ∷ [])

-- The question creates and refills the bucket too.
unfoldable pub is_rate_limited : ℕ → ℕ → String → ClusterRateLimiter → ClusterRateLimiter × Bool
is_rate_limited unit now node_id l =
    let b = refill now (bucket_of now node_id l) in (store node_id b l, ltb b.tokens unit)

reset_found : ℕ → String → ClusterRateLimiter → Option TokenBucket → ClusterRateLimiter × Bool
reset_found now node_id l none = (l, false)
reset_found now node_id l (some b) = (store node_id (fill now b) l, true)

unfoldable pub reset : ℕ → String → ClusterRateLimiter → ClusterRateLimiter × Bool
unfolding reset_found
reset now node_id l = reset_found now node_id l (get node_id l.buckets)

-- What `to_dict` reports, behind its refill; the two rounded ratios are left out.
pub record BucketReport : Type 0 where
  pub node_id : String
  pub tokens : ℕ
  pub rate_limited : Bool
  pub consumed_total : ℕ

unfoldable pub to_dict : ℕ → String → TokenBucket → BucketReport
to_dict unit node_id b = record {
  node_id = node_id;
  tokens = b.tokens;
  rate_limited = ltb b.tokens unit;
  consumed_total = b.consumed;
}

bucket_found :
    ℕ
    → ℕ
    → String
    → ClusterRateLimiter
    → Option TokenBucket
    → ClusterRateLimiter × Option BucketReport
bucket_found unit now node_id l none = (l, none)
bucket_found unit now node_id l (some b) =
    let b' = refill now b in (store node_id b' l, some (to_dict unit node_id b'))

unfoldable pub bucket_for :
    ℕ → ℕ → String → ClusterRateLimiter → ClusterRateLimiter × Option BucketReport
unfolding bucket_found
bucket_for unit now node_id l = bucket_found unit now node_id l (get node_id l.buckets)
