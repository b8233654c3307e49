-- ===== src/RateLimiter/Bucket.antt =====
-- One token bucket: its bounds, and when it grants a request.
use huddle_cluster.Base.{ℕ, ◌+◌, ◌-◌, ◌*◌, ◌≤◌, ◌≡◌, Bool, arith, if◌then◌else◌, leb}
use native.Mathlib.Nat.{add-mul, mul-le-mul_right}
use huddle_cluster.RateLimiter.{TokenBucket, min, refill, consume_bucket}

-- What the bucket could hand out at a time, were it not capped.
abbrev pub available : ℕ → TokenBucket → ℕ
available now b = b.tokens + (now - b.last_refill) * b.refill_rate

-- The amount that a request took.
abbrev pub granted : ℕ → Bool → ℕ
granted amount ok = if ok then amount else 0

pub refill-tokens-le :
    (now : ℕ) (b : TokenBucket)
    → let b' = refill now b in (b'.tokens ≤ b.capacity) × (b'.tokens ≤ available now b)
unfolding refill
refill-tokens-le now b = ground arith

pub consume_bucket-capacity :
    (now amount : ℕ) (b : TokenBucket)
    → let b' = (consume_bucket now amount b).0 in
      (b'.tokens ≤ b.capacity)
      × (b'.capacity ≡ b.capacity)
      × (b'.refill_rate ≡ b.refill_rate)
      × (b'.last_refill ≡ now)
unfolding consume_bucket
consume_bucket-capacity now amount b = ground arith

-- What a request can get at a time.
abbrev pub headroom : ℕ → TokenBucket → ℕ
headroom now b = min b.capacity (available now b)

-- A request is granted exactly if it asks for no more than the capacity and than what has
-- flowed in; what it takes is then missing.
pub consume_bucket-headroom :
    (now amount : ℕ) (b : TokenBucket)
    → let r = consume_bucket now amount b in
      (r.1 ≡ leb amount (headroom now b)) × (granted amount r.1 + headroom now r.0 ≡ headroom now b)
unfolding consume_bucket
consume_bucket-headroom now amount b = (ground arith, grind arith)

pub refill-headroom : (now : ℕ) (b : TokenBucket) → headroom now (refill now b) ≡ headroom now b
unfolding refill
refill-headroom now b = grind arith

mul_split : (x y z r : ℕ) → x ≤ y + z → x * r ≤ y * r + z * r
mul_split x y z r h = rw (← add-mul y z r) (mul-le-mul_right r h)

-- Waiting adds what flows in, and no more.
pub headroom-later :
    (now later : ℕ) (b : TokenBucket)
    → now ≤ later
    → headroom later b ≤ headroom now b + (later - now) * b.refill_rate
headroom-later now later b h = ground (
  arith,
  mul_split (later - b.last_refill) (now - b.last_refill) (later - now) b.refill_rate (omega arith),
)
