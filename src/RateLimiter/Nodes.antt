-- ===== src/RateLimiter/Nodes.antt =====
-- The limiter over its nodes: the invariant of the buckets, and that a call for one node leaves
-- the others alone.
use huddle_cluster.Base.{
  ℕ, ◌≤◌, ◌≡◌, String, [], ◌∷◌, arith, Dict, get, get-assign, Every, Every-assign, Every-get,
  str_eq, if◌then◌else◌, Option-cases, inl, inr, not, ltb, str_eq_refl,
}
use huddle_cluster.RateLimiter.{
  TokenBucket, ClusterRateLimiter, refill, consume_bucket, fill, bucket_of, store, consume,
  is_rate_limited, reset, reset_found, bucket_for, bucket_found,
}
use huddle_cluster.RateLimiter.Bucket.{consume_bucket-capacity}

-- A bucket has the limiter's settings, at most its capacity, and was refilled in the past.
pub record IsWithin (capacity refill_rate now : ℕ) (b : TokenBucket) : Type 0 where
  pub sized : b.capacity ≡ capacity
  pub rated : b.refill_rate ≡ refill_rate
  pub capped : b.tokens ≤ capacity
  pub past : b.last_refill ≤ now

abbrev pub IsValid : ℕ → ClusterRateLimiter → Type 0
IsValid now l = Every (λ k b. IsWithin l.capacity l.refill_rate now b) l.buckets

pub bucket_of-IsWithin :
    (now : ℕ) (key : String) (l : ClusterRateLimiter)
    → IsValid now l
    → IsWithin l.capacity l.refill_rate now (bucket_of now key l)
unfolding bucket_of
bucket_of-IsWithin now key l v = elim (Option-cases (get key l.buckets)) [
  | inl e ↦ rw (e, bucket_of) (omega arith)
  | inr (b, e) ↦
      rw (e, bucket_of)
        (Every-get (λ k b. IsWithin l.capacity l.refill_rate now b) key b l.buckets v e)
]

pub store-IsValid :
    (now : ℕ) (key : String) (b : TokenBucket) (l : ClusterRateLimiter)
    → IsWithin l.capacity l.refill_rate now b
    → IsValid now l
    → IsValid now (store key b l)
store-IsValid now key b l h v =
    Every-assign (λ k b. IsWithin l.capacity l.refill_rate now b) key b l.buckets (λ j e. h) v

IsWithin-later :
    {capacity refill_rate now later : ℕ} {b : TokenBucket}
    → now ≤ later
    → IsWithin capacity refill_rate now b
    → IsWithin capacity refill_rate later b
IsWithin-later h v = omega arith

Every-later :
    (capacity refill_rate now later : ℕ) (m : Dict TokenBucket)
    → now ≤ later
    → Every (λ k b. IsWithin capacity refill_rate now b) m
    → Every (λ k b. IsWithin capacity refill_rate later b) m
Every-later capacity refill_rate now later [] h v = tt
Every-later capacity refill_rate now later ((k, b) ∷ m) h v =
    (IsWithin-later h v.0, Every-later capacity refill_rate now later m h v.1)

-- What is true of the buckets stays true as time passes.
pub IsValid-later :
    (now later : ℕ) (l : ClusterRateLimiter) → now ≤ later → IsValid now l → IsValid later l
IsValid-later now later l h v = Every-later l.capacity l.refill_rate now later l.buckets h v

consume_bucket-IsWithin :
    {capacity refill_rate : ℕ} (now amount : ℕ) (b : TokenBucket)
    → IsWithin capacity refill_rate now b
    → IsWithin capacity refill_rate now (consume_bucket now amount b).0
consume_bucket-IsWithin now amount b v = ground (arith, consume_bucket-capacity now amount b)

refill-IsWithin :
    {capacity refill_rate : ℕ} (now : ℕ) (b : TokenBucket)
    → IsWithin capacity refill_rate now b
    → IsWithin capacity refill_rate now (refill now b)
unfolding refill
refill-IsWithin now b v = ground arith

pub consume-IsValid :
    (now : ℕ) (key : String) (amount : ℕ) (l : ClusterRateLimiter)
    → IsValid now l
    → IsValid now (consume now key amount l).0
unfolding consume
consume-IsValid now key amount l v =
    store-IsValid now key _ l
      (consume_bucket-IsWithin now amount (bucket_of now key l) (bucket_of-IsWithin now key l v)) v

pub is_rate_limited-IsValid :
    (unit now : ℕ) (key : String) (l : ClusterRateLimiter)
    → IsValid now l
    → IsValid now (is_rate_limited unit now key l).0
unfolding is_rate_limited
is_rate_limited-IsValid unit now key l v =
    store-IsValid now key _ l
      (refill-IsWithin now (bucket_of now key l) (bucket_of-IsWithin now key l v)) v

pub reset-IsValid :
    (now : ℕ) (key : String) (l : ClusterRateLimiter)
    → IsValid now l
    → IsValid now (reset now key l).0
unfolding reset fill
reset-IsValid now key l v = elim (Option-cases (get key l.buckets)) [
  | inl e ↦ rw (e, reset_found) v
  | inr (b, e) ↦
      let w = Every-get (λ k b. IsWithin l.capacity l.refill_rate now b) key b l.buckets v e in
      rw (e, reset_found) (store-IsValid now key (fill now b) l (omega arith) v)
]

pub bucket_for-IsValid :
    (unit now : ℕ) (key : String) (l : ClusterRateLimiter)
    → IsValid now l
    → IsValid now (bucket_for unit now key l).0
unfolding bucket_for
bucket_for-IsValid unit now key l v = elim (Option-cases (get key l.buckets)) [
  | inl e ↦ rw (e, bucket_found) v
  | inr (b, e) ↦
      let w = Every-get (λ k b. IsWithin l.capacity l.refill_rate now b) key b l.buckets v e in
      rw (e, bucket_found) (store-IsValid now key (refill now b) l (refill-IsWithin now b w) v)
]

-- A call for one node leaves the bucket of every other as it was.
pub bucket_of-store :
    (now : ℕ) (key k : String) (b : TokenBucket) (l : ClusterRateLimiter)
    → bucket_of now key (store k b l) ≡ (if str_eq k key then b else bucket_of now key l)
unfolding bucket_of
bucket_of-store now key k b l = ground (arith, get-assign k key b l.buckets)

refill_twice :
    (unit now : ℕ) (b : TokenBucket)
    → (consume_bucket now unit (refill now b)).1 ≡ not (ltb (refill now b).tokens unit)
unfolding consume_bucket refill
refill_twice unit now b = ground arith

-- The scheduler asks first and consumes one token then: at one time, the request is granted
-- exactly if the answer was that the node is not rate-limited.
pub consume-is_rate_limited :
    (unit now : ℕ) (key : String) (l : ClusterRateLimiter)
    → let (l', limited) = is_rate_limited unit now key l in
      (consume now key unit l').1 ≡ not limited
unfolding consume is_rate_limited
consume-is_rate_limited unit now key l =
    rw (bucket_of-store now key key (refill now (bucket_of now key l)) l, str_eq_refl key)
      (refill_twice unit now (bucket_of now key l))
