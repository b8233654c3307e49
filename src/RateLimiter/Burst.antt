-- ===== src/RateLimiter/Burst.antt =====
-- The limiter over histories of calls: how much a node can be granted between two times.
use native.Mathlib.Nat.{add-mul, mul-le-mul_right}
use huddle_cluster.Base.{
  ℕ, ◌+◌, ◌-◌, ◌*◌, ◌≤◌, ◌≡◌, refl, String, Bool, false, Option, none, some, List, [], ◌∷◌, arith,
  get, str_eq, eq_iff, if◌then◌else◌, Option-cases, inl, inr, Bool-cases, All, ap,
}
use huddle_cluster.RateLimiter.{
  TokenBucket, ClusterRateLimiter, refill, consume_bucket, fill, bucket_of, store, consume,
  is_rate_limited, reset, reset_found, bucket_for, bucket_found,
}
use huddle_cluster.RateLimiter.Bucket.{
  headroom, granted, headroom-later, refill-headroom, consume_bucket-headroom,
}
use huddle_cluster.RateLimiter.Nodes.{
  IsWithin, IsValid, bucket_of-IsWithin, IsValid-later, consume-IsValid, is_rate_limited-IsValid,
  reset-IsValid, bucket_for-IsValid, bucket_of-store,
}

pub data Call : Type 0 where
  consumes : String → ℕ → Call
  asks resets reads : String → Call

module _ (unit : ℕ) where
  unfoldable pub step : ℕ → Call → ClusterRateLimiter → ClusterRateLimiter
  step now (consumes k amount) l = (consume now k amount l).0
  step now (asks k) l = (is_rate_limited unit now k l).0
  step now (resets k) l = (reset now k l).0
  step now (reads k) l = (bucket_for unit now k l).0

  unfoldable pub run : List (ℕ × Call) → ClusterRateLimiter → ClusterRateLimiter
  run [] l = l
  run ((now, c) ∷ cs) l = run cs (step now c l)

  -- The amount that a call is granted for the node `key`.
  unfoldable pub taken : String → ℕ → Call → ClusterRateLimiter → ℕ
  taken key now (consumes k amount) l =
      if str_eq k key then granted amount (consume now k amount l).1 else 0
  taken key now _ l = 0

  unfoldable pub spent : String → List (ℕ × Call) → ClusterRateLimiter → ℕ
  spent key [] l = 0
  spent key ((now, c) ∷ cs) l = taken key now c l + spent key cs (step now c l)

  pub step-IsValid :
      (now : ℕ) (c : Call) (l : ClusterRateLimiter) → IsValid now l → IsValid now (step now c l)
  unfolding step
  step-IsValid now (consumes k amount) l v = consume-IsValid now k amount l v
  step-IsValid now (asks k) l v = is_rate_limited-IsValid unit now k l v
  step-IsValid now (resets k) l v = reset-IsValid now k l v
  step-IsValid now (reads k) l v = bucket_for-IsValid unit now k l v

-- The clock does not run backwards: the calls' times rise from `start` to `end`.
abbrev pub Rises : ℕ → List (ℕ × Call) → ℕ → Type 0
Rises start [] end = start ≤ end
Rises start ((now, c) ∷ cs) end = (start ≤ now) × Rises now cs end

abbrev pub is_reset_of : String → ℕ × Call → Bool
is_reset_of key (now, resets k) = str_eq k key
is_reset_of key (now, _) = false

-- In any history of calls at rising times, every bucket keeps the limiter's settings, holds at
-- most its capacity, and was last refilled no later than the present.
run-IsValid :
    (unit start : ℕ) (cs : List (ℕ × Call)) (end : ℕ) (l : ClusterRateLimiter)
    → Rises start cs end
    → IsValid start l
    → IsValid end (run unit cs l)
unfolding run
run-IsValid unit start [] end l h v = IsValid-later start end l h v
run-IsValid unit start ((now, c) ∷ cs) end l h v =
    run-IsValid unit now cs end _ h.1 (step-IsValid unit now c l (IsValid-later start now l h.0 v))

step_settings :
    (unit now : ℕ) (c : Call) (l : ClusterRateLimiter)
    → let l' = step unit now c l in (l'.capacity ≡ l.capacity) × (l'.refill_rate ≡ l.refill_rate)
unfolding step consume is_rate_limited reset bucket_for
step_settings unit now (consumes k amount) l = (refl, refl)
step_settings unit now (asks k) l = (refl, refl)
step_settings unit now (resets k) l = ground (arith, reset_found)
step_settings unit now (reads k) l = ground (arith, bucket_found)

mul_join : (x y z r : ℕ) → x + y ≤ z → x * r + y * r ≤ z * r
mul_join x y z r h = rw (← add-mul x y r) (mul-le-mul_right r h)

abbrev room : ℕ → String → ClusterRateLimiter → ℕ
room now key l = headroom now (bucket_of now key l)

room-later :
    (now later : ℕ) (key : String) (l : ClusterRateLimiter)
    → now ≤ later
    → IsValid now l
    → room later key l ≤ room now key l + (later - now) * l.refill_rate
unfolding bucket_of
room-later now later key l h v = elim (Option-cases (get key l.buckets)) [
  | inl e ↦ rw (e, bucket_of) (ground arith)
  | inr (b, e) ↦
      rw (e, bucket_of)
        (let w = bucket_of-IsWithin now key l v in
          let b' : IsWithin l.capacity l.refill_rate now b = rw (e, bucket_of) at w in
          rw (← b'.rated) (headroom-later now later b h))
]

room-store :
    (now : ℕ) (key k : String) (b : TokenBucket) (l : ClusterRateLimiter)
    → room now key (store k b l) ≡ (if str_eq k key then headroom now b else room now key l)
room-store now key k b l = elim (Bool-cases (str_eq k key)) [
  | inl e ↦ rw (bucket_of-store now key k b l, e)
  | inr e ↦ rw (bucket_of-store now key k b l, e)
]

-- What is stored under the node's own key must not raise its room.
room-store-le :
    (now : ℕ) (key k : String) (b : TokenBucket) (l : ClusterRateLimiter) (amount : ℕ)
    → amount + headroom now b ≤ room now k l
    → (if str_eq k key then amount else 0) + room now key (store k b l) ≤ room now key l
room-store-le now key k b l amount h = elim (Bool-cases (str_eq k key)) [
  | inl e ↦ rw (room-store now key k b l, e) (rw ((eq_iff k key).0 e) at h)
  | inr e ↦ rw (room-store now key k b l, e) (omega arith)
]

reset_found-room :
    (now : ℕ) (key k : String) (l : ClusterRateLimiter) (o : Option TokenBucket)
    → str_eq k key ≡ false
    → 0 + room now key (reset_found now k l o).0 ≤ room now key l
unfolding reset_found
reset_found-room now key k l none h = omega arith
reset_found-room now key k l (some b) h = rw (room-store now key k (fill now b) l, h) (omega arith)

bucket_found-room :
    (unit now : ℕ) (key k : String) (l : ClusterRateLimiter) (o : Option TokenBucket)
    → get k l.buckets ≡ o
    → 0 + room now key (bucket_found unit now k l o).0 ≤ room now key l
unfolding bucket_found bucket_of
bucket_found-room unit now key k l none e = omega arith
bucket_found-room unit now key k l (some b) e = omega (
  arith,
  room-store-le now key k (refill now b) l 0
      (rw (e, bucket_of) (omega (arith, refill-headroom now b))),
)

-- A call takes from the room of its node what it grants, and nothing else.
taken-room :
    (unit now : ℕ) (key : String) (c : Call) (l : ClusterRateLimiter)
    → is_reset_of key (now, c) ≡ false
    → taken unit key now c l + room now key (step unit now c l) ≤ room now key l
unfolding step taken consume is_rate_limited reset bucket_for
taken-room unit now key (consumes k amount) l h =
    room-store-le now key k _ l (granted amount (consume_bucket now amount (bucket_of now k l)).1)
      (omega (arith, (consume_bucket-headroom now amount (bucket_of now k l)).1))
taken-room unit now key (asks k) l h = omega (
  arith,
  room-store-le now key k (refill now (bucket_of now k l)) l 0
      (omega (arith, refill-headroom now (bucket_of now k l))),
)
taken-room unit now key (resets k) l h = reset_found-room now key k l (get k l.buckets) h
taken-room unit now key (reads k) l h = bucket_found-room unit now key k l (get k l.buckets) refl

Rises-le : (start : ℕ) (cs : List (ℕ × Call)) (end : ℕ) → Rises start cs end → start ≤ end
Rises-le start [] end h = h
Rises-le start ((now, c) ∷ cs) end h = omega (arith, Rises-le now cs end h.1)

room-le-capacity :
    (now : ℕ) (key : String) (l : ClusterRateLimiter) → IsValid now l → room now key l ≤ l.capacity
room-le-capacity now key l v = ground (arith, bucket_of-IsWithin now key l v)

spent-le-room :
    (unit : ℕ) (key : String) (start : ℕ) (cs : List (ℕ × Call)) (end : ℕ) (l : ClusterRateLimiter)
    → Rises start cs end
    → All (λ c. is_reset_of key c ≡ false) cs
    → IsValid start l
    → spent unit key cs l ≤ room start key l + (end - start) * l.refill_rate
unfolding spent
spent-le-room unit key start [] end l h n v = omega arith
spent-le-room unit key start ((now, c) ∷ cs) end l h n v =
    let w = IsValid-later start now l h.0 v in
    let same_rate : (end - now) * (step unit now c l).refill_rate ≡ (end - now) * l.refill_rate =
      ap (λ (r : ℕ). (end - now) * r) (step_settings unit now c l).1 in
    omega (
      arith,
      same_rate,
      spent-le-room unit key now cs end (step unit now c l) h.1 n.1 (step-IsValid unit now c l w),
      taken-room unit now key c l n.0,
      room-later start now key l h.0 v,
      mul_join (now - start) (end - now) (end - start) l.refill_rate
          (omega (arith, Rises-le now cs end h.1)),
    )

-- Between two times a node is granted at most one full bucket and what flows in at the refill
-- rate, whatever calls are made for it and for other nodes, unless its bucket is reset by hand.
pub spent-le :
    (unit : ℕ) (key : String) (start : ℕ) (cs : List (ℕ × Call)) (end : ℕ) (l : ClusterRateLimiter)
    → Rises start cs end
    → All (λ c. is_reset_of key c ≡ false) cs
    → IsValid start l
    → spent unit key cs l ≤ l.capacity + (end - start) * l.refill_rate
spent-le unit key start cs end l h n v =
    omega (arith, spent-le-room unit key start cs end l h n v, room-le-capacity start key l v)
