-- ===== src/Scheduler/Composed.antt =====
-- The scheduler over the circuit breaker, the rate limiter and the canary deployment themselves. The
-- calls of one pick see one time.
use huddle_cluster.Base.{
  inl, inr, ℕ, ◌≤◌, ◌≡◌, sym, refl, String, Bool, true, false, not, Option, some, List, [], ◌∷◌,
  arith, In, All, All-In, All-weaken, Dict, if◌then◌else◌, ltb, keep,
}
use huddle_cluster.Base.Floats.{Floats, Laws}
use huddle_cluster.Breaker.{BreakerState, is_open}
use huddle_cluster.RateLimiter.{ClusterRateLimiter, refill, bucket_of, consume, is_rate_limited}
use huddle_cluster.Canary.{Deployment, NodeView, pick_pool}
use huddle_cluster.Canary
use huddle_cluster.Canary.Pools.{pick_pool-IsWithin}
use huddle_cluster.Scheduler.Fitness.{Candidate, Maths}
use huddle_cluster.Scheduler.Asked.{Gates, GatesLaws, Others}
use huddle_cluster.Scheduler.{State, Settings, is_usable, unlimited, pick}
use huddle_cluster.Scheduler.Placement.{let_through, pick-IsLetThrough}

-- What the bucket of a node holds at a time.
abbrev pub level : ℕ → String → ClusterRateLimiter → ℕ
level now key l = (refill now (bucket_of now key l)).tokens

-- The nodes that are asked about, each with the limiter that its question finds.
abbrev pub questions :
    {F : Type 0}
    → (String → ClusterRateLimiter → ClusterRateLimiter)
    → (String → ClusterRateLimiter → ClusterRateLimiter × Bool)
    → ClusterRateLimiter
    → List (Candidate F)
    → List (Candidate F × ClusterRateLimiter)
questions meanwhile asks l [] = []
questions meanwhile asks l (n ∷ rest) =
    let found = meanwhile n.node_id l in
    (n, found) ∷ questions meanwhile asks (asks n.node_id found).0 rest

-- A token is in the bucket of the node when it is asked about.
abbrev pub HadToken :
    {F : Type 0} → ℕ → (String → ℕ) → List (Candidate F × ClusterRateLimiter) → Candidate F → Type 0
HadToken unit clock asked n =
    (l : ClusterRateLimiter) × In (n, l) asked × (unit ≤ level (clock n.node_id) n.node_id l)

-- The questions, each at its own time.
abbrev pub asks : ℕ → (String → ℕ) → String → ClusterRateLimiter → ClusterRateLimiter × Bool
asks unit clock id l = is_rate_limited unit (clock id) id l

answers :
    (unit now : ℕ) (key : String) (l : ClusterRateLimiter)
    → (is_rate_limited unit now key l).1 ≡ ltb (level now key l) unit
unfolding is_rate_limited
answers unit now key l = refl

module _ {F : Type 0} (unit : ℕ) (clock : String → ℕ)
    (meanwhile : String → ClusterRateLimiter → ClusterRateLimiter) where
  let_in_kept :
      (n : Candidate F) (found : ClusterRateLimiter) (others : List (Candidate F))
      (rest : List (Candidate F × ClusterRateLimiter)) (limited : Bool)
      → ltb (level (clock n.node_id) n.node_id found) unit ≡ limited
      → All (HadToken unit clock ((n, found) ∷ rest)) others
      → All (HadToken unit clock ((n, found) ∷ rest)) (if limited then others else n ∷ others)
  let_in_kept n found others rest true e h = h
  let_in_kept n found others rest false e h = ((found, inl refl, ground (arith, e)), h)

  let_in :
      (n : Candidate F) (found : ClusterRateLimiter) (others : List (Candidate F))
      (rest : List (Candidate F × ClusterRateLimiter)) (limited : Bool)
      → ltb (level (clock n.node_id) n.node_id found) unit ≡ limited
      → All (HadToken unit clock rest) others
      → All (HadToken unit clock ((n, found) ∷ rest)) (if limited then others else n ∷ others)
  let_in n found others rest limited e h = let_in_kept n found others rest limited e (
      All-weaken (HadToken unit clock rest) (HadToken unit clock ((n, found) ∷ rest)) others
        (λ m t. (t.0, inr t.1, t.2)) h)

  -- Whoever is let through had a token when it was asked about.
  unlimited-HadToken :
      (l : ClusterRateLimiter) (nodes : List (Candidate F))
      → All
          (HadToken unit clock (questions meanwhile (asks unit clock) l nodes))
          (unlimited meanwhile (asks unit clock) l nodes).1
  unfolding unlimited
  unlimited-HadToken l [] = tt
  unlimited-HadToken l (n ∷ rest) =
      let found : ClusterRateLimiter = meanwhile n.node_id l in
      let l' : ClusterRateLimiter = (asks unit clock n.node_id found).0 in
      let_in n found (unlimited meanwhile (asks unit clock) l' rest).1
        (questions meanwhile (asks unit clock) l' rest) (asks unit clock n.node_id found).1
        (sym (answers unit (clock n.node_id) n.node_id found)) (unlimited-HadToken l' rest)

-- A pick as other threads see it: the breaker's records and the time at which each node is asked
-- about, and the time of the placement.
module _ (fl : Floats) {J : Type 0} (view : Candidate fl.Float → NodeView J) (text : J → String)
    (states : String → Dict (BreakerState fl.Float)) (canary : Canary.Settings fl.Float)
    (draw : fl.Float) (deployment : Deployment fl.Float) (unit : ℕ) (clock : String → ℕ)
    (now : ℕ) where
  open fl use {Float}

  -- The three parts behind the scheduler's questions. That a token is refused is not looked at.
  abbrev pub cluster_gates : Gates Float ClusterRateLimiter
  cluster_gates = record {
    is_open = λ id. is_open fl id (states id);
    is_rate_limited = λ id l. is_rate_limited unit (clock id) id l;
    consume = λ id l. (consume now id unit l).0;
    pick_pool = λ nodes. pick_pool fl view text canary draw nodes deployment;
  }

  pub cluster_gates-GatesLaws : GatesLaws cluster_gates
  cluster_gates-GatesLaws = record {
    pick_pool-In = λ nodes. (pick_pool-IsWithin fl view text canary draw nodes deployment).0;
    pick_pool-length = λ nodes. (pick_pool-IsWithin fl view text canary draw nodes deployment).1;
  }

  -- The nodes that the breaker leaves to be asked about.
  abbrev pub unblocked : List (Candidate Float) → List (Candidate Float)
  unblocked nodes =
      keep (λ n. not (is_open fl n.node_id (states n.node_id)))
        (keep (λ n. is_usable n.status) nodes)

  module _ (laws : Laws fl) (maths : Maths Float) (c : Settings Float) (normal : String → String)
      (w : Others ClusterRateLimiter) where
    -- The scheduler places a workload only on a node of the list that is neither dead nor leaving,
    -- that the circuit breaker did not block when it was asked about the node, and whose bucket held
    -- a token when the limiter was asked about the node, whatever other threads do to the limiter
    -- before each of its calls and to the scheduler's state before its lock is taken.
    pub pick-IsAllowed :
        (time : Float) (key region : Option String) (nodes : List (Candidate Float))
        (s : State Float) (l : ClusterRateLimiter) (n : Candidate Float)
        → (pick fl maths c cluster_gates w normal time key region nodes s l).0 ≡ some n
        → In n nodes
          × (is_usable n.status ≡ true)
          × (is_open fl n.node_id (states n.node_id) ≡ false)
          × HadToken unit clock (questions w.asked (asks unit clock) l (unblocked nodes)) n
    pick-IsAllowed time key region nodes s l n h =
        let t =
          pick-IsLetThrough fl laws maths c cluster_gates cluster_gates-GatesLaws w normal time key
            region nodes s l n h in
        (
          t.0,
          t.1,
          t.2,
          All-In (HadToken unit clock (questions w.asked (asks unit clock) l (unblocked nodes))) n
              (let_through fl maths c cluster_gates cluster_gates-GatesLaws w normal nodes l)
              (unlimited-HadToken unit clock w.asked l (unblocked nodes)) t.3,
        )
