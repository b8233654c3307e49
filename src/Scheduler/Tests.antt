-- ===== src/Scheduler/Tests.antt =====
-- Two nodes behind a breaker that blocks one of them.
use huddle_cluster.Base.{
  ℕ, ◌≡◌, refl, String, true, false, Option, none, some, List, [], ◌∷◌, In, get,
}
use huddle_cluster.Base.Floats.{whole, whole-Laws}
use huddle_cluster.Breaker.{BreakerState, opened, is_open}
use huddle_cluster.RateLimiter.{ClusterRateLimiter, refill, bucket_of, is_rate_limited, consume}
use huddle_cluster.Canary
use huddle_cluster.Canary.{Deployment, NodeView, idle, pick_pool}
use huddle_cluster.Master.{alive}
use huddle_cluster.Scheduler.Fitness.{Candidate, Maths, unknown, fitness}
use huddle_cluster.Scheduler.{
  State, Settings, is_usable, select, candidates, pick, pick_locked, wanted, place,
}
use huddle_cluster.Scheduler.Asked.{Gates, Others}
use huddle_cluster.Scheduler.Placement.{IsChosen, select-IsChosen}
use huddle_cluster.Scheduler.Composed.{
  cluster_gates, asks, unblocked, HadToken, questions, pick-IsAllowed,
}

abbrev node : String → ℕ → Candidate ℕ
node id deaths = record {
  node_id = id;
  status = alive;
  last_seen_ago_sec = 0;
  death_count = deaths;
  heartbeat_count = 0;
  load = unknown;
  region = "eu";
}

abbrev nodes : List (Candidate ℕ)
nodes = node "a" 0 ∷ node "b" 0 ∷ []

abbrev view : Candidate ℕ → NodeView String
view n = record { node_id = n.node_id; metadata = [] }

abbrev same_text : String → String
same_text t = t

abbrev maths : Maths ℕ
maths = record { round4 = λ x. x; half_power = λ x. 1 }

abbrev settings : Settings ℕ
settings = record { cooldown = 10; prefer_alive = true }

abbrev idle_state : State ℕ
idle_state = record {
  heat = [];
  affinity_map = ("user", "b") ∷ [];
  workload_count = [];
  reports = [];
}

abbrev blocked : List (String × BreakerState ℕ)
blocked =
    (
      "a",
      record {
        node_id = "a";
        state = opened;
        tripped_at = some 1;
        last_error_rate = 80;
        trip_count = 1;
      },
    )
    ∷ []

abbrev canary : Canary.Settings ℕ
canary = record { canary_tag = "canary"; first_step = 5; later_steps = [] }

abbrev no_rollout : Deployment ℕ
no_rollout = record { phase = idle; weight = 0; step_idx = 0; history = []; canary_ids = [] }

abbrev limiter : ClusterRateLimiter
limiter = record { capacity = 10; refill_rate = 1; buckets = [] }

select_first : select whole maths settings 5 idle_state nodes ≡ some (node "a" 0)
unfolding select fitness get
select_first = refl

select-IsChosen_example :
    IsChosen whole whole-Laws maths settings 5 idle_state nodes (node "a" 0) true
unfolding select fitness get
select-IsChosen_example =
    select-IsChosen whole whole-Laws maths settings 5 idle_state nodes (node "a" 0) refl

abbrev gates : Gates ℕ ClusterRateLimiter
gates = cluster_gates whole view same_text (λ id. blocked) canary 0 no_rollout 2 (λ id. 5) 6

-- Another pick takes a token of b before the placement.
abbrev others : Others ClusterRateLimiter
others = record { asked = λ id l. l; placed = λ l. (consume 5 "b" 2 l).0 }

-- What a pick gives for the key of a session.
abbrev picked : Option String → Option (Candidate ℕ) × State ℕ × ClusterRateLimiter
picked key = pick whole maths settings gates others same_text 5 key none nodes idle_state limiter

abbrev pool : List (Candidate ℕ)
pool = (candidates whole maths settings gates others same_text none nodes limiter).1

picks_b : (picked none).0 ≡ some (node "b" 0)
unfolding pick pick_locked candidates select fitness is_open pick_pool is_rate_limited refill
    bucket_of get wanted place
picks_b = refl

pick-IsAllowed_example :
    In (node "b" 0) nodes
    × (is_usable alive ≡ true)
    × (is_open whole "b" blocked ≡ false)
    × HadToken 2
        (λ id. 5)
        (questions
          (λ id l. l)
          (asks 2 (λ id. 5))
          limiter
          (unblocked whole view same_text (λ id. blocked) canary 0 no_rollout 2 (λ id. 5) 6 nodes))
        (node "b" 0)
pick-IsAllowed_example =
    pick-IsAllowed whole view same_text (λ id. blocked) canary 0 no_rollout 2 (λ id. 5) 6 whole-Laws
      maths settings same_text others 5 none none nodes idle_state limiter (node "b" 0) picks_b
