-- ===== src/Scheduler/Asked.antt =====
-- What the scheduler asks of the circuit breaker, the rate limiter and the canary deployment, over
-- the limiter's state `L`. A part that is not configured lets every node through.
use huddle_cluster.Base.{◌<◌, String, Bool, List, In, All, length}
use huddle_cluster.Scheduler.Fitness.{Candidate}

pub record Gates (F L : Type 0) : Type 0 where
  pub is_open : String → Bool
  pub is_rate_limited : String → L → L × Bool
  pub consume : String → L → L
  pub pick_pool : List (Candidate F) → List (Candidate F)

-- A pool is made of the nodes that are offered.
pub record GatesLaws {F L : Type 0} (g : Gates F L) : Type 0 where
  pub pick_pool-In : (nodes : List (Candidate F)) → All (λ n. In n nodes) (g.pick_pool nodes)
  pub pick_pool-length :
      (nodes : List (Candidate F)) → 0 < length nodes → 0 < length (g.pick_pool nodes)

-- What other threads do to the limiter while a pick is on its way: before each question, and between
-- the last question and the placement.
pub record Others (L : Type 0) : Type 0 where
  pub asked : String → L → L
  pub placed : L → L
