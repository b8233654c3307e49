-- ===== src/Breaker/Diagram.antt =====
-- The phase of a breaker after its node is evaluated, and the edges that it can take.
use huddle_cluster.Base.{◌≡◌, arith, ◌⊎◌, not, ◌&&◌, ◌||◌}
use huddle_cluster.Base.Floats.{Floats, Laws}
use huddle_cluster.Breaker.{
  Phase, closed, opened, half_open, BreakerState, Config, Metric, missing, malformed, rate,
  is_blocking, evaluate_node,
}

infix 40 ◌⟶◌
pub data ◌⟶◌ : Phase → Phase → Type 0 where
  trip : closed ⟶ opened
  elapse : opened ⟶ half_open
  recover : opened ⟶ closed
  readmit : half_open ⟶ closed

ruleset edges = (trip, elapse, recover, readmit)

module _ (fl : Floats) (laws : Laws fl) where
  open fl use {Float, lt, le}

  -- Every evaluation of a node keeps its phase or takes one edge of the diagram; in particular
  -- a half-open breaker never becomes open again.
  evaluate_node-edge :
      (c : Config Float) (now : Float) (m : Metric Float) (s : BreakerState Float)
      → let p = (evaluate_node fl c now m s).0.state in (p ≡ s.state) ⊎ (s.state ⟶ p)
  unfolding evaluate_node
  evaluate_node-edge c now missing s = grind (arith, edges)
  evaluate_node-edge c now malformed s = grind (arith, edges)
  evaluate_node-edge c now (rate er) s = grind (arith, edges, laws.lt→not_le c.trip_threshold er)

  -- A rate at or below the threshold closes the breaker at once, from every phase; a rate above
  -- it leaves it blocking; without a usable rate, or with one that is neither (NaN), the breaker
  -- blocks exactly if it did before.
  pub evaluate_node-is_blocking :
      (c : Config Float) (now : Float) (m : Metric Float) (s : BreakerState Float)
      → is_blocking (evaluate_node fl c now m s).0.state ≡ elim m [
        | missing ↦ is_blocking s.state
        | malformed ↦ is_blocking s.state
        | rate er ↦ lt c.trip_threshold er || (not (le er c.trip_threshold) && is_blocking s.state)
      ]
  unfolding evaluate_node
  evaluate_node-is_blocking c now missing s = ground arith
  evaluate_node-is_blocking c now malformed s = ground arith
  evaluate_node-is_blocking c now (rate er) s = ground (arith, laws.lt→not_le c.trip_threshold er)
