-- ===== src/Breaker.antt =====
-- The cluster circuit breaker: huddle_cluster_pkg/cluster_circuit_breaker.py.
-- The state of the class is the dict `_states`; a call returns the new dict, its result and the
-- callbacks that it makes (`on_trip`, `on_reset`; what they raise is swallowed by the code).
pub mod Invariant
pub mod Diagram
pub mod History
mod Tests
use huddle_cluster.Base.{
  ℕ, ◌+◌, String, Bool, true, false, not, ◌&&◌, Option, none, some, List, [], ◌∷◌, ◌++◌, Dict, get,
  assign, if◌then◌else◌,
}
use huddle_cluster.Base.Floats.{Floats}

-- `opened` is the source's OPEN.
pub data Phase : Type 0 where
  closed opened half_open : Phase

pub record BreakerState (F : Type 0) : Type 0 where
  pub node_id : String
  pub state : Phase
  pub tripped_at : Option F
  pub last_error_rate : F
  pub trip_count : ℕ

pub record Config (F : Type 0) : Type 0 where
  pub trip_threshold : F
  pub reset_timeout_sec : F

-- What `metrics.get("error_rate")` and `float(...)` give for a node.
pub data Metric (F : Type 0) : Type 0 where
  missing malformed : Metric F
  rate : F → Metric F

pub record Report (F : Type 0) : Type 0 where
  pub node_id : String
  pub error_rate : Metric F

pub data Callback (F : Type 0) : Type 0 where
  on_trip : String → F → Callback F
  on_reset : String → Callback F

abbrev pub is_closed : Phase → Bool
is_closed closed = true
is_closed _ = false

abbrev pub is_opened : Phase → Bool
is_opened opened = true
is_opened _ = false

-- `state in (OPEN, HALF_OPEN)`
abbrev pub is_blocking : Phase → Bool
is_blocking closed = false
is_blocking _ = true

module _ (fl : Floats) where
  open fl use {Float, lt, le, sub, of_nat}

  -- The check of `__init__`: `none` is the ValueError.
  unfoldable pub configure : Float → Float → Option (Config Float)
  configure trip_threshold reset_timeout_sec =
      if lt (of_nat 0) trip_threshold && le trip_threshold (of_nat 1)
      then some (record { trip_threshold = trip_threshold; reset_timeout_sec = reset_timeout_sec })
      else none

  unfoldable pub fresh : String → BreakerState Float
  fresh node_id = record {
    node_id = node_id;
    state = closed;
    tripped_at = none;
    last_error_rate = of_nat 0;
    trip_count = 0;
  }

  -- The timeout transition: `now - tripped_at >= reset_timeout_sec`.
  timed_out : Config Float → Float → Option Float → Bool
  timed_out c now none = false
  timed_out c now (some t) = le c.reset_timeout_sec (sub now t)

  unfoldable pub expire : Config Float → Float → BreakerState Float → BreakerState Float
  unfolding timed_out
  expire c now s =
      if is_opened s.state && timed_out c now s.tripped_at
      then record s { state = half_open }
      else s

  -- The part of the loop body behind `float(error_rate)`.
  unfoldable pub apply_rate :
      Config Float → Float → Float → BreakerState Float → BreakerState Float × List (Callback Float)
  apply_rate c now er s0 =
      let s = record s0 { last_error_rate = er } in
      if lt c.trip_threshold er && is_closed s.state
      then (
        record s { state = opened; tripped_at = some now; trip_count = s.trip_count + 1 },
        on_trip s.node_id er ∷ [],
      )
      else if le er c.trip_threshold && is_blocking s.state
      then (record s { state = closed; tripped_at = none }, on_reset s.node_id ∷ [])
      else (s, [])

  -- The body of the `for` loop of `_evaluate`, for one node.
  unfoldable pub evaluate_node :
      Config Float
      → Float
      → Metric Float
      → BreakerState Float
      → BreakerState Float × List (Callback Float)
  unfolding expire apply_rate
  evaluate_node c now missing s = (expire c now s, [])
  evaluate_node c now malformed s = (expire c now s, [])
  evaluate_node c now (rate er) s = apply_rate c now er (expire c now s)

  abbrev pub setdefault : String → Dict (BreakerState Float) → BreakerState Float
  setdefault node_id states = elim (get node_id states) [ none ↦ fresh node_id | some s ↦ s ]

  -- `_evaluate` with the nodes that the master reports.
  unfoldable pub evaluate :
      Config Float
      → Float
      → List (Report Float)
      → Dict (BreakerState Float)
      → Dict (BreakerState Float) × List (Callback Float)
  evaluate c now [] states = (states, [])
  evaluate c now (r ∷ rs) states =
      let (s, calls) = evaluate_node c now r.error_rate (setdefault r.node_id states) in
      let (states', more) = evaluate c now rs (assign r.node_id s states) in
      (states', calls ++ more)

  -- `is_open`: True for half-open too.
  unfoldable pub is_open : String → Dict (BreakerState Float) → Bool
  is_open node_id states = elim (get node_id states) [ none ↦ false | some s ↦ is_blocking s.state ]

  unfoldable pub is_tripped : String → Dict (BreakerState Float) → Bool
  is_tripped node_id states = elim (get node_id states) [
    | none ↦ false
    | some s ↦ is_opened s.state
  ]

  -- `reset` after its lookup: the new dict, the result and the callback.
  unfoldable pub reset_entry :
      String
      → Dict (BreakerState Float)
      → Option (BreakerState Float)
      → Dict (BreakerState Float) × Bool × List (Callback Float)
  reset_entry node_id states none = (states, false, [])
  reset_entry node_id states (some s) = if is_closed s.state then (states, true, []) else (
    assign node_id (record s { state = closed; tripped_at = none }) states,
    true,
    on_reset node_id ∷ [],
  )

  unfoldable pub reset :
      String → Dict (BreakerState Float) → Dict (BreakerState Float) × Bool × List (Callback Float)
  unfolding reset_entry
  reset node_id states = reset_entry node_id states (get node_id states)
