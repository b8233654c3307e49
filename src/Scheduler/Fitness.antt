-- ===== src/Scheduler/Fitness.antt =====
-- Nodes as candidates, and `_node_fitness`.
use huddle_cluster.Base.{ℕ, String, Bool, true, false, if◌then◌else◌}
use huddle_cluster.Base.Floats.{Floats, py_max}
use huddle_cluster.Master.{Status, dead, leaving, quarantined}

-- The `requests_per_sec` that a node forwards, and what `float(...)` makes of it.
pub data Load (F : Type 0) : Type 0 where
  unknown malformed : Load F
  rps : F → Load F

-- The region is the text of the metadata, "" where there is none.
pub record Candidate (F : Type 0) : Type 0 where
  pub node_id : String
  pub status : Status
  pub last_seen_ago_sec : F
  pub death_count : ℕ
  pub heartbeat_count : ℕ
  pub load : Load F
  pub region : String

-- `round(x, 4)` and `0.5 ** x`.
pub record Maths (F : Type 0) : Type 0 where
  pub round4 : F → F
  pub half_power : F → F

module _ (fl : Floats) where
  open fl use {Float, lt, add, sub, mul, div, of_nat}

  abbrev tenth : Float
  tenth = div (of_nat 1) (of_nat 10)

  unfoldable pub load_factor : Load Float → Float
  load_factor unknown = of_nat 1
  load_factor malformed = of_nat 1
  load_factor (rps r) = py_max fl tenth (div (of_nat 1) (add (of_nat 1) (div r (of_nat 100))))

  unfoldable pub quarantine_factor : Status → Float
  quarantine_factor quarantined = div (of_nat 1) (of_nat 2)
  quarantine_factor _ = of_nat 1

  unfoldable pub warmup : ℕ → Float
  warmup beats = add (of_nat 1) (
      mul (py_max fl (of_nat 0) (sub (of_nat 1) (div (of_nat beats) (of_nat 50))))
        (div (of_nat 1) (of_nat 5)))

  abbrev is_ineligible : Status → Bool
  is_ineligible dead = true
  is_ineligible leaving = true
  is_ineligible _ = false

  unfoldable pub fitness : Maths Float → Candidate Float → Float
  unfolding load_factor quarantine_factor warmup
  fitness maths n =
      let freshness = py_max fl (of_nat 0) (sub (of_nat 1) (div n.last_seen_ago_sec (of_nat 60))) in
      let stability = py_max fl tenth (div (of_nat 1) (add (of_nat 1) (of_nat n.death_count))) in
      let factors =
        mul (mul (mul (mul freshness stability) (quarantine_factor n.status)) (load_factor n.load))
          (warmup n.heartbeat_count) in
      if is_ineligible n.status then sub (of_nat 0) (of_nat 1) else maths.round4 factors
