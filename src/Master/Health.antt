-- ===== src/Master/Health.antt =====
-- `_check_cluster_health` over time: the two callbacks are edge-triggered.
use huddle_cluster.Base.{
  ◌≡◌, refl, Bool, true, false, Option, none, some, List, [], ◌∷◌, ◌++◌, arith, Dict, length,
}
use huddle_cluster.Base.Floats.{Floats}
use huddle_cluster.Master.{
  NodeRecord, Settings, Callback, on_cluster_unhealthy, on_cluster_recovered,
}
use huddle_cluster.Master.Monitor.{alive_count, below_ratio, check_cluster_health, health_of}

-- The callbacks alternate, beginning with the one that the flag leaves open.
abbrev pub Alternates : Bool → List Callback → Type 0
Alternates flag [] = Unit
Alternates flag (on_cluster_unhealthy t a ∷ cs) = (flag ≡ false) × Alternates true cs
Alternates flag (on_cluster_recovered t a ∷ cs) = (flag ≡ true) × Alternates false cs
Alternates flag (_ ∷ cs) = ⊥

module _ (fl : Floats) {J : Type 0} where
  open fl use {Float}

  -- The flag after a check: the ratio test where there is a threshold and a node, else as before.
  abbrev verdict : Option Float → Dict (NodeRecord Float J) → Bool → Bool
  verdict none nodes flag = flag
  verdict (some threshold) [] flag = flag
  verdict (some threshold) (n ∷ ns) flag =
      below_ratio fl (alive_count fl (n ∷ ns)) (length (n ∷ ns)) threshold

  health_of-flag :
      (o : Option Float) (nodes : Dict (NodeRecord Float J)) (flag : Bool)
      → (health_of fl o nodes flag).0 ≡ verdict o nodes flag
  unfolding health_of
  health_of-flag none nodes flag = refl
  health_of-flag (some threshold) [] flag = refl
  health_of-flag (some threshold) (n ∷ ns) flag = ground arith

  -- The checks over the registries that the monitor meets one after the other.
  unfoldable pub run_checks :
      Settings Float → List (Dict (NodeRecord Float J)) → Bool → Bool × List Callback
  run_checks c [] flag = (flag, [])
  run_checks c (nodes ∷ rest) flag =
      let (flag', calls) = check_cluster_health fl c nodes flag in
      let (final, more) = run_checks c rest flag' in (final, calls ++ more)

  -- After a check with a threshold and at least one node, the flag says whether the share of alive
  -- nodes is below the threshold; without a threshold or without nodes it stays as it was.
  check_cluster_health-flag :
      (c : Settings Float) (nodes : Dict (NodeRecord Float J)) (flag : Bool)
      → (check_cluster_health fl c nodes flag).0 ≡ verdict c.unhealthy_alive_ratio nodes flag
  unfolding check_cluster_health
  check_cluster_health-flag c nodes flag = health_of-flag c.unhealthy_alive_ratio nodes flag

  health_of-Alternates :
      (o : Option Float) (nodes : Dict (NodeRecord Float J)) (flag : Bool) (rest : List Callback)
      → let r = health_of fl o nodes flag in Alternates r.0 rest → Alternates flag (r.1 ++ rest)
  unfolding health_of
  health_of-Alternates none nodes flag rest h = h
  health_of-Alternates (some threshold) nodes flag rest h = ground arith

  -- Over any sequence of checks the callbacks for an unhealthy and for a recovered cluster are
  -- made in turn, the first one being the one that the flag at the start allows.
  pub run_checks-Alternates :
      (c : Settings Float) (snapshots : List (Dict (NodeRecord Float J))) (flag : Bool)
      → Alternates flag (run_checks c snapshots flag).1
  unfolding run_checks check_cluster_health
  run_checks-Alternates c [] flag = tt
  run_checks-Alternates c (nodes ∷ rest) flag =
      health_of-Alternates c.unhealthy_alive_ratio nodes flag _ (run_checks-Alternates c rest _)
