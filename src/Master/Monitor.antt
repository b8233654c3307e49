-- ===== src/Master/Monitor.antt =====
-- The monitor thread of `MasterNode`: `_check_heartbeats`, `_record_death` and
-- `_check_cluster_health`.
use huddle_cluster.Base.{
  ℕ, ◌+◌, String, Bool, true, false, not, ◌&&◌, ◌||◌, Option, none, some, List, [], ◌∷◌, ◌++◌, Dict,
  pop, if◌then◌else◌, length, ◌==◌, map,
}
use huddle_cluster.Base.Floats.{Floats}
use huddle_cluster.Master.{
  NodeRecord, Settings, dead, Callback, on_dead, on_purged, on_cluster_unhealthy,
  on_cluster_recovered, is_alive, is_dead, is_quarantined, recent,
}

-- What the pass decides for a node.
pub data Verdict : Type 0 where
  keeps dies goes : Verdict

module _ (fl : Floats) where
  open fl use {Float, lt, sub, div, of_nat}

  abbrev pub older : Float → Option Float → Float → Bool
  older now none last = false
  older now (some limit) last = lt limit (sub now last)

  abbrev pub below_ratio : ℕ → ℕ → Float → Bool
  below_ratio alive total threshold = lt (div (of_nat alive) (of_nat total)) threshold

module _ (fl : Floats) {J : Type 0} where
  open fl use {Float, lt, sub}

  -- The tests of the loop, in the source's order.
  unfoldable pub judge : Settings Float → Float → NodeRecord Float J → Verdict
  judge c now n =
      let timed_out = lt c.timeout (sub now n.last_heartbeat) in
      if (is_alive n.status || is_quarantined n.status) && timed_out
      then dies
      else if is_dead n.status && older fl now c.purge_after n.last_heartbeat
      then goes
      else keeps

  -- `node.status = "dead"` and `_record_death`.
  unfoldable pub record_death : Settings Float → Float → NodeRecord Float J → NodeRecord Float J
  record_death c now n = record n {
    status = dead;
    death_count = n.death_count + 1;
    recent_deaths = recent fl c now (n.recent_deaths ++ now ∷ []);
    consecutive_alive_heartbeats = 0;
  }

  abbrev pub apply : Verdict → Settings Float → Float → NodeRecord Float J → NodeRecord Float J
  apply dies c now n = record_death c now n
  apply _ c now n = n

  -- The loop: the records in place, the newly dead and the purged.
  unfoldable pub sweep :
      Settings Float
      → Float
      → Dict (NodeRecord Float J)
      → Dict (NodeRecord Float J) × List String × List String
  sweep c now [] = ([], [], [])
  sweep c now ((k, n) ∷ m) =
      let (m', newly_dead, purged) = sweep c now m in
      let v = judge c now n in
      (
        (k, apply v c now n) ∷ m',
        elim v [ dies ↦ n.node_id ∷ newly_dead | _ ↦ newly_dead ],
        elim v [ goes ↦ n.node_id ∷ purged | _ ↦ purged ],
      )

  unfoldable pub pop_all : List String → Dict (NodeRecord Float J) → Dict (NodeRecord Float J)
  pop_all [] nodes = nodes
  pop_all (k ∷ ks) nodes = pop_all ks (pop k nodes)

  unfoldable pub check_heartbeats :
      Settings Float → Float → Dict (NodeRecord Float J) → Dict (NodeRecord Float J) × List Callback
  check_heartbeats c now nodes =
      let (nodes', newly_dead, purged) = sweep c now nodes in
      (pop_all purged nodes', map on_dead newly_dead ++ map on_purged purged)

  -- `sum(1 for n in self._nodes.values() if n.status == "alive")`
  abbrev pub alive_count : Dict (NodeRecord Float J) → ℕ
  alive_count [] = 0
  alive_count ((k, n) ∷ m) = if is_alive n.status then alive_count m + 1 else alive_count m

  -- `_check_cluster_health` over the flag `_cluster_unhealthy`.
  unfoldable pub health_of : Option Float → Dict (NodeRecord Float J) → Bool → Bool × List Callback
  health_of none nodes flag = (flag, [])
  health_of (some threshold) nodes flag =
      let total = length nodes in
      let alive = alive_count nodes in
      let is_unhealthy = below_ratio fl alive total threshold in
      if total == 0
      then (flag, [])
      else if is_unhealthy && not flag
      then (true, on_cluster_unhealthy total alive ∷ [])
      else if not is_unhealthy && flag
      then (false, on_cluster_recovered total alive ∷ [])
      else (flag, [])

  unfoldable pub check_cluster_health :
      Settings Float → Dict (NodeRecord Float J) → Bool → Bool × List Callback
  unfolding health_of
  check_cluster_health c nodes flag = health_of c.unhealthy_alive_ratio nodes flag
