-- ===== src/Master/Registry.antt =====
-- The invariant of the node registry, kept by joins, heartbeats, leaves and the monitor.
use huddle_cluster.Base.{
  ℕ, ◌≤◌, ◌<◌, ◌≡◌, refl, String, Option, none, some, List, [], ◌∷◌, ◌++◌, arith, ◌≢◌, ◌⊎◌, Dict,
  get, assign, Every, Every-assign, Every-pop, Every-get, eq_iff, length, length-keep-le,
  length-append,
}
use huddle_cluster.Base.Floats.{Floats}
use huddle_cluster.Master.{
  NodeRecord, Settings, Status, alive, dead, quarantined, leaving, recent, revive, prove_stable,
  beat, beat_by, rejoin_by, heartbeat_found, rejoin, new_record,
}
use huddle_cluster.Master.Join.{join_checked, join_entry, Checked, invalid, valid}
use huddle_cluster.Master.Monitor.{
  Verdict, keeps, dies, goes, judge, record_death, apply, sweep, pop_all,
}

-- A record is filed under its own id; the deaths inside the flap window are among those counted; a
-- dead node has died; a quarantined node has begun its probation and not finished it; and no
-- record is left in the state of leaving.
pub record IsSound {F J : Type 0} (c : Settings F) (key : String) (n : NodeRecord F J)
    : Type 0 where
  pub named : n.node_id ≡ key
  pub counted : length n.recent_deaths ≤ n.death_count
  pub died : n.status ≡ dead → 0 < n.death_count
  pub begun : n.status ≡ quarantined → 1 ≤ n.consecutive_alive_heartbeats
  pub unfinished :
      n.status ≡ quarantined
      → (n.consecutive_alive_heartbeats ≤ 1)
        ⊎ (n.consecutive_alive_heartbeats < c.quarantine_recovery)
  pub settled : n.status ≢ leaving

module _ (fl : Floats) (c : Settings fl.Float) where
  open fl use {Float, le, sub}

  length-recent-le :
      (now : Float) (deaths : List Float) → length (recent fl c now deaths) ≤ length deaths
  length-recent-le now deaths = length-keep-le (λ t. le (sub now c.flap_window) t) deaths

module _ (fl : Floats) {J : Type 0} (c : Settings fl.Float) where
  open fl use {Float}

  revive-IsSound :
      (now : Float) (key : String) (n : NodeRecord Float J)
      → n.node_id ≡ key
      → length n.recent_deaths ≤ n.death_count
      → IsSound c key (revive fl c now n).0
  unfolding revive
  revive-IsSound now key n e h = ground (arith, length-recent-le fl c now n.recent_deaths)

  prove_stable-IsSound :
      (key : String) (n : NodeRecord Float J)
      → IsSound c key n
      → IsSound c key (prove_stable fl c n)
  unfolding prove_stable
  prove_stable-IsSound key n h = ground arith

  beat_by-IsSound :
      (st : Status) (now : Float) (key : String) (n : NodeRecord Float J)
      → IsSound c key n
      → IsSound c key (beat_by fl st c now n).0
  beat_by-IsSound dead now key n h = revive-IsSound now key n h.named h.counted
  beat_by-IsSound quarantined now key n h = prove_stable-IsSound key n h
  beat_by-IsSound alive now key n h = h
  beat_by-IsSound leaving now key n h = h

  pub beat-IsSound :
      (now : Float) (metrics : Option (Dict J)) (key : String) (n : NodeRecord Float J)
      → IsSound c key n
      → IsSound c key (beat fl c now metrics n).0
  unfolding beat
  beat-IsSound now metrics key n h = beat_by-IsSound n.status now key _ (ground arith)

  rejoin_by-IsSound :
      (st : Status) (now : Float) (key : String) (n : NodeRecord Float J)
      → IsSound c key n
      → IsSound c key (rejoin_by fl st c now n).0
  rejoin_by-IsSound dead now key n h = revive-IsSound now key n h.named h.counted
  rejoin_by-IsSound leaving now key n h = ground arith
  rejoin_by-IsSound alive now key n h = h
  rejoin_by-IsSound quarantined now key n h = h

  pub rejoin-IsSound :
      (now : Float) (address : String) (port : ℕ) (metadata : Option (Dict J)) (cn : Option String)
      (key : String) (n : NodeRecord Float J)
      → IsSound c key n
      → IsSound c key (rejoin fl c now address port metadata cn n).0
  unfolding rejoin
  rejoin-IsSound now address port metadata cn key n h =
      rejoin_by-IsSound n.status now key _ (ground arith)

  new_record-IsSound :
      (now : Float) (key address : String) (port : ℕ) (metadata : Option (Dict J))
      (cn : Option String)
      → IsSound c key (new_record fl now key address port metadata cn)
  unfolding new_record
  new_record-IsSound now key address port metadata cn = ground arith

  record_death-IsSound :
      (now : Float) (key : String) (n : NodeRecord Float J)
      → IsSound c key n
      → IsSound c key (record_death fl c now n)
  unfolding record_death
  record_death-IsSound now key n h = ground (
    arith,
    length-recent-le fl c now (n.recent_deaths ++ now ∷ []),
    length-append n.recent_deaths (now ∷ []),
  )

  assign-IsSound :
      (key : String) (n : NodeRecord Float J) (nodes : Dict (NodeRecord Float J))
      → IsSound c key n
      → Every (IsSound c) nodes
      → Every (IsSound c) (assign key n nodes)
  assign-IsSound key n nodes h all =
      Every-assign (IsSound c) key n nodes (λ j e. rw ((eq_iff j key).0 e) h) all

  pub heartbeat-IsSound :
      (now : Float) (key : String) (metrics : Option (Dict J)) (nodes : Dict (NodeRecord Float J))
      (o : Option (NodeRecord Float J))
      → get key nodes ≡ o
      → Every (IsSound c) nodes
      → Every (IsSound c) (heartbeat_found fl c now key metrics nodes o).0
  unfolding heartbeat_found
  heartbeat-IsSound now key metrics nodes none e all = all
  heartbeat-IsSound now key metrics nodes (some n) e all =
      assign-IsSound key _ nodes
        (beat-IsSound now metrics key n (Every-get (IsSound c) key n nodes all e)) all

  pub join-IsSound :
      (now : Float) (metadata : Option (Dict J)) (cn : Option String)
      (nodes : Dict (NodeRecord Float J)) (v : Checked)
      → Every (IsSound c) nodes
      → Every (IsSound c) (join_checked fl c now metadata cn nodes v).0
  unfolding join_checked
  join-IsSound now metadata cn nodes (invalid e) all = all
  join-IsSound now metadata cn nodes (valid key address port) all = entry (get key nodes) refl
    where
      entry :
          (o : Option (NodeRecord Float J))
          → get key nodes ≡ o
          → Every (IsSound c) (join_entry fl c now key address port metadata cn nodes o).0
      entry none e =
          assign-IsSound key _ nodes (new_record-IsSound now key address port metadata cn) all
      entry (some n) e =
          assign-IsSound key _ nodes
            (rejoin-IsSound now address port metadata cn key n
              (Every-get (IsSound c) key n nodes all e))
            all

  pub sweep-IsSound :
      (now : Float) (nodes : Dict (NodeRecord Float J))
      → Every (IsSound c) nodes
      → Every (IsSound c) (sweep fl c now nodes).0
  unfolding sweep
  sweep-IsSound now [] all = tt
  sweep-IsSound now ((k, n) ∷ m) all = (judged (judge fl c now n), sweep-IsSound now m all.1)
    where
      judged : (v : Verdict) → IsSound c k (apply fl v c now n)
      judged keeps = all.0
      judged dies = record_death-IsSound now k n all.0
      judged goes = all.0

  pub pop_all-IsSound :
      (ks : List String) (nodes : Dict (NodeRecord Float J))
      → Every (IsSound c) nodes
      → Every (IsSound c) (pop_all fl ks nodes)
  unfolding pop_all
  pop_all-IsSound [] nodes all = all
  pop_all-IsSound (k ∷ ks) nodes all = pop_all-IsSound ks _ (Every-pop (IsSound c) k nodes all)
