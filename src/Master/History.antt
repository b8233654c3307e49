-- ===== src/Master/History.antt =====
-- The node registry over whole histories of requests and monitor rounds.
use huddle_cluster.Base.{
  ◌≡◌, refl, sym, subst, String, Bool, true, false, Option, List, [], ◌∷◌, Dict, get, pop,
  pop-assign, Every, Every-pop, if◌then◌else◌, is_some, Option-cases, inl, inr,
}
use huddle_cluster.Base.Floats.{Floats}
use huddle_cluster.Master.{
  NodeRecord, Settings, JoinData, Callback, Reply, leave_ok, refused, unknown_node, on_leave,
  handle_heartbeat, handle_leave, leave_found, begin_leave,
}
use huddle_cluster.Master.Join.{handle_join, validate}
use huddle_cluster.Master.Monitor.{sweep, check_heartbeats}
use huddle_cluster.Master.Registry.{
  IsSound, heartbeat-IsSound, join-IsSound, sweep-IsSound, pop_all-IsSound,
}

pub data Call (F J : Type 0) : Type 0 where
  joins : F → JoinData J → Option String → Call F J
  beats : F → String → Option (Dict J) → Call F J
  leaves : String → Call F J
  monitors : F → Call F J

module _ (fl : Floats) {J : Type 0} where
  open fl use {Float}

  -- `_handle_leave` as a whole: a known node is dropped and reported, for an unknown one nothing
  -- changes.
  handle_leave_lem :
      (key : String) (nodes : Dict (NodeRecord Float J))
      → handle_leave fl key nodes ≡ (
          if is_some (get key nodes)
          then (pop key nodes, leave_ok key, on_leave key ∷ [])
          else (nodes, refused (unknown_node key), []))
  unfolding handle_leave
  handle_leave_lem key nodes = elim (Option-cases (get key nodes)) [
    | inl e ↦ rw (e, handle_leave, begin_leave, leave_found)
    | inr (n, e) ↦ rw (e, handle_leave, begin_leave, leave_found) (rw pop-assign refl)
  ]

  unfoldable pub step :
      (String → String)
      → Settings Float
      → Call Float J
      → Dict (NodeRecord Float J)
      → Dict (NodeRecord Float J)
  step strip c (joins now d cn) nodes = (handle_join fl strip c now d cn nodes).0
  step strip c (beats now key metrics) nodes = (handle_heartbeat fl c now key metrics nodes).0
  step strip c (leaves key) nodes = (handle_leave fl key nodes).0
  step strip c (monitors now) nodes = (check_heartbeats fl c now nodes).0

  unfoldable pub run :
      (String → String)
      → Settings Float
      → List (Call Float J)
      → Dict (NodeRecord Float J)
      → Dict (NodeRecord Float J)
  run strip c [] nodes = nodes
  run strip c (k ∷ ks) nodes = run strip c ks (step strip c k nodes)

  leave-IsSound :
      (c : Settings Float) (key : String) (nodes : Dict (NodeRecord Float J))
      → Every (IsSound c) nodes
      → Every (IsSound c) (handle_leave fl key nodes).0
  leave-IsSound c key nodes all =
      subst (λ (r : Dict (NodeRecord Float J) × Reply Float × List Callback). Every (IsSound c) r.0)
        (sym (handle_leave_lem key nodes)) (left (is_some (get key nodes)))
    where
      left :
          (b : Bool)
          → Every
              (IsSound c)
              (if◌then◌else◌ {A = Dict (NodeRecord Float J) × Reply Float × List Callback} b
                (pop key nodes, leave_ok key, on_leave key ∷ [])
                (nodes, refused (unknown_node key), [])).0
      left true = Every-pop (IsSound c) key nodes all
      left false = all

  step-IsSound :
      (strip : String → String) (c : Settings Float) (k : Call Float J)
      (nodes : Dict (NodeRecord Float J))
      → Every (IsSound c) nodes
      → Every (IsSound c) (step strip c k nodes)
  unfolding step handle_join handle_heartbeat check_heartbeats
  step-IsSound strip c (joins now d cn) nodes all =
      join-IsSound fl c now d.metadata cn nodes (validate strip d) all
  step-IsSound strip c (beats now key metrics) nodes all =
      heartbeat-IsSound fl c now key metrics nodes (get key nodes) refl all
  step-IsSound strip c (leaves key) nodes all = leave-IsSound c key nodes all
  step-IsSound strip c (monitors now) nodes all =
      pop_all-IsSound fl c (sweep fl c now nodes).2 _ (sweep-IsSound fl c now nodes all)

  run_from-IsSound :
      (strip : String → String) (c : Settings Float) (ks : List (Call Float J))
      (nodes : Dict (NodeRecord Float J))
      → Every (IsSound c) nodes
      → Every (IsSound c) (run strip c ks nodes)
  unfolding run
  run_from-IsSound strip c [] nodes all = all
  run_from-IsSound strip c (k ∷ ks) nodes all =
      run_from-IsSound strip c ks _ (step-IsSound strip c k nodes all)

  -- After any history of joins, heartbeats, leaves and monitor rounds from an empty registry,
  -- every record is sound: filed under its own id, with no more recent deaths than deaths, dead
  -- only after a death, quarantined only during its probation, and never left behind as leaving.
  pub run-IsSound :
      (strip : String → String) (c : Settings Float) (ks : List (Call Float J))
      → Every (IsSound c) (run strip c ks [])
  run-IsSound strip c ks = run_from-IsSound strip c ks [] tt
