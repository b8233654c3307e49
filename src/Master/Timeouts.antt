-- ===== src/Master/Timeouts.antt =====
-- What a pass of `_check_heartbeats` does to each node, and what it reports.
use huddle_cluster.Base.{
  ◌≡◌, ◌∙◌, refl, ◌+◌, String, Bool, true, false, Option, none, some, List, [], ◌∷◌, ◌++◌, arith,
  map, Dict, get, pop, get-pop, get_of_not_has_key, Every, Unique, str_eq, eq_iff, if◌then◌else◌,
}
use huddle_cluster.Base.Floats.{Floats}
use huddle_cluster.Master.{
  Status, alive, dead, leaving, quarantined, NodeRecord, Settings, Callback, on_dead, on_purged,
  recent,
}
use huddle_cluster.Master.Monitor.{
  Verdict, keeps, dies, goes, judge, record_death, apply, sweep, pop_all, check_heartbeats,
}
use huddle_cluster.Master.Registry.{IsSound}

abbrev pub contains : String → List String → Bool
contains key [] = false
contains key (k ∷ ks) = if str_eq k key then true else contains key ks

-- The verdict on a looked-up node: is it the given one?
abbrev pub is_dies : Verdict → Bool
is_dies dies = true
is_dies _ = false

abbrev pub is_goes : Verdict → Bool
is_goes goes = true
is_goes _ = false

abbrev pub reports_dead : String → List Callback → Bool
reports_dead key [] = false
reports_dead key (on_dead k ∷ cs) = if str_eq k key then true else reports_dead key cs
reports_dead key (_ ∷ cs) = reports_dead key cs

abbrev pub reports_purged : String → List Callback → Bool
reports_purged key [] = false
reports_purged key (on_purged k ∷ cs) = if str_eq k key then true else reports_purged key cs
reports_purged key (_ ∷ cs) = reports_purged key cs

reports-maps :
    (key : String) (xs ys : List String)
    → let calls = map on_dead xs ++ map on_purged ys in
      (reports_dead key calls ≡ contains key xs) × (reports_purged key calls ≡ contains key ys)
reports-maps key [] [] = (refl, refl)
reports-maps key [] (y ∷ ys) = ground (arith, reports-maps key [] ys)
reports-maps key (x ∷ xs) ys = ground (arith, reports-maps key xs ys)

module _ (fl : Floats) {J : Type 0} (c : Settings fl.Float) (now : fl.Float) where
  open fl use {lt, sub}

  get-pop_all :
      (key : String) (ks : List String) (m : Dict (NodeRecord fl.Float J))
      → get key (pop_all fl ks m) ≡ (if contains key ks then none else get key m)
  unfolding pop_all
  get-pop_all key [] m = refl
  get-pop_all key (k ∷ ks) m = ground (arith, get-pop k key m, get-pop_all key ks (pop k m))

  abbrev kept : Verdict → NodeRecord fl.Float J → Option (NodeRecord fl.Float J)
  kept keeps n = some n
  kept dies n = some (record_death fl c now n)
  kept goes n = none

  -- The pass over the records, seen at one key.
  abbrev at : String → Dict (NodeRecord fl.Float J) → Verdict
  at key m = elim (get key m) [ none ↦ keeps | some n ↦ judge fl c now n ]

  get-sweep :
      (key : String) (m : Dict (NodeRecord fl.Float J))
      → Every (IsSound c) m
      → Unique m
      → let r = sweep fl c now m in
        (get key r.0
          ≡ elim (get key m) [ none ↦ none | some n ↦ some (apply fl (judge fl c now n) c now n) ])
        × (contains key r.1 ≡ is_dies (at key m))
        × (contains key r.2 ≡ is_goes (at key m))
  unfolding sweep get
  get-sweep key [] all u = (refl, refl, refl)
  get-sweep key ((k, n) ∷ m) all u =
      ground
        (arith, all.0.named, eq_iff k key, get_of_not_has_key k m u.0, get-sweep key m all.1 u.1)

  -- The pass, by its own verdicts.
  verdicts :
      (key : String) (nodes : Dict (NodeRecord fl.Float J))
      → Every (IsSound c) nodes
      → Unique nodes
      → let r = check_heartbeats fl c now nodes in
        (get key r.0 ≡ elim (get key nodes) [ none ↦ none | some n ↦ kept (judge fl c now n) n ])
        × (reports_dead key r.1 ≡ is_dies (at key nodes))
        × (reports_purged key r.1 ≡ is_goes (at key nodes))
  unfolding check_heartbeats
  verdicts key nodes all u =
      let r = sweep fl c now nodes in
      ground (arith, get-sweep key nodes all u, get-pop_all key r.2 r.0, reports-maps key r.1 r.2)

  -- What is due to a node, by its status and the age of its last heartbeat.
  abbrev pub is_overdue : NodeRecord fl.Float J → Bool
  is_overdue n = lt c.timeout (sub now n.last_heartbeat)

  abbrev pub outlived : NodeRecord fl.Float J → Bool
  outlived n = elim c.purge_after [
    | none ↦ false
    | some limit ↦ lt limit (sub now n.last_heartbeat)
  ]

  abbrev pub expected_death : NodeRecord fl.Float J → Bool
  expected_death n = elim n.status [
    | alive ↦ is_overdue n
    | quarantined ↦ is_overdue n
    | dead ↦ false
    | leaving ↦ false
  ]

  abbrev pub expected_purge : NodeRecord fl.Float J → Bool
  expected_purge n = elim n.status [
    | alive ↦ false
    | quarantined ↦ false
    | dead ↦ outlived n
    | leaving ↦ false
  ]

  abbrev pub deceased : NodeRecord fl.Float J → NodeRecord fl.Float J
  deceased n = record n {
    status = dead;
    death_count = n.death_count + 1;
    recent_deaths = recent fl c now (n.recent_deaths ++ now ∷ []);
    consecutive_alive_heartbeats = 0;
  }

  judge_lem :
      (n : NodeRecord fl.Float J) (status : Status)
      → n.status ≡ status
      → (is_dies (judge fl c now n) ≡ expected_death n)
        × (is_goes (judge fl c now n) ≡ expected_purge n)
        × (kept (judge fl c now n) n ≡ (
            if expected_death n
            then some (deceased n)
            else if expected_purge n
            then none
            else some n))
  unfolding judge record_death
  judge_lem n alive e = rw e (ground arith)
  judge_lem n quarantined e = rw e (ground arith)
  judge_lem n dead e = rw e (ground arith)
  judge_lem n leaving e = rw e (ground arith)

  at_node :
      (o found : Option (NodeRecord fl.Float J)) (died purged : Bool)
      → (found ≡ elim o [ none ↦ none | some n ↦ kept (judge fl c now n) n ])
        × (died ≡ is_dies (elim o [ none ↦ keeps | some n ↦ judge fl c now n ]))
        × (purged ≡ is_goes (elim o [ none ↦ keeps | some n ↦ judge fl c now n ]))
      → (found ≡ elim o [
        | none ↦ none
        | some n ↦
            if expected_death n
            then some (deceased n)
            else if expected_purge n
            then none
            else some n
      ])
        × (died ≡ elim o [ none ↦ false | some n ↦ expected_death n ])
        × (purged ≡ elim o [ none ↦ false | some n ↦ expected_purge n ])
  at_node none found died purged h = h
  at_node (some n) found died purged h =
      let j = judge_lem n n.status refl in (h.0 ∙ j.2, h.1 ∙ j.0, h.2 ∙ j.1)

  -- The pass at each key of a registry with distinct keys and sound records. A node that is alive or
  -- quarantined, and has not been heard of for longer than the timeout, is dead afterwards, with one
  -- death more, counted in the window of its deaths, and no heartbeat on probation, and is reported
  -- dead; a dead node that has not been heard of for longer than the purge age is gone, and is
  -- reported purged; every other node is kept as it was, and is in neither report.
  pub check_heartbeats-get :
      (key : String) (nodes : Dict (NodeRecord fl.Float J))
      → Every (IsSound c) nodes
      → Unique nodes
      → let r = check_heartbeats fl c now nodes in
        (get key r.0 ≡ elim (get key nodes) [
          | none ↦ none
          | some n ↦
              if expected_death n
              then some (deceased n)
              else if expected_purge n
              then none
              else some n
        ])
        × (reports_dead key r.1 ≡ elim (get key nodes) [ none ↦ false | some n ↦ expected_death n ])
        × (reports_purged key r.1
            ≡ elim (get key nodes) [ none ↦ false | some n ↦ expected_purge n ])
  check_heartbeats-get key nodes all u =
      let r = check_heartbeats fl c now nodes in
      at_node (get key nodes) (get key r.0) (reports_dead key r.1) (reports_purged key r.1)
        (verdicts key nodes all u)
