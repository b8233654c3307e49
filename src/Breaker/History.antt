-- ===== src/Breaker/History.antt =====
-- The circuit breaker over whole histories of calls: `_evaluate` rounds and manual resets.
use huddle_cluster.Base.{
  ℕ, ◌+◌, String, ◌≡◌, refl, Bool, true, false, Option, none, some, List, [], ◌∷◌, ◌++◌, arith,
  Dict, get, assign, get-assign, Every, All, str_eq, eq_iff, ◌&&◌, if◌then◌else◌, ◌∙◌,
}
use huddle_cluster.Base.Floats.{Floats, Laws}
use huddle_cluster.Breaker.{
  BreakerState, closed, Config, Metric, missing, malformed, rate, Report, Callback, on_trip,
  on_reset, is_blocking, fresh, evaluate_node, setdefault, evaluate, reset, reset_entry, is_open,
}
use huddle_cluster.Breaker.Invariant.{IsCoherent, evaluate-IsCoherent, reset-IsCoherent}
use huddle_cluster.Breaker.Diagram.{evaluate_node-is_blocking}

pub data Call (F : Type 0) : Type 0 where
  evaluates : F → List (Report F) → Call F
  resets : String → Call F

-- How often `on_trip` is called.
abbrev pub trips : {F : Type 0} → List (Callback F) → ℕ
trips [] = 0
trips (on_trip k er ∷ cs) = trips cs + 1
trips (on_reset k ∷ cs) = trips cs

trips-append : {F : Type 0} (xs ys : List (Callback F)) → trips (xs ++ ys) ≡ trips xs + trips ys
trips-append [] ys = omega arith
trips-append (on_trip k er ∷ xs) ys = omega (arith, trips-append xs ys)
trips-append (on_reset k ∷ xs) ys = omega (arith, trips-append xs ys)

-- The trips that the records have counted.
abbrev pub total_trips : {F : Type 0} → Dict (BreakerState F) → ℕ
total_trips [] = 0
total_trips ((k, s) ∷ m) = s.trip_count + total_trips m

module _ (fl : Floats) where
  open fl use {Float, lt, le}

  unfoldable pub step :
      Config Float
      → Call Float
      → Dict (BreakerState Float)
      → Dict (BreakerState Float) × List (Callback Float)
  step c (evaluates now rs) states = evaluate fl c now rs states
  step c (resets key) states = let r = reset fl key states in (r.0, r.2)

  unfoldable pub run :
      Config Float
      → List (Call Float)
      → Dict (BreakerState Float)
      → Dict (BreakerState Float) × List (Callback Float)
  run c [] states = (states, [])
  run c (k ∷ ks) states =
      let (states', calls) = step c k states in
      let (final, more) = run c ks states' in (final, calls ++ more)

  run_from-IsCoherent :
      (c : Config Float) (ks : List (Call Float)) (states : Dict (BreakerState Float))
      → Every IsCoherent states
      → Every IsCoherent (run c ks states).0
  unfolding run step
  run_from-IsCoherent c [] states all = all
  run_from-IsCoherent c (evaluates now rs ∷ ks) states all =
      run_from-IsCoherent c ks _ (evaluate-IsCoherent fl c now rs states all)
  run_from-IsCoherent c (resets key ∷ ks) states all =
      run_from-IsCoherent c ks _ (reset-IsCoherent fl key states all)

  -- After any history that starts with no breakers, every record is filed under its own node's
  -- id, and has a trip time exactly if it is open or half-open.
  run-IsCoherent : (c : Config Float) (ks : List (Call Float)) → Every IsCoherent (run c ks []).0
  run-IsCoherent c ks = run_from-IsCoherent c ks [] tt

  evaluate_node-trips :
      (c : Config Float) (now : Float) (m : Metric Float) (s : BreakerState Float)
      → let r = evaluate_node fl c now m s in r.0.trip_count ≡ s.trip_count + trips r.1
  unfolding evaluate_node
  evaluate_node-trips c now missing s = ground arith
  evaluate_node-trips c now malformed s = ground arith
  evaluate_node-trips c now (rate er) s = ground arith

  total_trips-assign :
      (key : String) (s : BreakerState Float) (states : Dict (BreakerState Float))
      → total_trips (assign key s states) + (setdefault fl key states).trip_count
        ≡ total_trips states + s.trip_count
  unfolding assign get fresh
  total_trips-assign key s [] = omega arith
  total_trips-assign key s ((j, t) ∷ m) = ground (arith, eq_iff j key, total_trips-assign key s m)

  evaluate-trips :
      (c : Config Float) (now : Float) (rs : List (Report Float))
      (states : Dict (BreakerState Float))
      → let r = evaluate fl c now rs states in total_trips r.0 ≡ total_trips states + trips r.1
  unfolding evaluate
  evaluate-trips c now [] states = omega arith
  evaluate-trips c now (r ∷ rs) states =
      let old = setdefault fl r.node_id states in
      let new = evaluate_node fl c now r.error_rate old in
      let next = assign r.node_id new.0 states in
      omega (
        arith,
        evaluate_node-trips c now r.error_rate old,
        total_trips-assign r.node_id new.0 states,
        evaluate-trips c now rs next,
        trips-append new.1 (evaluate fl c now rs next).1,
      )

  reset_entry-trips :
      (key : String) (states : Dict (BreakerState Float)) (o : Option (BreakerState Float))
      → get key states ≡ o
      → let r = reset_entry fl key states o in
        (total_trips r.0 ≡ total_trips states) × (trips r.2 ≡ 0)
  unfolding reset_entry
  reset_entry-trips key states none e = (refl, refl)
  reset_entry-trips key states (some s) e =
      ground
        (arith, e, total_trips-assign key (record s { state = closed; tripped_at = none }) states)

  run_from-trips :
      (c : Config Float) (ks : List (Call Float)) (states : Dict (BreakerState Float))
      → let r = run c ks states in total_trips r.0 ≡ total_trips states + trips r.1
  unfolding run step reset
  run_from-trips c [] states = omega arith
  run_from-trips c (evaluates now rs ∷ ks) states =
      let r = evaluate fl c now rs states in
      omega (
        arith,
        evaluate-trips c now rs states,
        run_from-trips c ks r.0,
        trips-append r.1 (run c ks r.0).1,
      )
  run_from-trips c (resets key ∷ ks) states =
      let r = reset fl key states in
      omega (
        arith,
        reset_entry-trips key states (get key states) refl,
        run_from-trips c ks r.0,
        trips-append r.2 (run c ks r.0).1,
      )

  -- After any history that starts with no breakers, the trip counts of the records add up to the
  -- number of times that `on_trip` was called.
  run-trips :
      (c : Config Float) (ks : List (Call Float))
      → let r = run c ks [] in total_trips r.0 ≡ trips r.1
  run-trips c ks = omega (arith, run_from-trips c ks [])

  -- The report says that this node's error rate is back at or below the threshold.
  abbrev pub recovers : Config Float → String → Report Float → Bool
  recovers c key r = str_eq r.node_id key && elim r.error_rate [
    | missing ↦ false
    | malformed ↦ false
    | rate er ↦ le er c.trip_threshold
  ]

  -- Neither a manual reset of the node nor a report of its recovery.
  abbrev pub SparesCall : Config Float → String → Call Float → Type 0
  SparesCall c key (evaluates now rs) = All (λ r. recovers c key r ≡ false) rs
  SparesCall c key (resets k) = str_eq k key ≡ false

module _ (fl : Floats) (laws : Laws fl) where
  open fl use {Float, lt, le}

  is_open-assign :
      (key k : String) (s : BreakerState Float) (states : Dict (BreakerState Float))
      → is_open fl key (assign k s states)
        ≡ (if str_eq k key then is_blocking s.state else is_open fl key states)
  unfolding is_open
  is_open-assign key k s states = ground (arith, get-assign k key s states)

  setdefault-is_open :
      (key : String) (states : Dict (BreakerState Float))
      → is_blocking (setdefault fl key states).state ≡ is_open fl key states
  unfolding is_open fresh
  setdefault-is_open key states = ground arith

  evaluate-is_open :
      (c : Config Float) (key : String) (now : Float) (rs : List (Report Float))
      (states : Dict (BreakerState Float))
      → All (λ r. recovers fl c key r ≡ false) rs
      → is_open fl key states ≡ true
      → is_open fl key (evaluate fl c now rs states).0 ≡ true
  unfolding evaluate
  evaluate-is_open c key now [] states spare h = h
  evaluate-is_open c key now (r ∷ rs) states spare h =
      let old = setdefault fl r.node_id states in
      let new = evaluate_node fl c now r.error_rate old in
      evaluate-is_open c key now rs (assign r.node_id new.0 states) spare.1 (
        ground (
          arith,
          spare.0,
          eq_iff r.node_id key,
          is_open-assign key r.node_id new.0 states,
          evaluate_node-is_blocking fl laws c now r.error_rate old,
          setdefault-is_open r.node_id states,
        ))

  reset_entry-is_open :
      (key k : String) (states : Dict (BreakerState Float)) (o : Option (BreakerState Float))
      → str_eq k key ≡ false
      → is_open fl key (reset_entry fl k states o).0 ≡ is_open fl key states
  unfolding reset_entry
  reset_entry-is_open key k states none h = refl
  reset_entry-is_open key k states (some s) h =
      ground (arith, is_open-assign key k (record s { state = closed; tripped_at = none }) states)

  -- A node that the breaker keeps from the scheduler stays kept through every history in which
  -- no report says that its rate is at or below the threshold and nobody resets it: the
  -- half-open phase lets no request through.
  pub run-is_open :
      (c : Config Float) (key : String) (ks : List (Call Float))
      (states : Dict (BreakerState Float))
      → All (SparesCall fl c key) ks
      → is_open fl key states ≡ true
      → is_open fl key (run fl c ks states).0 ≡ true
  unfolding run step reset
  run-is_open c key [] states spare h = h
  run-is_open c key (evaluates now rs ∷ ks) states spare h =
      run-is_open c key ks _ spare.1 (evaluate-is_open c key now rs states spare.0 h)
  run-is_open c key (resets k ∷ ks) states spare h =
      run-is_open c key ks _ spare.1 (reset_entry-is_open key k states (get k states) spare.0 ∙ h)
