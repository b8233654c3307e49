-- ===== src/Breaker/Invariant.antt =====
-- What holds of the record of a node between two calls of the circuit breaker, and that each
-- call keeps it.
use huddle_cluster.Base.{
  String, ◌≡◌, refl, Option, none, some, List, [], ◌∷◌, arith, Dict, get, Every, Every-assign,
  Every-get, eq_iff, Option-cases, inl, inr, is_some, Bool-cases,
}
use huddle_cluster.Base.Floats.{Floats}
use huddle_cluster.Breaker.{
  BreakerState, Config, Metric, missing, malformed, rate, Report, is_blocking, fresh, expire,
  apply_rate, evaluate_node, setdefault, evaluate, reset, reset_entry, is_closed,
}

-- The record knows its key, and has a trip time exactly if it blocks.
pub record IsCoherent {F : Type 0} (key : String) (s : BreakerState F) : Type 0 where
  pub named : s.node_id ≡ key
  pub stamped : is_some s.tripped_at ≡ is_blocking s.state

module _ (fl : Floats) where
  open fl use {Float}

  pub fresh-IsCoherent : (key : String) → IsCoherent key (fresh fl key)
  unfolding fresh
  fresh-IsCoherent key = ground arith

  expire-IsCoherent :
      (c : Config Float) (now : Float) (key : String) (s : BreakerState Float)
      → IsCoherent key s
      → IsCoherent key (expire fl c now s)
  unfolding expire
  expire-IsCoherent c now key s h = ground arith

  apply_rate-IsCoherent :
      (c : Config Float) (now er : Float) (key : String) (s : BreakerState Float)
      → IsCoherent key s
      → IsCoherent key (apply_rate fl c now er s).0
  unfolding apply_rate
  apply_rate-IsCoherent c now er key s h = ground arith

  pub evaluate_node-IsCoherent :
      (c : Config Float) (now : Float) (m : Metric Float) (key : String) (s : BreakerState Float)
      → IsCoherent key s
      → IsCoherent key (evaluate_node fl c now m s).0
  unfolding evaluate_node
  evaluate_node-IsCoherent c now missing key s h = expire-IsCoherent c now key s h
  evaluate_node-IsCoherent c now malformed key s h = expire-IsCoherent c now key s h
  evaluate_node-IsCoherent c now (rate er) key s h =
      apply_rate-IsCoherent c now er key _ (expire-IsCoherent c now key s h)

  setdefault-IsCoherent :
      (key : String) (states : Dict (BreakerState Float))
      → Every IsCoherent states
      → IsCoherent key (setdefault fl key states)
  setdefault-IsCoherent key states all = elim (Option-cases (get key states)) [
    | inl e ↦ rw (e, setdefault) (fresh-IsCoherent key)
    | inr (s, e) ↦ rw (e, setdefault) (Every-get IsCoherent key s states all e)
  ]

  -- A round of evaluation keeps every record coherent with its key.
  pub evaluate-IsCoherent :
      (c : Config Float) (now : Float) (rs : List (Report Float))
      (states : Dict (BreakerState Float))
      → Every IsCoherent states
      → Every IsCoherent (evaluate fl c now rs states).0
  unfolding evaluate
  evaluate-IsCoherent c now [] states all = all
  evaluate-IsCoherent c now (r ∷ rs) states all = evaluate-IsCoherent c now rs _ (
      Every-assign IsCoherent r.node_id _ states
        (λ j e. rw ((eq_iff j r.node_id).0 e) (
          evaluate_node-IsCoherent c now r.error_rate r.node_id _
            (setdefault-IsCoherent r.node_id states all)))
        all)

  reset_entry-IsCoherent :
      (key : String) (states : Dict (BreakerState Float)) (o : Option (BreakerState Float))
      → Every IsCoherent states
      → ((s : BreakerState Float) → o ≡ some s → IsCoherent key s)
      → Every IsCoherent (reset_entry fl key states o).0
  unfolding reset_entry
  reset_entry-IsCoherent key states none all found = all
  reset_entry-IsCoherent key states (some s) all found = elim (Bool-cases (is_closed s.state)) [
    | inl e ↦ rw e all
    | inr e ↦ rw e (
        Every-assign IsCoherent key _ states
          (λ j e. rw ((eq_iff j key).0 e) (record { named = (found s refl).named; stamped = refl }))
          all)
  ]

  -- A manual reset keeps every record coherent with its key.
  pub reset-IsCoherent :
      (key : String) (states : Dict (BreakerState Float))
      → Every IsCoherent states
      → Every IsCoherent (reset fl key states).0
  unfolding reset
  reset-IsCoherent key states all =
      reset_entry-IsCoherent key states (get key states) all
        (λ s e. Every-get IsCoherent key s states all e)
