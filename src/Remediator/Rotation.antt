-- ===== src/Remediator/Rotation.antt =====
-- What a rotation of the rings does to the quarantine of the remediator.
use huddle_cluster.Base.{
  ℕ, ◌≡◌, String, Bool, true, false, not, ◌&&◌, Option, none, some, List, [], ◌∷◌, arith, length,
  if_holds,
}
use huddle_cluster.Base.Floats.{Floats}
use huddle_cluster.Ring.Outside.{Heap}
use huddle_cluster.Ring.{
  Server, Settings, EvictionReason, health_fail, Cluster, move_to_outer, move_to_inner,
}
use huddle_cluster.Ring.Promotion.{promotion, promote_cooled-keeps, has_room}
use huddle_cluster.Ring.Rotate.{
  may_return, evict_all, to_evict, promote_cooled, evict_failed, evict_failing, alert_degraded,
  prepare, rotate,
}
use huddle_cluster.Remediator.Action.{Effects}
use huddle_cluster.Remediator.{Remediator, is_quarantined, record_circuit_breaker_open}
use huddle_cluster.Remediator.Rings.{
  remediation, on_stale_check, on_circuit_open, IsHeld, IsHeld-treated, IsHeld-on_eviction,
  IsHeld-on_stale_check, IsHeld-record_recovery,
}

module _ (fl : Floats) (heap : Heap (Server fl.Float)) (fx : Effects) (clock : fl.Float)
    (c : Settings fl.Float) where
  open fl use {Float}

  abbrev Keeps :
      String → Cluster Float (Remediator Float) → Cluster Float (Remediator Float) → Type 0
  Keeps a k k' = IsHeld fl fx clock a k.remediator → IsHeld fl fx clock a k'.remediator

  Keeps-move_to_outer :
      (a : String) (now : Float) (why : EvictionReason) (s : Server Float)
      (k : Cluster Float (Remediator Float))
      → Keeps a k (move_to_outer fl heap (remediation fl fx clock) c now why s k)
  unfolding move_to_outer
  Keeps-move_to_outer a now why s k h =
      if_holds {A = Cluster Float (Remediator Float)} (λ x. IsHeld fl fx clock a x.remediator) _ _ _
        h (IsHeld-on_eviction fl fx clock a s.id k.remediator h)

  Keeps-evict_all :
      (a : String) (now : Float) (xs : List (Server Float × EvictionReason))
      (k : Cluster Float (Remediator Float))
      → Keeps a k (evict_all fl heap (remediation fl fx clock) c now xs k)
  unfolding evict_all
  Keeps-evict_all a now [] k h = h
  Keeps-evict_all a now ((s, why) ∷ rest) k h =
      Keeps-evict_all a now rest (move_to_outer fl heap (remediation fl fx clock) c now why s k)
        (Keeps-move_to_outer a now why s k h)

  ungated :
      (room cold dwell q cooled : Bool)
      → room && (not cold && not dwell && not q && cooled) ≡ true
      → q ≡ false
  ungated room cold dwell q cooled h = ground arith

  Keeps-promotion :
      (a : String) (now : Float) (s : Server Float) (rest : List (Server Float))
      (k : Cluster Float (Remediator Float))
      → has_room fl heap (remediation fl fx clock) c now k s ≡ true
      → Keeps a k (promotion fl heap (remediation fl fx clock) c now s rest k)
  unfolding move_to_inner may_return
  Keeps-promotion a now s rest k room h =
      if_holds {A = Remediator Float} (IsHeld fl fx clock a) (fl.le s.temperature k.cool_threshold)
        _ _
        (IsHeld-record_recovery fl fx clock a s.id k.remediator
          (ungated _ _ _ (is_quarantined fl k.remediator s.id) _ room) h)
        h

  Keeps-promote_cooled :
      (a : String) (n : ℕ) (now : Float) (k : Cluster Float (Remediator Float))
      → Keeps a k (promote_cooled fl heap (remediation fl fx clock) c n now k)
  Keeps-promote_cooled a n now k h =
      promote_cooled-keeps fl heap (remediation fl fx clock) c
        (λ x. IsHeld fl fx clock a x.remediator) now
        (λ x s rest e room held. Keeps-promotion a now s rest x room held) n k h

  Keeps-evict_failed :
      (a : String) (now : Float) (s : Server Float) (k : Cluster Float (Remediator Float))
      → Keeps a k (evict_failed fl heap (remediation fl fx clock) c now s k)
  unfolding evict_failed on_circuit_open
  Keeps-evict_failed a now s k h =
      let moved = Keeps-move_to_outer a now health_fail s k h in
      let k' = move_to_outer fl heap (remediation fl fx clock) c now health_fail s k in
      if_holds {A = Cluster Float (Remediator Float)} (λ x. IsHeld fl fx clock a x.remediator) _ _ _
        (IsHeld-treated fl fx clock a s.id (record_circuit_breaker_open fl k'.remediator)
          k'.remediator moved)
        moved

  Keeps-evict_failing :
      (a : String) (now : Float) (xs : List (Server Float)) (k : Cluster Float (Remediator Float))
      → Keeps a k (evict_failing fl heap (remediation fl fx clock) c now xs k)
  unfolding evict_failing
  Keeps-evict_failing a now [] k h = h
  Keeps-evict_failing a now (s ∷ rest) k h =
      if_holds {A = Cluster Float (Remediator Float)} (λ x. IsHeld fl fx clock a x.remediator) _ _ _
        h
        (Keeps-evict_failing a now rest _ (
          if_holds {A = Cluster Float (Remediator Float)} (λ x. IsHeld fl fx clock a x.remediator) _
            _ _ (Keeps-evict_failed a now s k h) h))

  Keeps-prepare :
      (a : String) (adapt : Option (Float × Float)) (fuse : Option (String → Float → Float))
      (k : Cluster Float (Remediator Float))
      → Keeps a k (prepare fl heap (remediation fl fx clock) c adapt fuse k)
  unfolding prepare
  Keeps-prepare a none fuse k h = h
  Keeps-prepare a (some (heat, cool)) fuse k h = h

  Keeps-alert_degraded :
      (a : String) (k : Cluster Float (Remediator Float))
      → Keeps a k (alert_degraded fl heap (remediation fl fx clock) c k)
  unfolding alert_degraded
  Keeps-alert_degraded a k h =
      if_holds {A = Cluster Float (Remediator Float)} (λ x. IsHeld fl fx clock a x.remediator) _ _ _
        h h

  -- A rotation releases no server from quarantine, whether its treatment has succeeded or not.
  pub rotate-is_quarantined :
      (adapt : Option (Float × Float)) (fuse : Option (String → Float → Float)) (now : Float)
      (a : String) (k : Cluster Float (Remediator Float))
      → is_quarantined fl k.remediator a ≡ true
      → is_quarantined fl (rotate fl heap (remediation fl fx clock) c adapt fuse now k).remediator a
        ≡ true
  unfolding rotate
  rotate-is_quarantined adapt fuse now a k0 h =
      let k = prepare fl heap (remediation fl fx clock) c adapt fuse k0 in
      let k1 =
        evict_all fl heap (remediation fl fx clock) c now
          (to_evict fl c now k.heat_threshold k.inner_ring) k in
      let k2 = promote_cooled fl heap (remediation fl fx clock) c (length k1.outer_ring) now k1 in
      let k3 = evict_failing fl heap (remediation fl fx clock) c now k2.inner_ring k2 in
      let h1 =
        Keeps-evict_all a now (to_evict fl c now k.heat_threshold k.inner_ring) k
          (Keeps-prepare a adapt fuse k0 h) in
      let h2 = Keeps-promote_cooled a (length k1.outer_ring) now k1 h1 in
      let h3 = Keeps-evict_failing a now k2.inner_ring k2 h2 in
      Keeps-alert_degraded a (record k3 { remediator = on_stale_check fl fx clock k3.remediator })
        (IsHeld-on_stale_check fl fx clock a k3.remediator h3)
