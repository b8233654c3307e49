-- ===== src/Ring/Rotate.antt =====
-- `HuddleCluster.rotate` and `_check_draining_servers`, the two steps of a rotation cycle. The eBPF
-- map, which is told of the new inner ring, and the Boolean that says whether a server moved are not
-- modelled.
use huddle_cluster.Base.{
  ℕ, zero, suc, ◌-◌, ◌/◌, String, Bool, false, not, ◌&&◌, ◌||◌, Option, none, some, List, [], ◌∷◌,
  ◌++◌, Dict, pop, map, if◌then◌else◌, leb, ltb, length, take,
}
use huddle_cluster.Base.Floats.{Floats}
use huddle_cluster.Ring.Outside.{Heap, Remediation}
use huddle_cluster.Ring.{
  Server, Settings, EvictionReason, overheated, health_fail, absolute_latency, degraded, Cluster,
  is_cold_start, is_overheated, is_cooled, complete_eviction, move_to_outer, move_to_inner,
}

-- `max(1, len(inner) // 3)`
unfoldable pub max_evict : ℕ → ℕ
max_evict n = if ltb 1 (n / 3) then n / 3 else 1

abbrev pub least : ℕ → ℕ → ℕ
least a b = if ltb b a then b else a

module _ (fl : Floats) (c : Settings fl.Float) where
  open fl use {Float, lt, le, sub, of_nat}

  unfoldable pub breaches : Option Float → Server Float → Bool
  breaches none s = false
  breaches (some floor) s = lt (of_nat 0) s.avg_response_ms && lt floor s.avg_response_ms

  -- Why the server is a candidate of step 1, if it is one.
  unfoldable pub reason_of : Float → Float → Server Float → Option EvictionReason
  reason_of now threshold s =
      let due = not s.is_healthy || le c.rotation_cooldown_sec (sub now s.last_rotated) in
      if breaches c.absolute_latency_floor_ms s && due
      then some absolute_latency
      else if is_overheated fl threshold s && due
      then some overheated
      else none

  abbrev pub chosen : {A B : Type 0} → A → Option B → List (A × B) → List (A × B)
  chosen s none rest = rest
  chosen s (some why) rest = (s, why) ∷ rest

  unfoldable pub candidates :
      Float → Float → List (Server Float) → List (Server Float × EvictionReason)
  candidates now threshold [] = []
  candidates now threshold (s ∷ rest) =
      chosen s (reason_of now threshold s) (candidates now threshold rest)

  unfoldable pub to_evict :
      Float → Float → List (Server Float) → List (Server Float × EvictionReason)
  to_evict now threshold ring =
      take (least (max_evict (length ring)) (length ring - c.min_inner_size))
        (candidates now threshold ring)

  unfoldable pub circuit_open : Server Float → Bool
  circuit_open s =
      lt c.circuit_breaker_threshold (of_nat 1) && le c.circuit_breaker_threshold s.error_rate

module _ (fl : Floats) {R : Type 0} (heap : Heap (Server fl.Float)) (rem : Remediation fl.Float R)
    (c : Settings fl.Float) where
  open fl use {Float, lt, le, sub}

  -- Step 1
  unfoldable pub evict_all :
      Float → List (Server Float × EvictionReason) → Cluster Float R → Cluster Float R
  evict_all now [] k = k
  evict_all now ((s, why) ∷ rest) k = evict_all now rest (move_to_outer fl heap rem c now why s k)

  -- The gates of step 2, in the source's order.
  unfoldable pub may_return : Float → Cluster Float R → Server Float → Bool
  may_return now k s =
      not (is_cold_start fl now s)
      && not (lt (sub now s.last_rotated) c.min_outer_dwell_sec)
      && not (rem.is_quarantined k.remediator s.id)
      && is_cooled fl k.cool_threshold s

  -- Step 2; each round takes one server off the outer ring, so its length is fuel enough.
  abbrev pub promote_next :
      (Cluster Float R → Cluster Float R)
      → Float
      → Cluster Float R
      → List (Server Float)
      → Cluster Float R
  promote_next loop now k [] = k
  promote_next loop now k (s ∷ rest) =
      let more =
        loop (move_to_inner fl heap rem c now s (record k { outer_ring = heap.heappop s rest })) in
      if ltb (length k.inner_ring) c.max_inner_size && may_return now k s then more else k

  unfoldable pub promote_cooled : ℕ → Float → Cluster Float R → Cluster Float R
  promote_cooled zero now k = k
  promote_cooled (suc n) now k = promote_next (promote_cooled n now) now k k.outer_ring

  unfoldable pub evict_failed : Float → Server Float → Cluster Float R → Cluster Float R
  evict_failed now s k =
      let k' = move_to_outer fl heap rem c now health_fail s k in
      if circuit_open fl c s
      then record k' { remediator = rem.on_circuit_open k'.remediator s.id }
      else k'

  -- Step 3, over the servers that the inner ring had when the step began.
  unfoldable pub evict_failing : Float → List (Server Float) → Cluster Float R → Cluster Float R
  evict_failing now [] k = k
  evict_failing now (s ∷ rest) k =
      let failing = not s.is_healthy || circuit_open fl c s in
      let more = evict_failing now rest (if failing then evict_failed now s k else k) in
      if leb (length k.inner_ring) c.min_inner_size then k else more

  unfoldable pub alert_degraded : Cluster Float R → Cluster Float R
  alert_degraded k =
      if ltb (length k.inner_ring) c.min_inner_size
      then record k { notices = k.notices ++ degraded (length k.inner_ring) c.min_inner_size ∷ [] }
      else k

  abbrev pub warmed : Option (String → Float → Float) → List (Server Float) → List (Server Float)
  warmed none ring = ring
  warmed (some fuse) ring =
      map {A = Server Float} {B = Server Float}
        (λ s. record s { temperature = fuse s.id s.temperature }) ring

  abbrev pub adapted : Option (Float × Float) → Cluster Float R → Cluster Float R
  adapted none k = k
  adapted (some (heat, cool)) k = record k { heat_threshold = heat; cool_threshold = cool }

  -- What comes before step 1: the adaptive thresholds and the hardware's temperatures.
  unfoldable pub prepare :
      Option (Float × Float) → Option (String → Float → Float) → Cluster Float R → Cluster Float R
  prepare adapt fuse k = record (adapted adapt k) {
    inner_ring = warmed fuse k.inner_ring;
    outer_ring = warmed fuse k.outer_ring;
  }

  unfoldable pub rotate :
      Option (Float × Float)
      → Option (String → Float → Float)
      → Float
      → Cluster Float R
      → Cluster Float R
  unfolding prepare
  rotate adapt fuse now k0 =
      let k = prepare adapt fuse k0 in
      let k1 = evict_all now (to_evict fl c now k.heat_threshold k.inner_ring) k in
      let k2 = promote_cooled (length k1.outer_ring) now k1 in
      let k3 = evict_failing now k2.inner_ring k2 in
      alert_degraded (record k3 { remediator = rem.on_stale_check k3.remediator })

  unfoldable pub is_drained : Float → Server Float → Float → Bool
  is_drained now s since = leb s.active_connections 0 || le c.ws_drain_timeout (sub now since)

  unfoldable pub completed :
      Float
      → Dict (Server Float × Float × EvictionReason)
      → Dict (Server Float × Float × EvictionReason)
  completed now [] = []
  completed now ((id, (s, since, why)) ∷ rest) =
      let later = completed now rest in
      if is_drained now s since then (id, (s, since, why)) ∷ later else later

  unfoldable pub release :
      Float → Dict (Server Float × Float × EvictionReason) → Cluster Float R → Cluster Float R
  release now [] k = k
  release now ((id, (s, since, why)) ∷ rest) k = release now rest (
      complete_eviction fl heap rem c now why s
        (record k { draining_servers = pop id k.draining_servers }))

  unfoldable pub check_draining_servers : Float → Cluster Float R → Cluster Float R
  unfolding completed release
  check_draining_servers now k = release now (completed now k.draining_servers) k
