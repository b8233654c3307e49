-- ===== src/Ring/Sizes.antt =====
-- The bounds on the inner ring that a rotation cycle respects.
use huddle_cluster.Base.{
  length-take-le, ℕ, suc, ◌+◌, ◌-◌, ◌/◌, ◌≤◌, ◌≡◌, ◌∙◌, ◌⊎◌, refl, String, Option, none, some, List,
  [], ◌∷◌, arith, map, length, length-append,
}
use huddle_cluster.Base.Floats.{Floats}
use huddle_cluster.Ring.Outside.{Heap, Remediation}
use huddle_cluster.Ring.{
  Server, Settings, EvictionReason, health_fail, Cluster, remove_server_from, move_to_outer,
  move_to_inner,
}
use huddle_cluster.Ring.Rotate.{
  candidates, least, max_evict, to_evict, evict_all, evict_failed, evict_failing, promote_cooled,
  alert_degraded, prepare, rotate,
}
use huddle_cluster.Ring.Population.{length-remove}
use huddle_cluster.Ring.Conservation.{inner_ring-move_to_outer}
use huddle_cluster.Ring.Promotion.{promote_cooled-keeps}

length-remove-le :
    {F : Type 0} (id : String) (ring : List (Server F))
    → length (remove_server_from id ring) ≤ length ring
unfolding remove_server_from
length-remove-le id [] = omega arith
length-remove-le id (s ∷ rest) = ground (arith, length-remove-le id rest)

length-map : {A : Type 0} (f : A → A) (xs : List A) → length (map {A = A} {B = A} f xs) ≡ length xs
length-map f [] = refl
length-map f (x ∷ xs) = omega (arith, length-map f xs)

module _ (fl : Floats) (c : Settings fl.Float) where
  open fl use {Float}

  -- Step 1 evicts at most a third of the inner ring, though always one at least may go, and leaves
  -- the ring its minimum size.
  length-to_evict :
      (now threshold : Float) (ring : List (Server Float))
      → (length (to_evict fl c now threshold ring) ≤ 1
          ⊎ length (to_evict fl c now threshold ring) ≤ length ring / 3)
        × (length (to_evict fl c now threshold ring) ≤ length ring - c.min_inner_size)
  unfolding to_evict max_evict
  length-to_evict now threshold ring = ground (
    arith,
    length-take-le (least (max_evict (length ring)) (length ring - c.min_inner_size))
        (candidates fl c now threshold ring),
  )

module _ (fl : Floats) {R : Type 0} (heap : Heap (Server fl.Float)) (rem : Remediation fl.Float R)
    (c : Settings fl.Float) where
  open fl use {Float}

  length-move_to_outer :
      (now : Float) (why : EvictionReason) (s : Server Float) (k : Cluster Float R)
      → (length (move_to_outer fl heap rem c now why s k).inner_ring ≤ length k.inner_ring)
        × (length k.inner_ring ≤ suc (length (move_to_outer fl heap rem c now why s k).inner_ring))
  length-move_to_outer now why s k =
      rw (inner_ring-move_to_outer fl heap rem c now why s k)
        (length-remove-le s.id k.inner_ring, length-remove s.id k.inner_ring)

  evict_all-length :
      (now : Float) (chosen : List (Server Float × EvictionReason)) (k : Cluster Float R)
      → (length (evict_all fl heap rem c now chosen k).inner_ring ≤ length k.inner_ring)
        × (length k.inner_ring
            ≤ length chosen + length (evict_all fl heap rem c now chosen k).inner_ring)
  unfolding evict_all
  evict_all-length now [] k = omega arith
  evict_all-length now ((s, why) ∷ rest) k = omega (
    arith,
    evict_all-length now rest (move_to_outer fl heap rem c now why s k),
    length-move_to_outer now why s k,
  )

  length-move_to_inner :
      (now : Float) (s : Server Float) (k : Cluster Float R)
      → length (move_to_inner fl heap rem c now s k).inner_ring ≡ suc (length k.inner_ring)
  unfolding move_to_inner
  length-move_to_inner now s k = length-append k.inner_ring (_ ∷ []) ∙ omega arith

  length-evict_failed :
      (now : Float) (s : Server Float) (k : Cluster Float R)
      → (length (evict_failed fl heap rem c now s k).inner_ring ≤ length k.inner_ring)
        × (length k.inner_ring ≤ suc (length (evict_failed fl heap rem c now s k).inner_ring))
  unfolding evict_failed
  length-evict_failed now s k = ground (arith, length-move_to_outer now health_fail s k)

  -- Step 3 stops at the minimum size.
  evict_failing-floor :
      (m : ℕ)
      → m ≤ c.min_inner_size
      → (now : Float) (ring : List (Server Float)) (k : Cluster Float R) → m ≤ length k.inner_ring
      → (m ≤ length (evict_failing fl heap rem c now ring k).inner_ring)
        × (length (evict_failing fl heap rem c now ring k).inner_ring ≤ length k.inner_ring)
  unfolding evict_failing
  evict_failing-floor m h now [] k enough = omega arith
  evict_failing-floor m h now (s ∷ rest) k enough = ground (
    arith,
    length-evict_failed now s k,
    evict_failing-floor m h now rest k,
    evict_failing-floor m h now rest (evict_failed fl heap rem c now s k),
  )

  promote_cooled-size :
      (m : ℕ) (now : Float) (n : ℕ) (k : Cluster Float R)
      → (m ≤ length k.inner_ring) × (length k.inner_ring ≤ c.max_inner_size)
      → (m ≤ length (promote_cooled fl heap rem c n now k).inner_ring)
        × (length (promote_cooled fl heap rem c n now k).inner_ring ≤ c.max_inner_size)
  promote_cooled-size m now n k h =
      promote_cooled-keeps fl heap rem c
        (λ k'. (m ≤ length k'.inner_ring) × (length k'.inner_ring ≤ c.max_inner_size)) now
        (λ k' s rest e t b.
          ground
            (arith, length-move_to_inner now s (record k' { outer_ring = heap.heappop s rest })))
        n k h

  prepare-length :
      (adapt : Option (Float × Float)) (fuse : Option (String → Float → Float))
      (k : Cluster Float R)
      → length (prepare fl heap rem c adapt fuse k).inner_ring ≡ length k.inner_ring
  unfolding prepare
  prepare-length none none k = refl
  prepare-length (some t) none k = refl
  prepare-length none (some f) k = length-map _ k.inner_ring
  prepare-length (some t) (some f) k = length-map _ k.inner_ring

  length-alert :
      (r : R) (k : Cluster Float R)
      → length (alert_degraded fl heap rem c (record k { remediator = r })).inner_ring
        ≡ length k.inner_ring
  unfolding alert_degraded
  length-alert r k = ground arith

  -- A rotation cycle never takes the inner ring below its minimum size, nor below the size that it
  -- had where that was less, and never above its maximum size, if it was within it.
  pub rotate-size :
      (m : ℕ) (adapt : Option (Float × Float)) (fuse : Option (String → Float → Float))
      (now : Float) (k : Cluster Float R)
      → m ≤ c.min_inner_size
      → m ≤ length k.inner_ring
      → length k.inner_ring ≤ c.max_inner_size
      → (m ≤ length (rotate fl heap rem c adapt fuse now k).inner_ring)
        × (length (rotate fl heap rem c adapt fuse now k).inner_ring ≤ c.max_inner_size)
  unfolding rotate
  rotate-size m adapt fuse now k h enough fits =
      let k0 = prepare fl heap rem c adapt fuse k in
      let chosen = to_evict fl c now k0.heat_threshold k0.inner_ring in
      let k1 = evict_all fl heap rem c now chosen k0 in
      let k2 = promote_cooled fl heap rem c (length k1.outer_ring) now k1 in
      let first : (m ≤ length k1.inner_ring) × (length k1.inner_ring ≤ c.max_inner_size) = omega (
        arith,
        (length-to_evict fl c now k0.heat_threshold k0.inner_ring).1,
        evict_all-length now chosen k0,
        prepare-length adapt fuse k,
      ) in
      let second = promote_cooled-size m now (length k1.outer_ring) k1 first in
      omega (
        arith,
        second,
        evict_failing-floor m h now k2.inner_ring k2 second.0,
        length-alert
            (rem.on_stale_check (evict_failing fl heap rem c now k2.inner_ring k2).remediator)
            (evict_failing fl heap rem c now k2.inner_ring k2),
      )
