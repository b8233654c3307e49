-- ===== src/Ring/Conservation.antt =====
-- A rotation cycle moves servers and neither loses nor invents one.
use huddle_cluster.Base.{
  ℕ, zero, suc, ◌+◌, ◌≤◌, ◌<◌, ◌≡◌, ◌∙◌, refl, String, Bool, true, false, not, ◌||◌, Option, none,
  some, List, [], ◌∷◌, arith, map, if◌then◌else◌, str_eq_refl, length, take,
}
use huddle_cluster.Base.Floats.{Floats}
use huddle_cluster.Ring.Outside.{Heap, HeapLaws, Remediation, tally}
use huddle_cluster.Ring.{
  Server, Settings, EvictionReason, Cluster, remove_server_from, move_to_outer, health_fail,
  complete_eviction, maybe_pull_from_outer,
}
use huddle_cluster.Ring.Rotate.{
  candidates, chosen, reason_of, to_evict, evict_all, evict_failed, evict_failing, circuit_open,
  promote_cooled, alert_degraded, prepare, rotate,
}
use huddle_cluster.Ring.Population.{
  has_id, population, tally-remove, move_to_outer-population, promotion-population,
}
use huddle_cluster.Ring.Promotion.{promote_cooled-keeps, pull_from_outer-keeps}

abbrev names : {A F : Type 0} → String → Server F × A → Bool
names id item = has_id id item.0

tally-take {ℓ} :
    {A : Type ℓ} (p : A → Bool) (n : ℕ) (xs : List A) → tally p (take n xs) ≤ tally p xs
tally-take p zero xs = omega arith
tally-take p (suc n) [] = omega arith
tally-take p (suc n) (x ∷ xs) = omega (arith, tally-take p n xs)

tally-warmed :
    {F : Type 0} (asked : String) (f : String → F → F) (ring : List (Server F))
    → tally (has_id asked) (
        map {A = Server F} {B = Server F}
          (λ s. record s { temperature = f s.id s.temperature })
          ring)
      ≡ tally (has_id asked) ring
tally-warmed asked f [] = refl
tally-warmed asked f (s ∷ ring) = omega (arith, tally-warmed asked f ring)

module _ (fl : Floats) (c : Settings fl.Float) where
  open fl use {Float}

  tally-chosen :
      (asked : String) (s : Server Float) (o : Option EvictionReason)
      (rest : List (Server Float × EvictionReason))
      → tally (names asked) (chosen fl c s o rest)
        ≤ (if has_id asked s then 1 else 0) + tally (names asked) rest
  tally-chosen asked s none rest = omega arith
  tally-chosen asked s (some why) rest = omega arith

  tally-candidates :
      (asked : String) (now threshold : Float) (ring : List (Server Float))
      → tally (names asked) (candidates fl c now threshold ring) ≤ tally (has_id asked) ring
  unfolding candidates
  tally-candidates asked now threshold [] = omega arith
  tally-candidates asked now threshold (s ∷ ring) = omega (
    arith,
    tally-candidates asked now threshold ring,
    tally-chosen asked s (reason_of fl c now threshold s) (candidates fl c now threshold ring),
  )

  tally-to_evict :
      (asked : String) (now threshold : Float) (ring : List (Server Float))
      → tally (names asked) (to_evict fl c now threshold ring) ≤ tally (has_id asked) ring
  unfolding to_evict
  tally-to_evict asked now threshold ring = omega (
    arith,
    tally-take (names asked) _ (candidates fl c now threshold ring),
    tally-candidates asked now threshold ring,
  )

module _ (fl : Floats) {R : Type 0} (heap : Heap (Server fl.Float)) (rem : Remediation fl.Float R)
    (c : Settings fl.Float) where
  open fl use {Float}

  pub inner_ring-move_to_outer :
      (now : Float) (why : EvictionReason) (s : Server Float) (k : Cluster Float R)
      → (move_to_outer fl heap rem c now why s k).inner_ring ≡ remove_server_from s.id k.inner_ring
  unfolding move_to_outer complete_eviction
  inner_ring-move_to_outer now why s k = ground arith

module _ (fl : Floats) {R : Type 0} (heap : Heap (Server fl.Float)) (rem : Remediation fl.Float R)
    (c : Settings fl.Float) (laws : HeapLaws heap) where
  open fl use {Float}

  present :
      (s : Server Float) (count : String → ℕ) (k : Cluster Float R)
      → ((id : String) → (if has_id id s then 1 else 0) + count id ≤ tally (has_id id) k.inner_ring)
      → 0 < tally (has_id s.id) k.inner_ring
  present s count k all = ground (arith, all s.id, str_eq_refl s.id)

  -- The servers still to be looked at are still in the inner ring.
  left :
      (now : Float) (why : EvictionReason) (s : Server Float) (count : String → ℕ)
      (k : Cluster Float R)
      → ((id : String) → (if has_id id s then 1 else 0) + count id ≤ tally (has_id id) k.inner_ring)
      → (id : String)
      → count id ≤ tally (has_id id) (move_to_outer fl heap rem c now why s k).inner_ring
  left now why s count k all id =
      rw (inner_ring-move_to_outer fl heap rem c now why s k)
        (omega (arith, all id, tally-remove s.id id k.inner_ring (present s count k all)))

  evict_all-population :
      (asked : String) (now : Float) (chosen : List (Server Float × EvictionReason))
      (k : Cluster Float R)
      → ((id : String) → tally (names id) chosen ≤ tally (has_id id) k.inner_ring)
      → population asked (evict_all fl heap rem c now chosen k) ≡ population asked k
  unfolding evict_all
  evict_all-population asked now [] k all = refl
  evict_all-population asked now ((s, why) ∷ rest) k all =
      evict_all-population asked now rest _ (left now why s (λ id. tally (names id) rest) k all)
      ∙ move_to_outer-population fl heap rem c laws asked now why s k
          (present s (λ id. tally (names id) rest) k all)

  evict_failed-rings :
      (asked : String) (now : Float) (s : Server Float) (k : Cluster Float R)
      → (population asked (evict_failed fl heap rem c now s k)
          ≡ population asked (move_to_outer fl heap rem c now health_fail s k))
        × ((evict_failed fl heap rem c now s k).inner_ring
            ≡ (move_to_outer fl heap rem c now health_fail s k).inner_ring)
  unfolding evict_failed population
  evict_failed-rings asked now s k = ground arith

  -- One turn of step 3.
  turn-population :
      (asked : String) (now : Float) (failing : Bool) (s : Server Float)
      (rest : List (Server Float)) (k : Cluster Float R)
      → ((id : String) → tally (has_id id) (s ∷ rest) ≤ tally (has_id id) k.inner_ring)
      → population asked (if failing then evict_failed fl heap rem c now s k else k)
        ≡ population asked k
  turn-population asked now false s rest k all = refl
  turn-population asked now true s rest k all =
      (evict_failed-rings asked now s k).0
      ∙ move_to_outer-population fl heap rem c laws asked now health_fail s k
          (present s (λ id. tally (has_id id) rest) k all)

  turn-left :
      (now : Float) (failing : Bool) (s : Server Float) (rest : List (Server Float))
      (k : Cluster Float R)
      → ((id : String) → tally (has_id id) (s ∷ rest) ≤ tally (has_id id) k.inner_ring)
      → (id : String)
      → tally (has_id id) rest
        ≤ tally (has_id id) (if failing then evict_failed fl heap rem c now s k else k).inner_ring
  turn-left now false s rest k all id = omega (arith, all id)
  turn-left now true s rest k all id =
      rw ((evict_failed-rings id now s k).1)
        (left now health_fail s (λ id'. tally (has_id id') rest) k all id)

  evict_failing-population :
      (asked : String) (now : Float) (ring : List (Server Float)) (k : Cluster Float R)
      → ((id : String) → tally (has_id id) ring ≤ tally (has_id id) k.inner_ring)
      → population asked (evict_failing fl heap rem c now ring k) ≡ population asked k
  unfolding evict_failing
  evict_failing-population asked now [] k all = refl
  evict_failing-population asked now (s ∷ rest) k all =
      let failing = not s.is_healthy || circuit_open fl c s in
      let more =
        evict_failing-population asked now rest _ (turn-left now failing s rest k all)
        ∙ turn-population asked now failing s rest k all in
      ground (arith, more)

  promote_cooled-population :
      (asked : String) (now : Float) (n : ℕ) (k : Cluster Float R)
      → population asked (promote_cooled fl heap rem c n now k) ≡ population asked k
  promote_cooled-population asked now n k =
      promote_cooled-keeps fl heap rem c (λ k'. population asked k' ≡ population asked k) now
        (λ k' s rest e t h. promotion-population fl heap rem c laws asked now s rest k' e ∙ h) n k
        refl

  pub maybe_pull_from_outer-population :
      (asked : String) (now : Float) (k : Cluster Float R)
      → population asked (maybe_pull_from_outer fl heap rem c now k) ≡ population asked k
  unfolding maybe_pull_from_outer
  maybe_pull_from_outer-population asked now k =
      pull_from_outer-keeps fl heap rem c (λ k'. population asked k' ≡ population asked k) now
        (λ k' s rest e t h. promotion-population fl heap rem c laws asked now s rest k' e ∙ h)
        (length k.outer_ring) k refl

  prepare-population :
      (asked : String) (adapt : Option (Float × Float)) (fuse : Option (String → Float → Float))
      (k : Cluster Float R)
      → population asked (prepare fl heap rem c adapt fuse k) ≡ population asked k
  unfolding prepare population
  prepare-population asked none none k = refl
  prepare-population asked (some t) none k = refl
  prepare-population asked none (some f) k =
      omega (arith, tally-warmed asked f k.inner_ring, tally-warmed asked f k.outer_ring)
  prepare-population asked (some t) (some f) k =
      omega (arith, tally-warmed asked f k.inner_ring, tally-warmed asked f k.outer_ring)

  ending-population :
      (asked : String) (r : R) (k : Cluster Float R)
      → population asked (alert_degraded fl heap rem c (record k { remediator = r }))
        ≡ population asked k
  unfolding alert_degraded population
  ending-population asked r k = ground arith

  -- A rotation cycle keeps the number of servers of every id: what leaves one ring, or the draining
  -- servers, is in another.
  pub rotate-population :
      (asked : String) (adapt : Option (Float × Float)) (fuse : Option (String → Float → Float))
      (now : Float) (k : Cluster Float R)
      → population asked (rotate fl heap rem c adapt fuse now k) ≡ population asked k
  unfolding rotate
  rotate-population asked adapt fuse now k =
      let k0 = prepare fl heap rem c adapt fuse k in
      let chosen = to_evict fl c now k0.heat_threshold k0.inner_ring in
      let k1 = evict_all fl heap rem c now chosen k0 in
      let k2 = promote_cooled fl heap rem c (length k1.outer_ring) now k1 in
      ending-population asked _ (evict_failing fl heap rem c now k2.inner_ring k2)
      ∙ evict_failing-population asked now k2.inner_ring k2 (λ id. omega arith)
      ∙ promote_cooled-population asked now (length k1.outer_ring) k1
      ∙ evict_all-population asked now chosen k0
          (λ id. tally-to_evict fl c id now k0.heat_threshold k0.inner_ring)
      ∙ prepare-population asked adapt fuse k
