-- ===== src/Ring/Members.antt =====
-- Registration and removal count: what enters or leaves the cluster is one server.
use huddle_cluster.Base.{
  ◌+◌, ◌<◌, ◌≡◌, sym, refl, String, Bool, false, Option, none, some, List, [], ◌∷◌, arith,
  if◌then◌else◌, str_eq, eq_iff, subst, ◌&&◌,
}
use huddle_cluster.Base.Floats.{Floats}
use huddle_cluster.Ring.Outside.{Heap, HeapLaws, Remediation, tally}
use huddle_cluster.Ring.{Server, Settings, inner, outer, manual, Cluster, remove_server_from}
use huddle_cluster.Ring.Routing.{
  find_server, add_server, removed, remove_server, forced, force_evict,
}
use huddle_cluster.Ring.Population.{
  has_id, population, tally-append, tally-remove, move_to_outer-population,
}
use huddle_cluster.Ring.Conservation.{maybe_pull_from_outer-population}

find_server-absent :
    {F : Type 0} (id : String) (ring : List (Server F))
    → find_server id ring ≡ none
    → tally (has_id id) ring ≡ 0
unfolding find_server
find_server-absent id [] h = refl
find_server-absent id (s ∷ rest) h = ground (arith, find_server-absent id rest)

find_server-found :
    {F : Type 0} (id : String) (ring : List (Server F)) (t : Server F)
    → find_server id ring ≡ some t
    → (t.id ≡ id) × (0 < tally (has_id id) ring)
unfolding find_server
find_server-found id [] t h = ground arith
find_server-found id (s ∷ rest) t h = ground (arith, find_server-found id rest t, eq_iff s.id id)

module _ (fl : Floats) {R : Type 0} (heap : Heap (Server fl.Float)) (rem : Remediation fl.Float R)
    (c : Settings fl.Float) (laws : HeapLaws heap) where
  open fl use {Float, add}

  -- `add_server` adds one server of its id and none of another.
  add_server-population :
      (asked : String) (now : Float) (force_inner : Bool) (s : Server Float) (k : Cluster Float R)
      → population asked (add_server fl heap rem c now force_inner s k)
        ≡ population asked k + (if str_eq s.id asked then 1 else 0)
  unfolding population add_server
  add_server-population asked now force_inner s k = ground (
    arith,
    laws.heappush-tally (has_id asked)
        (record s { cold_until = add now c.cold_start_sec; position = outer }) k.outer_ring,
    laws.heappush-tally (has_id asked) (record s { position = outer }) k.outer_ring,
    tally-append (has_id asked) k.inner_ring (record s { position = inner } ∷ []),
  )

  force_evict-population :
      (asked : String) (now : Float) (id : String) (k : Cluster Float R)
      → population asked (force_evict fl heap rem c now id k).0 ≡ population asked k
  unfolding force_evict
  force_evict-population asked now id k = go (find_server id k.inner_ring) refl
    where
      go :
          (o : Option (Server Float))
          → find_server id k.inner_ring ≡ o
          → population asked (forced fl heap rem c now k o).0 ≡ population asked k
      go none e = refl
      go (some s) e =
          let found = find_server-found id k.inner_ring s e in
          move_to_outer-population fl heap rem c laws asked now manual s k
            (subst (λ i. 0 < tally (has_id i) k.inner_ring) (sym found.0) found.1)

  taken-population :
      (asked id : String) (k : Cluster Float R)
      → 0 < tally (has_id id) k.inner_ring
      → population asked (record k { inner_ring = remove_server_from id k.inner_ring })
          + (if str_eq id asked then 1 else 0)
        ≡ population asked k
  unfolding population
  taken-population asked id k h = omega (arith, tally-remove id asked k.inner_ring h)

  taken_outer-population :
      (asked id : String) (k : Cluster Float R)
      → 0 < tally (has_id id) k.outer_ring
      → population asked
            (record k { outer_ring = heap.heapify (remove_server_from id k.outer_ring) })
          + (if str_eq id asked then 1 else 0)
        ≡ population asked k
  unfolding population
  taken_outer-population asked id k h = omega (
    arith,
    tally-remove id asked k.outer_ring h,
    laws.heapify-tally (has_id asked) (remove_server_from id k.outer_ring),
  )

  removed-population :
      (asked : String) (now : Float) (id : String) (k : Cluster Float R)
      (o p : Option (Server Float))
      → find_server id k.inner_ring ≡ o
      → find_server id k.outer_ring ≡ p
      → population asked (removed fl heap rem c now id k o p).0
          + (if (removed fl heap rem c now id k o p).1 && str_eq id asked then 1 else 0)
        ≡ population asked k
  removed-population asked now id k (some s) p e e' = omega (
    arith,
    taken-population asked id k (find_server-found id k.inner_ring s e).1,
    maybe_pull_from_outer-population fl heap rem c laws asked now
        (record k { inner_ring = remove_server_from id k.inner_ring }),
  )
  removed-population asked now id k none (some s) e e' =
      taken_outer-population asked id k (find_server-found id k.outer_ring s e').1
  removed-population asked now id k none none e e' = omega arith

  removed-answer :
      (now : Float) (id : String) (k : Cluster Float R) (o p : Option (Server Float))
      → find_server id k.inner_ring ≡ o
      → find_server id k.outer_ring ≡ p
      → (removed fl heap rem c now id k o p).1 ≡ false
      → (tally (has_id id) k.inner_ring ≡ 0) × (tally (has_id id) k.outer_ring ≡ 0)
  removed-answer now id k (some s) p e e' h = ground arith
  removed-answer now id k none (some s) e e' h = ground arith
  removed-answer now id k none none e e' h =
      (find_server-absent id k.inner_ring e, find_server-absent id k.outer_ring e')

  -- `remove_server` takes one server of the id away, or answers that there is none in either ring.
  remove_server-population :
      (asked : String) (now : Float) (id : String) (k : Cluster Float R)
      → (population asked (remove_server fl heap rem c now id k).0
            + (if (remove_server fl heap rem c now id k).1 && str_eq id asked then 1 else 0)
          ≡ population asked k)
        × ((remove_server fl heap rem c now id k).1 ≡ false
            → (tally (has_id id) k.inner_ring ≡ 0) × (tally (has_id id) k.outer_ring ≡ 0))
  unfolding remove_server
  remove_server-population asked now id k =
      (removed-population asked now id k _ _ refl refl, removed-answer now id k _ _ refl refl)
