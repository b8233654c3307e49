-- ===== src/Ring/Population.antt =====
-- How many servers of an id the cluster keeps, in the two rings and among the draining servers.
use huddle_cluster.Base.{
  ℕ, suc, ◌+◌, ◌≤◌, ◌<◌, ◌≡◌, ◌∙◌, ap, String, Bool, false, List, [], ◌∷◌, ◌++◌, arith, Dict,
  assign, has_key, if◌then◌else◌, str_eq, eq_iff, length,
}
use huddle_cluster.Base.Floats.{Floats}
use huddle_cluster.Ring.Outside.{Heap, HeapLaws, Remediation, tally}
use huddle_cluster.Ring.{
  Server, Settings, EvictionReason, Cluster, remove_server_from, complete_eviction, move_to_outer,
  move_to_inner, outer, draining, drains, cool_down, purge, warm_up,
}

abbrev pub has_id : {F : Type 0} → String → Server F → Bool
has_id id s = str_eq s.id id

abbrev pub is_filed_under : {V : Type 0} → String → String × V → Bool
is_filed_under id item = str_eq item.0 id

-- The servers of that id which the cluster keeps.
unfoldable pub population : {F R : Type 0} → String → Cluster F R → ℕ
population id k =
    tally (has_id id) k.inner_ring
    + tally (has_id id) k.outer_ring
    + tally (is_filed_under id) k.draining_servers

pub tally-append {ℓ} :
    {A : Type ℓ} (p : A → Bool) (xs ys : List A) → tally p (xs ++ ys) ≡ tally p xs + tally p ys
tally-append p [] ys = omega arith
tally-append p (x ∷ xs) ys = omega (arith, tally-append p xs ys)

pub tally-remove :
    {F : Type 0} (id asked : String) (ring : List (Server F))
    → 0 < tally (has_id id) ring
    → tally (has_id asked) (remove_server_from id ring) + (if str_eq id asked then 1 else 0)
      ≡ tally (has_id asked) ring
unfolding remove_server_from
tally-remove id asked [] h = ground arith
tally-remove id asked (s ∷ rest) h = ground (arith, tally-remove id asked rest, eq_iff s.id id)

pub length-remove :
    {F : Type 0} (id : String) (ring : List (Server F))
    → length ring ≤ suc (length (remove_server_from id ring))
unfolding remove_server_from
length-remove id [] = omega arith
length-remove id (s ∷ rest) = ground (arith, length-remove id rest)

pub tally-assign :
    {V : Type 0} (id asked : String) (v : V) (d : Dict V)
    → has_key id d ≡ false
    → tally (is_filed_under asked) (assign id v d)
      ≡ tally (is_filed_under asked) d + (if str_eq id asked then 1 else 0)
unfolding assign has_key
tally-assign id asked v [] h = omega arith
tally-assign id asked v ((name, value) ∷ items) h = ground (arith, tally-assign id asked v items)

module _ (fl : Floats) {R : Type 0} (heap : Heap (Server fl.Float)) (rem : Remediation fl.Float R)
    (c : Settings fl.Float) (laws : HeapLaws heap) where
  open fl use {Float, lt, le}

  pub complete_eviction-population :
      (asked : String) (now : Float) (why : EvictionReason) (s : Server Float) (k : Cluster Float R)
      → population asked (complete_eviction fl heap rem c now why s k)
        ≡ population asked k + (if str_eq s.id asked then 1 else 0)
  unfolding population complete_eviction
  complete_eviction-population asked now why s k = omega (
    arith,
    laws.heappush-tally (has_id asked) (record s { position = outer; last_rotated = now })
        k.outer_ring,
  )

  pub move_to_outer-population :
      (asked : String) (now : Float) (why : EvictionReason) (s : Server Float) (k : Cluster Float R)
      → 0 < tally (has_id s.id) k.inner_ring
      → population asked (move_to_outer fl heap rem c now why s k) ≡ population asked k
  unfolding population move_to_outer drains cool_down
  move_to_outer-population asked now why s k h = ground (
    arith,
    tally-remove s.id asked k.inner_ring h,
    complete_eviction-population asked now why (cool_down fl heap rem c now why s) (record k {
      affinity_map = purge s.id k.affinity_map;
      inner_ring = remove_server_from s.id k.inner_ring;
    }),
    tally-assign s.id asked
        (record (cool_down fl heap rem c now why s) { position = draining }, now, why)
        k.draining_servers,
  )

  pub move_to_inner-population :
      (asked : String) (now : Float) (s : Server Float) (k : Cluster Float R)
      → population asked (move_to_inner fl heap rem c now s k)
        ≡ population asked k + (if str_eq s.id asked then 1 else 0)
  unfolding population move_to_inner warm_up
  move_to_inner-population asked now s k = ground (
    arith,
    tally-append (has_id asked) k.inner_ring
        (record (warm_up fl heap rem c now s) { consecutive_evictions = 0 } ∷ []),
    tally-append (has_id asked) k.inner_ring (warm_up fl heap rem c now s ∷ []),
  )

  refilled-population :
      (asked : String) (s : Server Float) (rest : List (Server Float)) (k : Cluster Float R)
      → k.outer_ring ≡ s ∷ rest
      → population asked (record k { outer_ring = heap.heappop s rest })
          + (if str_eq s.id asked then 1 else 0)
        ≡ population asked k
  unfolding population
  refilled-population asked s rest k e =
      omega (arith, laws.heappop-tally (has_id asked) s rest, ap (tally (has_id asked)) e)

  -- One round of a promoting loop: the server leaves the outer ring and enters the inner ring.
  pub promotion-population :
      (asked : String) (now : Float) (s : Server Float) (rest : List (Server Float))
      (k : Cluster Float R)
      → k.outer_ring ≡ s ∷ rest
      → population asked
          (move_to_inner fl heap rem c now s (record k { outer_ring = heap.heappop s rest }))
        ≡ population asked k
  promotion-population asked now s rest k e =
      move_to_inner-population asked now s (record k { outer_ring = heap.heappop s rest })
      ∙ refilled-population asked s rest k e
