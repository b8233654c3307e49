-- ===== src/Ring/Draining.antt =====
-- The end of a drain: servers whose connections are closed, or whose time is up, cool in the outer
-- ring.
use huddle_cluster.Base.{
  ◌+◌, ◌≤◌, ◌≡◌, ◌∙◌, refl, String, [], ◌∷◌, arith, Dict, pop, Every, if◌then◌else◌, str_eq, eq_iff,
  str_eq_refl,
}
use huddle_cluster.Base.Floats.{Floats}
use huddle_cluster.Ring.Outside.{Heap, HeapLaws, Remediation, tally}
use huddle_cluster.Ring.{Server, Settings, outer, EvictionReason, Cluster, complete_eviction}
use huddle_cluster.Ring.Rotate.{completed, release, check_draining_servers}
use huddle_cluster.Ring.Population.{has_id, is_filed_under, population}

-- A draining server is filed under its id.
abbrev pub IsFiled : {F : Type 0} → Dict (Server F × F × EvictionReason) → Type 0
IsFiled d = Every (λ id entry. entry.0.id ≡ id) d

tally-pop :
    {V : Type 0} (id asked : String) (d : Dict V)
    → tally (is_filed_under asked) (pop id d)
      ≡ (if str_eq id asked then 0 else tally (is_filed_under asked) d)
unfolding pop
tally-pop id asked [] = ground arith
tally-pop id asked ((name, value) ∷ items) =
    ground (arith, tally-pop id asked items, eq_iff name id, eq_iff id asked, eq_iff name asked)

tally-pop_one :
    {V : Type 0} (id asked : String) (d : Dict V)
    → tally (is_filed_under id) d ≡ 1
    → tally (is_filed_under asked) (pop id d) + (if str_eq id asked then 1 else 0)
      ≡ tally (is_filed_under asked) d
tally-pop_one id asked d h = grind (arith, h, tally-pop id asked d, eq_iff id asked)

tally-completed :
    (fl : Floats) {R : Type 0} (heap : Heap (Server fl.Float)) (rem : Remediation fl.Float R)
    (c : Settings fl.Float) (asked : String) (now : fl.Float)
    (d : Dict (Server fl.Float × fl.Float × EvictionReason))
    → (tally (is_filed_under asked) (completed fl heap rem c now d)
        ≤ tally (is_filed_under asked) d)
      × (IsFiled d → IsFiled (completed fl heap rem c now d))
unfolding completed
tally-completed fl heap rem c asked now [] = (omega arith, λ h. h)
tally-completed fl heap rem c asked now ((id, (s, since, why)) ∷ d) =
    ground (arith, tally-completed fl heap rem c asked now d)

module _ (fl : Floats) {R : Type 0} (heap : Heap (Server fl.Float)) (rem : Remediation fl.Float R)
    (c : Settings fl.Float) (laws : HeapLaws heap) where
  open fl use {Float}

  abbrev moved : Float → EvictionReason → Server Float → String → Cluster Float R → Cluster Float R
  moved now why s id k =
      complete_eviction fl heap rem c now why s
        (record k { draining_servers = pop id k.draining_servers })

  moved-population :
      (asked : String) (now : Float) (why : EvictionReason) (s : Server Float) (id : String)
      (k : Cluster Float R)
      → s.id ≡ id
      → tally (is_filed_under id) k.draining_servers ≡ 1
      → population asked (moved now why s id k) ≡ population asked k
  unfolding population complete_eviction
  moved-population asked now why s id k e h = ground (
    arith,
    e,
    tally-pop_one id asked k.draining_servers h,
    laws.heappush-tally (has_id asked) (record s { position = outer; last_rotated = now })
        k.outer_ring,
  )

  release-population :
      (asked : String) (now : Float) (rest : Dict (Server Float × Float × EvictionReason))
      (k : Cluster Float R)
      → ((id : String)
          → tally (is_filed_under id) rest ≤ tally (is_filed_under id) k.draining_servers)
      → ((id : String) → tally (is_filed_under id) k.draining_servers ≤ 1)
      → IsFiled rest
      → population asked (release fl heap rem c now rest k) ≡ population asked k
  unfolding release complete_eviction
  release-population asked now [] k all once filed = refl
  release-population asked now ((id, (s, since, why)) ∷ rest) k all once filed =
      let one : tally (is_filed_under id) k.draining_servers ≡ 1 =
        ground (arith, all id, once id, str_eq_refl id) in
      release-population asked now rest (moved now why s id k)
        (λ id'. ground (arith, all id', tally-pop_one id id' k.draining_servers one))
        (λ id'. ground (arith, once id', tally-pop_one id id' k.draining_servers one)) filed.1
      ∙ moved-population asked now why s id k filed.0 one

  -- The check of the draining servers keeps the number of servers of every id, as long as each is
  -- filed once and under its id.
  check_draining_servers-population :
      (asked : String) (now : Float) (k : Cluster Float R)
      → ((id : String) → tally (is_filed_under id) k.draining_servers ≤ 1)
      → IsFiled k.draining_servers
      → population asked (check_draining_servers fl heap rem c now k) ≡ population asked k
  unfolding check_draining_servers
  check_draining_servers-population asked now k once filed =
      release-population asked now (completed fl heap rem c now k.draining_servers) k
        (λ id. (tally-completed fl heap rem c id now k.draining_servers).0) once
        ((tally-completed fl heap rem c asked now k.draining_servers).1 filed)
