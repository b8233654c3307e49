-- ===== src/Ring/Routing.antt =====
-- Registration, operator commands, request routing and connections of `HuddleCluster`.
use huddle_cluster.Base.{
  ℕ, ◌+◌, ◌-◌, String, Bool, true, false, Option, none, some, List, [], ◌∷◌, ◌++◌, Dict, get,
  assign, has_key, pop, ◌&&◌, if◌then◌else◌, ltb, length, str_eq,
}
use huddle_cluster.Base.Floats.{Floats, py_max}
use huddle_cluster.Ring.Outside.{Heap, Remediation}
use huddle_cluster.Ring.{
  Server, Settings, inner, outer, EvictionReason, manual, Cluster, remove_server_from,
  move_to_outer, maybe_pull_from_outer,
}

unfoldable pub find_server : {F : Type 0} → String → List (Server F) → Option (Server F)
find_server id [] = none
find_server id (s ∷ rest) =
    let later = find_server id rest in if str_eq s.id id then some s else later

-- `{s.id: s for s in inner}.get(id)`: the last server of the id.
unfoldable pub last_server : {F : Type 0} → String → List (Server F) → Option (Server F)
last_server id [] = none
last_server id (s ∷ rest) = elim (last_server id rest) [
  | some t ↦ some t
  | none ↦ if str_eq s.id id then some s else none
]

unfoldable pub ws_open : {F : Type 0} → Server F → Server F
ws_open s = record s { active_connections = s.active_connections + 1 }

unfoldable pub ws_close : {F : Type 0} → Server F → Server F
ws_close s = record s { active_connections = s.active_connections - 1 }

abbrev pub first_draining : {F : Type 0} → Dict (Server F × F × EvictionReason) → Option (Server F)
first_draining [] = none
first_draining ((id, entry) ∷ rest) = some entry.0

abbrev pub or_draining :
    {F : Type 0} → List (Server F) → Dict (Server F × F × EvictionReason) → Option (Server F)
or_draining [] d = first_draining d
or_draining (s ∷ rest) d = some s

abbrev pub if_healthy : {F : Type 0} → Option (Server F) → Option (Server F)
if_healthy none = none
if_healthy (some s) = if s.is_healthy then some s else none

abbrev pub bound_server : {F : Type 0} → Option String → List (Server F) → Option (Server F)
bound_server none ring = none
bound_server (some id) ring = if_healthy (last_server id ring)

unfoldable pub clear_affinity : {F R : Type 0} → Option String → Cluster F R → Cluster F R × ℕ
clear_affinity none k = (record k { affinity_map = [] }, length k.affinity_map)
clear_affinity (some key) k =
    if has_key key k.affinity_map
    then (record k { affinity_map = pop key k.affinity_map }, 1)
    else (k, 0)

module _ (fl : Floats) where
  open fl use {Float, lt, le, add, div, of_nat}

  abbrev current : Option Float → Server Float → Float
  current none s = s.weight
  current (some w) s = w

  -- `ramps` holds the current weight of each active ramp; no weight is under 1e-6.
  unfoldable pub weight_of : Dict Float → Server Float → Float
  weight_of ramps s = py_max fl (div (of_nat 1) (of_nat 1000000)) (current (get s.id ramps) s)

  -- The loop of `_weighted_select` on the drawn number; the last server is the fallback.
  unfoldable pub weighted_select :
      Dict Float → Float → Float → Server Float → List (Server Float) → Server Float
  unfolding weight_of
  weighted_select ramps r cumulative s [] = s
  weighted_select ramps r cumulative s (t ∷ rest) =
      let reached = add cumulative (weight_of ramps s) in
      let more = weighted_select ramps r reached t rest in if le r reached then s else more

module _ (fl : Floats) {R : Type 0} where
  open fl use {Float, of_nat}

  unfoldable pub emergency_server : Cluster Float R → Option (Server Float)
  emergency_server k = or_draining k.outer_ring k.draining_servers

  abbrev pub in_turn :
      Server Float → List (Server Float) → Cluster Float R → Option (Server Float) × Cluster Float R
  in_turn s rest k = (some s, record k { inner_ring = rest ++ s ∷ [] })

  abbrev pub stateless :
      Dict Float
      → Float
      → Server Float
      → List (Server Float)
      → Cluster Float R
      → Option (Server Float) × Cluster Float R
  stateless [] r s rest k = in_turn s rest k
  stateless (ramp ∷ ramps) r s rest k =
      (some (weighted_select fl (ramp ∷ ramps) r (of_nat 0) s rest), k)

  abbrev pub sticky :
      String
      → Server Float
      → List (Server Float)
      → Cluster Float R
      → Option (Server Float)
      → Option (Server Float) × Cluster Float R
  sticky key s rest k (some b) = (some b, k)
  sticky key s rest k none = (
    some s,
    record k { inner_ring = rest ++ s ∷ []; affinity_map = assign key s.id k.affinity_map },
  )

  abbrev pub routed :
      Dict Float
      → Float
      → Option String
      → Cluster Float R
      → List (Server Float)
      → Option (Server Float) × Cluster Float R
  routed ramps r affinity_key k [] = (emergency_server k, k)
  routed ramps r none k (s ∷ rest) = stateless ramps r s rest k
  routed ramps r (some key) k (s ∷ rest) =
      sticky key s rest k (bound_server (get key k.affinity_map) (s ∷ rest))

  -- `r` is what `random.uniform` draws when a ramp is active.
  unfoldable pub get_server :
      Dict Float → Float → Option String → Cluster Float R → Option (Server Float) × Cluster Float R
  get_server ramps r affinity_key k = routed ramps r affinity_key k k.inner_ring

module _ (fl : Floats) {R : Type 0} (heap : Heap (Server fl.Float)) (rem : Remediation fl.Float R)
    (c : Settings fl.Float) where
  open fl use {Float, lt, add, of_nat}

  unfoldable pub add_server : Float → Bool → Server Float → Cluster Float R → Cluster Float R
  add_server now force_inner s k =
      if lt (of_nat 0) c.cold_start_sec
      then record k {
        outer_ring =
            heap.heappush (record s { cold_until = add now c.cold_start_sec; position = outer })
              k.outer_ring;
      }
      else if force_inner && ltb (length k.inner_ring) c.max_inner_size
      then record k { inner_ring = k.inner_ring ++ record s { position = inner } ∷ [] }
      else record k { outer_ring = heap.heappush (record s { position = outer }) k.outer_ring }

  abbrev pub removed :
      Float
      → String
      → Cluster Float R
      → Option (Server Float)
      → Option (Server Float)
      → Cluster Float R × Bool
  removed now id k (some s) o = (
    maybe_pull_from_outer fl heap rem c now
        (record k { inner_ring = remove_server_from id k.inner_ring }),
    true,
  )
  removed now id k none (some s) =
      (record k { outer_ring = heap.heapify (remove_server_from id k.outer_ring) }, true)
  removed now id k none none = (k, false)

  unfoldable pub remove_server : Float → String → Cluster Float R → Cluster Float R × Bool
  remove_server now id k =
      removed now id k (find_server id k.inner_ring) (find_server id k.outer_ring)

  abbrev pub forced : Float → Cluster Float R → Option (Server Float) → Cluster Float R × Bool
  forced now k none = (k, false)
  forced now k (some s) = (move_to_outer fl heap rem c now manual s k, true)

  unfoldable pub force_evict : Float → String → Cluster Float R → Cluster Float R × Bool
  force_evict now id k = forced now k (find_server id k.inner_ring)
