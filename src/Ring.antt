-- ===== src/Ring.antt =====
-- The two rings of `HuddleCluster`: huddle_cluster.py. `inner_ring` is the deque, `outer_ring` the
-- list that `heapq` keeps, `draining_servers` the dict of servers that finish their connections.
-- Every method holds the cluster's lock but `_check_draining_servers`, which the rotation thread
-- calls without it and which is one step here. The time of a call stands for each reading of the
-- clock in it.
mod Servers
pub mod Outside
pub mod Rotate
pub mod Routing
pub mod Population
pub mod Promotion
pub mod Conservation
pub mod Sizes
pub mod Members
pub mod Serving
pub mod Retries
pub mod Draining
pub mod Refill
mod Tests
unfoldable pub use Servers.*
use huddle_cluster.Base.{
  ℕ, zero, suc, ◌+◌, ◌-◌, ◌/◌, String, Bool, true, false, not, ◌&&◌, ◌||◌, Option, none, some, List,
  [], ◌∷◌, ◌++◌, Dict, get, assign, has_key, if◌then◌else◌, leb, ltb, length, str_eq, keep,
}
use huddle_cluster.Base.Floats.{Floats, py_max}
use Outside.{Heap, Remediation}

-- Callbacks and alerts, in the order in which they are made.
pub data Notice : Type 0 where
  evicted : String → EvictionReason → Notice
  promoted : String → Notice
  degraded : ℕ → ℕ → Notice

pub record Cluster (F R : Type 0) : Type 0 where
  pub inner_ring : List (Server F)
  pub outer_ring : List (Server F)
  pub draining_servers : Dict (Server F × F × EvictionReason)
  pub affinity_map : Dict String
  pub heat_threshold : F
  pub cool_threshold : F
  pub remediator : R
  pub notices : List Notice

-- `deque.remove(server)`: the first server of that id. It is called for servers of the ring only.
pub remove_server_from : {F : Type 0} → String → List (Server F) → List (Server F)
remove_server_from id [] = []
remove_server_from id (s ∷ rest) =
    let others = s ∷ remove_server_from id rest in if str_eq s.id id then rest else others

-- The bindings that do not lead to the server.
abbrev pub purge : String → Dict String → Dict String
purge id bindings = keep (λ b. not (str_eq b.1 id)) bindings

abbrev is_latency : EvictionReason → Bool
is_latency absolute_latency = true
is_latency _ = false

module _ (fl : Floats) {R : Type 0} (heap : Heap (Server fl.Float)) (rem : Remediation fl.Float R)
    (c : Settings fl.Float) where
  open fl use {Float, lt, le, add, sub, div, of_nat}

  unfoldable pub complete_eviction :
      Float → EvictionReason → Server Float → Cluster Float R → Cluster Float R
  complete_eviction now reason s k = record k {
    outer_ring = heap.heappush (record s { position = outer; last_rotated = now }) k.outer_ring;
    notices = k.notices ++ evicted s.id reason ∷ [];
    remediator = rem.on_eviction k.remediator s.id;
  }

  -- The server as `_move_to_outer` leaves it; the floor of an evicted temperature is 0.8.
  unfoldable pub cool_down : Float → EvictionReason → Server Float → Server Float
  cool_down now reason s = record s {
    total_inner_time = add s.total_inner_time (sub now s.last_rotated);
    last_rotated = now;
    rotation_count = s.rotation_count + 1;
    consecutive_evictions = s.consecutive_evictions + 1;
    temperature =
        if is_latency reason
        then py_max fl s.temperature (div (of_nat 8) (of_nat 10))
        else s.temperature;
  }

  -- Open connections keep the server in the draining dict.
  unfoldable pub drains : Server Float → Cluster Float R → Bool
  drains s k =
      lt (of_nat 0) c.ws_drain_timeout
      && ltb 0 s.active_connections
      && not (has_key s.id k.draining_servers)

  unfoldable pub move_to_outer :
      Float → EvictionReason → Server Float → Cluster Float R → Cluster Float R
  unfolding complete_eviction cool_down drains
  move_to_outer now reason s k =
      let s' = cool_down now reason s in
      let k' = record k {
        affinity_map = purge s.id k.affinity_map;
        inner_ring = remove_server_from s.id k.inner_ring;
      } in
      if drains s' k'
      then record k' {
        draining_servers =
            assign s.id (record s' { position = draining }, now, reason) k.draining_servers;
      }
      else complete_eviction now reason s' k'

  unfoldable pub warm_up : Float → Server Float → Server Float
  warm_up now s = record s {
    total_outer_time = add s.total_outer_time (sub now s.last_rotated);
    position = inner;
    last_rotated = now;
    rotation_count = s.rotation_count + 1;
  }

  unfoldable pub move_to_inner : Float → Server Float → Cluster Float R → Cluster Float R
  unfolding warm_up
  move_to_inner now s k =
      let s' = warm_up now s in
      let recovered = le s'.temperature k.cool_threshold in
      record k {
        inner_ring =
            k.inner_ring
            ++ (if recovered then record s' { consecutive_evictions = 0 } else s') ∷ [];
        remediator = if recovered then rem.on_recovery k.remediator s.id else k.remediator;
        notices = k.notices ++ promoted s.id ∷ [];
      }

  -- One round of `_maybe_pull_from_outer` on the servers of the outer ring, and the loop; a round
  -- takes one server off the outer ring, so its length is fuel enough.
  abbrev pub pull_next :
      (Cluster Float R → Cluster Float R)
      → Float
      → Cluster Float R
      → List (Server Float)
      → Cluster Float R
  pull_next loop now k [] = k
  pull_next loop now k (s ∷ rest) =
      let more = loop (move_to_inner now s (record k { outer_ring = heap.heappop s rest })) in
      if ltb (length k.inner_ring) c.min_inner_size then more else k

  unfoldable pub pull_from_outer : ℕ → Float → Cluster Float R → Cluster Float R
  pull_from_outer zero now k = k
  pull_from_outer (suc n) now k = pull_next (pull_from_outer n now) now k k.outer_ring

  unfoldable pub maybe_pull_from_outer : Float → Cluster Float R → Cluster Float R
  unfolding pull_from_outer
  maybe_pull_from_outer now k = pull_from_outer (length k.outer_ring) now k
