-- ===== src/Ring/Tests.antt =====
-- A cluster of three servers: one is hot, one cools in the outer ring and one is healthy.
use huddle_cluster.Base.{
  has, ℕ, ◌+◌, ◌≤◌, ◌≡◌, ◌⊎◌, refl, String, Bool, true, false, none, some, List, [], ◌∷◌, arith,
  get, length,
}
use huddle_cluster.Base.Floats.{whole}
use huddle_cluster.Ring.Retries.{get_server_excluding, is_fresh, get_server_excluding-is_fresh}
use huddle_cluster.Ring.Outside.{Heap, HeapLaws, Remediation, tally}
use huddle_cluster.Ring.{
  Server, Settings, inner, outer, draining, manual, Position, Cluster, is_overheated, move_to_outer,
  remove_server_from, is_cold_start, move_to_inner, is_cooled, complete_eviction, warm_up,
  cool_down, drains, evicted, promoted, overheated,
}
use huddle_cluster.Ring.Rotate.{
  rotate, to_evict, alert_degraded, evict_failing, promote_cooled, evict_all, max_evict, candidates,
  reason_of, breaches, may_return, circuit_open,
}
use huddle_cluster.Ring.Routing.{find_server, get_server, remove_server}
use huddle_cluster.Ring.Population.{is_filed_under, population}
use huddle_cluster.Ring.Conservation.{rotate-population}
use huddle_cluster.Ring.Sizes.{rotate-size}
use huddle_cluster.Ring.Serving.{serve, somes, serve-round, get_server-sticks}
use huddle_cluster.Ring.{maybe_pull_from_outer}
use huddle_cluster.Ring.Refill.{maybe_pull_from_outer-refills}

-- A heap that keeps its first item in place, for examples.
abbrev second_place : Server ℕ → List (Server ℕ) → List (Server ℕ)
second_place x [] = x ∷ []
second_place x (y ∷ ys) = y ∷ x ∷ ys

abbrev plain : Heap (Server ℕ)
plain = record { heappush = second_place; heappop = λ x xs. xs; heapify = λ xs. xs }

tally-second_place :
    (p : Server ℕ → Bool) (x : Server ℕ) (xs : List (Server ℕ))
    → tally p (second_place x xs) ≡ tally p (x ∷ xs)
tally-second_place p x [] = refl
tally-second_place p x (y ∷ ys) = omega arith

plain-HeapLaws : HeapLaws plain
plain-HeapLaws = record {
  heappush-tally = tally-second_place;
  heappop-tally = λ p x xs. refl;
  heapify-tally = λ p xs. refl;
}

-- A remediator that counts evictions and quarantines nothing.
abbrev quiet : Remediation ℕ ℕ
quiet = record {
  is_quarantined = λ r id. false;
  on_eviction = λ r id. r + 1;
  on_recovery = λ r id. r;
  on_circuit_open = λ r id. r;
  on_stale_check = λ r. r;
}

-- Temperatures in whole numbers, so that weight 1 leaves a threshold of 1.
abbrev server : String → ℕ → Position → ℕ → Server ℕ
server id temperature position connections = record {
  id = id;
  weight = 1;
  temperature = temperature;
  position = position;
  is_healthy = true;
  error_rate = 0;
  avg_response_ms = 10;
  active_connections = connections;
  last_rotated = 0;
  total_inner_time = 0;
  total_outer_time = 0;
  rotation_count = 0;
  consecutive_evictions = 0;
  cold_until = 0;
}

abbrev settings : Settings ℕ
settings = record {
  max_inner_size = 2;
  min_inner_size = 1;
  rotation_cooldown_sec = 5;
  min_outer_dwell_sec = 5;
  cold_start_sec = 0;
  absolute_latency_floor_ms = none;
  circuit_breaker_threshold = 1;
  ws_drain_timeout = 30;
}

abbrev three : Cluster ℕ ℕ
three = record {
  inner_ring = server "a" 2 inner 0 ∷ server "b" 0 inner 0 ∷ [];
  outer_ring = server "c" 0 outer 0 ∷ [];
  draining_servers = [];
  affinity_map = [];
  heat_threshold = 1;
  cool_threshold = 0;
  remediator = 0;
  notices = [];
}

abbrev waiting : Cluster ℕ ℕ
waiting = record three { draining_servers = ("d", (server "d" 0 draining 0, 3, manual)) ∷ [] }

rotate_swaps :
    (rotate whole plain quiet settings none none 20 three).notices
    ≡ evicted "a" overheated ∷ promoted "c" ∷ []
unfolding rotate alert_degraded evict_failing promote_cooled evict_all to_evict max_evict candidates
    reason_of breaches is_overheated move_to_outer remove_server_from may_return is_cold_start
    move_to_inner is_cooled complete_eviction warm_up cool_down drains circuit_open
rotate_swaps = refl

rotate-population_example :
    population "a" (rotate whole plain quiet settings none none 20 three) ≡ population "a" three
rotate-population_example =
    rotate-population whole plain quiet settings plain-HeapLaws "a" none none 20 three

rotate-size_example :
    (1 ≤ length (rotate whole plain quiet settings none none 20 three).inner_ring)
    × (length (rotate whole plain quiet settings none none 20 three).inner_ring ≤ 2)
rotate-size_example =
    rotate-size whole plain quiet settings 1 none none 20 three (omega arith) (omega arith)
      (omega arith)

-- A server that drains is not found by `remove_server`.
remove_draining : (remove_server whole plain quiet settings 20 "d" waiting).1 ≡ false
unfolding remove_server find_server
remove_draining = refl

serve-round_example : serve whole (length three.inner_ring) three ≡ (somes three.inner_ring, three)
serve-round_example = serve-round whole three

get_server-sticks_example :
    get_server whole [] 0 (some "user") (get_server whole [] 0 (some "user") three).1
    ≡ (some (server "a" 2 inner 0), (get_server whole [] 0 (some "user") three).1)
unfolding get_server get
get_server-sticks_example =
    get_server-sticks whole [] 0 "user" three (server "a" 2 inner 0) (omega arith) refl refl

one_each : (id : String) → tally (is_filed_under id) waiting.draining_servers ≤ 1
one_each id = ground arith

-- The inner ring is empty and one server cools.
abbrev emptied : Cluster ℕ ℕ
emptied = record three { inner_ring = [] }

maybe_pull_from_outer-refills_example :
    (length (maybe_pull_from_outer whole plain quiet settings 20 emptied).outer_ring ≡ 0)
    ⊎ (1 ≤ length (maybe_pull_from_outer whole plain quiet settings 20 emptied).inner_ring)
maybe_pull_from_outer-refills_example =
    maybe_pull_from_outer-refills whole plain quiet settings plain-HeapLaws 20 emptied

get_server_excluding-is_fresh_example :
    let r = get_server_excluding whole ("a" ∷ []) three in
    (is_fresh ("a" ∷ []) r.0 ≡ true)
    × ((p : Server ℕ → Bool) → tally p r.1.inner_ring ≡ tally p three.inner_ring)
unfolding has
get_server_excluding-is_fresh_example = get_server_excluding-is_fresh whole ("a" ∷ []) three refl
