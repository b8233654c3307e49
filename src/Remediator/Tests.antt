-- ===== src/Remediator/Tests.antt =====
-- A remediator with one policy, whose action succeeds, and two servers of which one is in quarantine.
use huddle_cluster.Base.{
  has, add_to, ℕ, ◌<◌, ◌≡◌, refl, String, true, none, some, List, [], ◌∷◌, arith, All, get, assign,
}
use huddle_cluster.Base.Floats.{whole, whole-Laws}
use huddle_cluster.Ring.Outside.{Heap}
use huddle_cluster.Ring.{Server, Settings, Position, inner, outer, Cluster}
use huddle_cluster.Ring.Rotate.{rotate}
use huddle_cluster.Remediator.Action.{
  RemediationPolicy, consecutive_overheat, python_callback, Effects,
}
use huddle_cluster.Remediator.{
  Remediator, healing, is_quarantined, record_eviction, get_server_state, begin_remediation,
  check_hourly_rate_limit, recent, put_in_quarantine, settle, dead_lettered,
}
use huddle_cluster.Remediator.Quarantine.{
  Event, evicts, recovers, begins, settles, step, run, IsConsistent, IsUndisturbed,
  run-IsConsistent,
}
use huddle_cluster.Remediator.Rings.{remediation}
use huddle_cluster.Remediator.Rotation.{rotate-is_quarantined}
use huddle_cluster.Remediator.Hourly.{actions, IsAging, actions-IsLimited}

abbrev effects : Effects
effects = record {
  replace_id = λ target id. target;
  exits_with_0 = λ command. none;
  status_of_post = λ url id. none;
}

abbrev policy : RemediationPolicy ℕ
policy = record {
  name = "overheat";
  trigger = consecutive_overheat;
  action_type = python_callback;
  action_target = "";
  action_callback = some (λ id. some true);
  consecutive_evictions_threshold = 1;
  stale_dwell_seconds = 60;
  max_retries_per_hour = 1;
  enabled = true;
}

abbrev fresh : Remediator ℕ
fresh = record {
  enabled = true;
  default_max_retries = 3;
  policies = policy ∷ [];
  states = [];
  eviction_counts = [];
  outer_ring_since = [];
  attempt_timestamps = [];
  quarantined_servers = [];
  remediation_history = [];
  total_actions = 0;
  successful_actions = 0;
  failed_actions = 0;
  throttled_actions = 0;
}

abbrev events : List (Event ℕ)
events =
    begins 4000 "a" policy
    ∷ evicts 4010 "b"
    ∷ settles "a" policy true
    ∷ begins 4020 "a" policy
    ∷ begins 8000 "a" policy
    ∷ settles "a" policy true
    ∷ recovers "a"
    ∷ []

-- The second trigger is throttled, the third one comes after the hour.
two_actions : actions whole events [] fresh ≡ (0, 1) ∷ (0, 1) ∷ []
unfolding actions step begin_remediation check_hourly_rate_limit recent put_in_quarantine settle
    dead_lettered get assign record_eviction
two_actions = refl

fresh-IsConsistent : IsConsistent whole fresh
unfolding get_server_state is_quarantined get has
fresh-IsConsistent id = refl

events-IsUndisturbed : IsUndisturbed whole events fresh
unfolding step begin_remediation check_hourly_rate_limit recent put_in_quarantine settle
    dead_lettered get assign record_eviction is_quarantined has add_to
events-IsUndisturbed = (tt, (tt, (refl, (tt, (tt, (refl, (tt, tt)))))))

run-IsConsistent_example : IsConsistent whole (run whole events fresh)
run-IsConsistent_example =
    run-IsConsistent whole events fresh events-IsUndisturbed fresh-IsConsistent

whole-IsAging : IsAging whole
whole-IsAging a b t h k = ground arith

actions-IsLimited_example : All (λ x. x.0 < x.1) (actions whole events [] fresh)
actions-IsLimited_example =
    actions-IsLimited whole whole-Laws whole-IsAging events 4000 fresh refl
      (refl, (refl, (refl, tt)))

abbrev plain : Heap (Server ℕ)
plain = record { heappush = λ x xs. x ∷ xs; heappop = λ x xs. xs; heapify = λ xs. xs }

abbrev settings : Settings ℕ
settings = record {
  max_inner_size = 2;
  min_inner_size = 1;
  rotation_cooldown_sec = 5;
  min_outer_dwell_sec = 5;
  cold_start_sec = 0;
  absolute_latency_floor_ms = none;
  circuit_breaker_threshold = 1;
  ws_drain_timeout = 30;
}

abbrev server : String → Position → Server ℕ
server id position = record {
  id = id;
  weight = 1;
  temperature = 0;
  position = position;
  is_healthy = true;
  error_rate = 0;
  avg_response_ms = 10;
  active_connections = 0;
  last_rotated = 0;
  total_inner_time = 0;
  total_outer_time = 0;
  rotation_count = 0;
  consecutive_evictions = 0;
  cold_until = 0;
}

-- The server "c" has been treated and has cooled.
abbrev two : Cluster ℕ (Remediator ℕ)
two = record {
  inner_ring = server "a" inner ∷ [];
  outer_ring = server "c" outer ∷ [];
  draining_servers = [];
  affinity_map = [];
  heat_threshold = 1;
  cool_threshold = 0;
  remediator = record fresh { states = ("c", healing) ∷ []; quarantined_servers = "c" ∷ [] };
  notices = [];
}

rotate-is_quarantined_example :
    is_quarantined whole
      (rotate whole plain (remediation whole effects 5000) settings none none 5000 two).remediator
      "c"
    ≡ true
unfolding is_quarantined has
rotate-is_quarantined_example =
    rotate-is_quarantined whole plain effects 5000 settings none none 5000 "c" two refl
