-- ===== src/Master/Tests.antt =====
-- The node registry on small inputs: times in seconds, `strip` the identity.
use huddle_cluster.Base.{ℕ, ◌≡◌, refl, String, true, false, none, some, List, [], ◌∷◌, arith, Every}
use huddle_cluster.Base.Dicts.{get, assign, pop, has_key}
use huddle_cluster.Base.Floats.{whole}
use huddle_cluster.Master.{
  NodeRecord, Settings, alive, quarantined, JoinData, int, beat, handle_heartbeat, new_record,
}
use huddle_cluster.Master.Join.{handle_join, validate}
use huddle_cluster.Master.Monitor.{judge, record_death, sweep, pop_all, check_heartbeats}
use huddle_cluster.Master.Registry.{IsSound}
use huddle_cluster.Master.History.{Call, joins, beats, monitors, run, step, run-IsSound}
use huddle_cluster.Master.Probation.{beat_all, beat_all-status}
use huddle_cluster.Master.Timeouts.{reports_dead, check_heartbeats-get}
use huddle_cluster.Master.Health.{Alternates, run_checks, run_checks-Alternates}
use huddle_cluster.Master.Joining.{Joined, handle_join-Joined}

abbrev settings : Settings ℕ
settings = record {
  timeout = 10;
  flap_window = 100;
  flap_threshold = 2;
  quarantine_recovery = 3;
  purge_after = some 60;
  unhealthy_alive_ratio = some 1;
}

abbrev same : String → String
same s = s

abbrev request : JoinData ℕ
request = record {
  node_id = some "web-1";
  address = some "10.0.0.1";
  port = int 8080;
  metadata = none;
}

-- web-1 joins, times out twice, and comes back each time.
abbrev flapping : List (Call ℕ ℕ)
flapping =
    joins 0 request none
    ∷ monitors 20
    ∷ beats 21 "web-1" none
    ∷ monitors 40
    ∷ beats 41 "web-1" none
    ∷ []

abbrev suspect : NodeRecord ℕ ℕ
suspect = record {
  node_id = "web-1";
  address = "10.0.0.1";
  port = 8080;
  metadata = [];
  status = quarantined;
  joined_at = 0;
  last_heartbeat = 41;
  heartbeat_count = 2;
  metrics = [];
  death_count = 2;
  recent_deaths = 20 ∷ 40 ∷ [];
  consecutive_alive_heartbeats = 1;
  tls_client_cn = none;
}

flapping_quarantines : get "web-1" (run whole same settings flapping []) ≡ some suspect
unfolding run step handle_join handle_heartbeat check_heartbeats sweep pop_all judge record_death
    validate new_record beat get assign pop
flapping_quarantines = refl

run-IsSound_example : Every (IsSound settings) (run whole same settings flapping [])
run-IsSound_example = run-IsSound whole same settings flapping

beat_all-status_example :
    (beat_all whole settings ((42, none) ∷ (43, none) ∷ []) suspect).status ≡ alive
beat_all-status_example =
    beat_all-status whole settings ((42, none) ∷ (43, none) ∷ []) suspect refl (omega arith)

suspect-IsSound : IsSound settings "web-1" suspect
suspect-IsSound = ground arith

check_heartbeats-get_example :
    reports_dead "web-1" (check_heartbeats whole settings 60 (("web-1", suspect) ∷ [])).1 ≡ true
unfolding judge get has_key
check_heartbeats-get_example =
    (check_heartbeats-get whole settings 60 "web-1" (("web-1", suspect) ∷ []) (suspect-IsSound, tt)
      (refl, tt)).1

run_checks-Alternates_example :
    Alternates false
      (run_checks whole settings
        ((("web-1", suspect) ∷ []) ∷ [] ∷ (("web-1", suspect) ∷ []) ∷ [])
        false).1
run_checks-Alternates_example =
    run_checks-Alternates whole settings
      ((("web-1", suspect) ∷ []) ∷ [] ∷ (("web-1", suspect) ∷ []) ∷ []) false

handle_join-Joined_example :
    Joined whole settings 50 none none
      (("web-1", suspect) ∷ [])
      "web-1"
      (validate same request)
      (handle_join whole same settings 50 request none (("web-1", suspect) ∷ []))
handle_join-Joined_example =
    handle_join-Joined whole settings 50 same request none (("web-1", suspect) ∷ []) "web-1"
