-- ===== src/Breaker/Tests.antt =====
-- The circuit breaker on small inputs: rates in percent, times in seconds.
use huddle_cluster.Base.{ℕ, String, ◌≡◌, refl, true, false, some, List, [], ◌∷◌}
use huddle_cluster.Base.Dicts.{get, assign}
use huddle_cluster.Base.Floats.{whole, whole-Laws}
use huddle_cluster.Breaker.{
  BreakerState, Config, Metric, missing, rate, Report, opened, half_open, evaluate_node, evaluate,
  fresh, is_open, reset,
}
use huddle_cluster.Breaker.History.{Call, evaluates, resets, trips, step, run, run-is_open}

abbrev half : Config ℕ
half = record { trip_threshold = 50; reset_timeout_sec = 30 }

abbrev report : String → Metric ℕ → Report ℕ
report node_id m = record { node_id = node_id; error_rate = m }

-- web-1 fails at 10 s, is silent at 45 s, fails again at 50 s and recovers at 55 s.
abbrev outage : List (Call ℕ)
outage =
    evaluates 10 (report "web-1" (rate 80) ∷ report "web-2" (rate 3) ∷ [])
    ∷ evaluates 45 (report "web-1" missing ∷ [])
    ∷ evaluates 50 (report "web-1" (rate 90) ∷ [])
    ∷ []

abbrev recovery : List (Call ℕ)
recovery = evaluates 55 (report "web-1" (rate 20) ∷ []) ∷ resets "web-2" ∷ []

abbrev tripped : BreakerState ℕ
tripped = record {
  node_id = "web-1";
  state = opened;
  tripped_at = some 10;
  last_error_rate = 80;
  trip_count = 1;
}

web_1_blocked : is_open whole "web-1" (run whole half outage []).0 ≡ true
unfolding is_open run step evaluate evaluate_node fresh get assign
web_1_blocked = refl

recovery_closes :
    is_open whole "web-1" (run whole half recovery (run whole half outage []).0).0 ≡ false
unfolding is_open run step reset evaluate evaluate_node fresh get assign
recovery_closes = refl

window_opens : (evaluate_node whole half 40 missing tripped).0.state ≡ half_open
unfolding evaluate_node
window_opens = refl

one_trip : trips (run whole half outage []).1 ≡ 1
unfolding run step evaluate evaluate_node fresh get assign
one_trip = refl

run-is_open_example :
    is_open whole "web-1" (run whole half outage (("web-1", tripped) ∷ [])).0 ≡ true
unfolding is_open get
run-is_open_example =
    run-is_open whole whole-Laws half "web-1" outage (("web-1", tripped) ∷ [])
      ((refl, (refl, tt)), ((refl, tt), ((refl, tt), tt))) refl
