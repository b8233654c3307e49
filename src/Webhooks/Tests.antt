-- ===== src/Webhooks/Tests.antt =====
-- One webhook for all events, and a delivery that succeeds at its second attempt.
use huddle_cluster.Base.{ℕ, zero, suc, ◌≡◌, refl, true, false, none, some, List, [], ◌∷◌, arith}
use huddle_cluster.Webhooks.{
  Reply, answered, http_error, raised, deliver, try_from, Settings, Webhooks,
}
use huddle_cluster.Webhooks.Attempts.{IsTried, deliver-IsTried}
use huddle_cluster.Webhooks.Queue.{
  Event, registers, dispatches, pings, works, run, IsBounded, run-IsBounded,
}

abbrev settings : Settings
settings = record {
  default_secret = none;
  max_retries = 3;
  max_history = 100;
  valid_events = "*" ∷ "node.dead" ∷ [];
  is_http = λ url. true;
}

abbrev replies : ℕ → Reply
replies (suc zero) = http_error 503 "HTTP 503: Unavailable"
replies _ = answered 200 "HTTP status 200"

abbrev late : ℕ → Reply
late (suc (suc (suc zero))) = raised "timed out"
late _ = http_error 503 "HTTP 503: Unavailable"

abbrev idle : Webhooks
idle = record { subscriptions = []; history = []; queue = []; running = true }

second_attempt :
    deliver replies 3
    ≡ record { success = true; status_code = some 200; error = none; attempts = 2 }
unfolding deliver try_from
second_attempt = refl

-- The status is of the attempt before the one that the error is of.
stale_status :
    deliver late 3
    ≡ record { success = false; status_code = some 503; error = some "timed out"; attempts = 3 }
unfolding deliver try_from
stale_status = refl

deliver-IsTried_example : IsTried replies 3 (deliver replies 3)
deliver-IsTried_example = deliver-IsTried replies settings

abbrev events : List Event
events =
    registers "wh-1" "http://x" [] none ∷ dispatches "node.dead" ∷ pings none ∷ works replies ∷ []

run-IsBounded_example : IsBounded settings (run settings events idle)
run-IsBounded_example = run-IsBounded settings events idle (omega arith, omega arith, tt)
