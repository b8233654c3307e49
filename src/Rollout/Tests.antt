-- ===== src/Rollout/Tests.antt =====
-- Three nodes of which one is dead, in batches of one.
use huddle_cluster.Base.{◌≡◌, refl, String, true, false, none, List, [], ◌∷◌, ◌++◌, arith, ◌⊎◌}
use huddle_cluster.Master.{alive, dead, quarantined}
use huddle_cluster.Rollout.Plan.{NodeView, alive_first, batches, sorted_nodes, ids}
use huddle_cluster.Rollout.Control.{in_hand, run-aborted, abort-in_pause}
use huddle_cluster.Rollout.Progress.{rolled, rolled-prefix, rolled-done}
use huddle_cluster.Rollout.Finish.{turns, run-turns}
use huddle_cluster.Rollout.{
  idle, running, done, paused, Batch, Place, at_tests, in_pause, ended, Rollout, start_rollout,
  any_failed, Finishing, Results, Event, pauses, aborts, works, run,
}

abbrev a : NodeView
a = record { node_id = "a"; status = quarantined; death_count = 0 }

abbrev b : NodeView
b = record { node_id = "b"; status = alive; death_count = 2 }

abbrev c : NodeView
c = record { node_id = "c"; status = dead; death_count = 5 }

abbrev view : List NodeView
view = a ∷ b ∷ c ∷ []

abbrev in_order : Finishing
in_order = record { finishing = λ b. b; tally-finishing = λ p b. refl }

abbrev good : Results
good = record { error_of = λ id. none; order = in_order }

abbrev fresh : Rollout
fresh = record {
  phase = idle;
  pause_event = false;
  abort_event = false;
  outcomes = [];
  place = ended;
  launched = [];
  notices = [];
}

abbrev at_batches : Place → Rollout
at_batches place = record fresh { phase = running; place = place }

abbrev plan : List Batch
plan = (b ∷ []) ∷ (a ∷ []) ∷ []

sorted_view : sorted_nodes alive_first view ≡ b ∷ a ∷ []
unfolding sorted_nodes
sorted_view = refl

batched_view : batches 1 (sorted_nodes alive_first view) ≡ plan
unfolding sorted_nodes batches
batched_view = refl

abbrev events : List Event
events = pauses ∷ works true good ∷ aborts ∷ works true good ∷ works true good ∷ []

run-aborted_example :
    let s = record (at_batches (in_pause (b ∷ []) ((a ∷ []) ∷ []))) { abort_event = true } in
    ((run events s).launched ≡ s.launched)
    ⊎ ((run events s).launched ≡ s.launched ++ in_hand s.place)
run-aborted_example =
    run-aborted events
      (record (at_batches (in_pause (b ∷ []) ((a ∷ []) ∷ []))) { abort_event = true }) refl

abort-in_pause_example :
    let s = record (at_batches (in_pause (b ∷ []) ((a ∷ []) ∷ []))) {
      phase = paused;
      pause_event = true;
    } in
    (run (aborts ∷ works true good ∷ works true good ∷ works true good ∷ []) s).launched ≡ "b" ∷ []
abort-in_pause_example =
    abort-in_pause (b ∷ []) ((a ∷ []) ∷ []) good
      (record (at_batches (in_pause (b ∷ []) ((a ∷ []) ∷ []))) {
        phase = paused;
        pause_event = true;
      })
      refl refl

rolled-prefix_example :
    (rest : List String) × ((rolled alive_first 1 view events fresh).launched ++ rest
      ≡ ids (sorted_nodes alive_first view))
rolled-prefix_example = rolled-prefix alive_first 1 view events fresh (omega arith) refl

rolled-done_example :
    (rolled alive_first 1 view (turns in_order plan) fresh).launched
    ≡ ids (sorted_nodes alive_first view)
unfolding run start_rollout sorted_nodes batches any_failed
rolled-done_example =
    rolled-done alive_first 1 view (turns in_order plan) fresh (omega arith) refl refl

run-turns_example : (run (turns in_order plan) (at_batches (at_tests plan))).phase ≡ done
run-turns_example = run-turns in_order plan (at_batches (at_tests plan)) refl (refl, refl)
