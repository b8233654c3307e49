-- ===== src/Rollout.antt =====
-- The rolling updater: huddle_cluster_pkg/cluster_rolling_updater.py. `_do_rollout` runs in a thread of
-- its own; its places are the tests of the events, the health gate and the batch, and the calls of
-- `pause`, `resume` and `abort` fall between two of its steps.
pub mod Plan
pub mod Control
pub mod Progress
pub mod Finish
mod Tests
use huddle_cluster.Base.{
  ℕ, ◌≡◌, String, Bool, true, false, not, ◌&&◌, ◌||◌, Option, none, some, List, [], ◌∷◌, ◌++◌, Dict,
  get, assign, if◌then◌else◌,
}
use huddle_cluster.Ring.Outside.{tally}
use Plan.{NodeView, ids}

pub data Phase : Type 0 where
  idle running paused done aborted failed : Phase

-- The status of a `NodeOutcome`, with its error.
pub data Outcome : Type 0 where
  pending updated : Outcome
  broken : String → Outcome

pub data Notice : Type 0 where
  on_node_updated : String → Notice
  on_node_failed : String → String → Notice
  on_rollout_complete : Notice

abbrev pub Batch : Type 0
Batch = List NodeView

-- Where the thread is: before the tests of a batch, in the loop of a pause, before the health gate, in
-- the loop of the health gate, in a batch, or at its end.
pub data Place : Type 0 where
  at_tests : List Batch → Place
  in_pause at_gate in_gate in_batch : Batch → List Batch → Place
  ended : Place

pub record Rollout : Type 0 where
  pub phase : Phase
  pub pause_event : Bool
  pub abort_event : Bool
  pub outcomes : Dict Outcome
  pub place : Place
  -- the nodes whose thread for `_update_one` was started, in the order of the starts
  pub launched : List String
  pub notices : List Notice

abbrev pub is_running : Phase → Bool
is_running running = true
is_running _ = false

abbrev pub is_paused : Phase → Bool
is_paused paused = true
is_paused _ = false

unfoldable pub pause : Rollout → Rollout × Bool
pause s = if is_running s.phase then (record s { pause_event = true }, true) else (s, false)

unfoldable pub resume : Rollout → Rollout × Bool
resume s =
    if is_paused s.phase
    then (record s { phase = running; pause_event = false }, true)
    else (s, false)

unfoldable pub abort : Rollout → Rollout × Bool
abort s =
    if is_running s.phase || is_paused s.phase
    then (record s { abort_event = true; pause_event = false }, true)
    else (s, false)

abbrev all_pending : List NodeView → Dict Outcome → Dict Outcome
all_pending [] outcomes = outcomes
all_pending (n ∷ rest) outcomes = all_pending rest (assign n.node_id pending outcomes)

-- `start_rollout`, and what the thread does before its loop, with the nodes in their order and in
-- batches.
unfoldable pub start_rollout : List NodeView → List Batch → Rollout → Rollout × Bool
start_rollout nodes batches s = if is_running s.phase || is_paused s.phase then (s, false) else (
  record {
    phase = elim nodes [ [] ↦ done | _ ↦ running ];
    pause_event = false;
    abort_event = false;
    outcomes = all_pending nodes [];
    place = elim nodes [ [] ↦ ended | _ ↦ at_tests batches ];
    launched = [];
    notices = [];
  },
  true,
)

-- The order in which the threads of a batch end.
pub record Finishing : Type 0 where
  pub finishing : Batch → Batch
  pub tally-finishing : (p : NodeView → Bool) (b : Batch) → tally p (finishing b) ≡ tally p b

-- What `update_fn` and the wait for a healthy heartbeat give for a node: no error, or the error; and
-- in which order the nodes of a batch come to it.
pub record Results : Type 0 where
  pub error_of : String → Option String
  pub order : Finishing

abbrev pub outcome_of : Option String → Outcome
outcome_of none = updated
outcome_of (some error) = broken error

abbrev pub notice_of : String → Option String → Notice
notice_of id none = on_node_updated id
notice_of id (some error) = on_node_failed id error

abbrev pub has_error : Option String → Bool
has_error none = false
has_error (some error) = true

-- The ends of `_update_one`: each thread writes the outcome of its node, and makes its callback.
unfoldable pub finish_all : Results → Batch → Rollout → Rollout
finish_all results [] s = s
finish_all results (n ∷ rest) s = finish_all results rest (record s {
  outcomes = assign n.node_id (outcome_of (results.error_of n.node_id)) s.outcomes;
  notices = s.notices ++ notice_of n.node_id (results.error_of n.node_id) ∷ [];
})

-- The threads of a batch are started one after the other, run in parallel, and are all joined.
unfoldable pub update_batch : Results → Batch → Rollout → Rollout
unfolding finish_all
update_batch results b s =
    finish_all results (results.order.finishing b) (record s { launched = s.launched ++ ids b })

unfoldable pub any_failed : Results → Batch → Bool
any_failed results [] = false
any_failed results (n ∷ rest) = has_error (results.error_of n.node_id) || any_failed results rest

abbrev pub stop : Phase → Rollout → Rollout
stop phase s = record s { phase = phase; place = ended }

-- One step of the thread; `healthy` is what the health gate finds.
abbrev pub work_at : Place → Bool → Results → Rollout → Rollout
work_at (at_tests []) healthy results s = record (stop done s) {
  notices = s.notices ++ on_rollout_complete ∷ [];
}
work_at (at_tests (b ∷ bs)) healthy results s =
    if s.abort_event
    then stop aborted s
    else if s.pause_event
    then record s { phase = paused; place = in_pause b bs }
    else record s { place = at_gate b bs }
work_at (in_pause b bs) healthy results s =
    if s.pause_event
    then if s.abort_event then stop aborted s else s
    else record s { place = at_gate b bs }
work_at (at_gate b bs) healthy results s =
    if healthy
    then record s { place = in_batch b bs }
    else record s { phase = paused; place = in_gate b bs }
work_at (in_gate b bs) healthy results s =
    if healthy
    then record s { phase = running; place = in_batch b bs }
    else if s.abort_event
    then stop aborted s
    else s
work_at (in_batch b bs) healthy results s =
    let s' = update_batch results b s in
    if any_failed results b then stop failed s' else record s' { place = at_tests bs }
work_at ended healthy results s = s

unfoldable pub work : Bool → Results → Rollout → Rollout
unfolding update_batch
work healthy results s = work_at s.place healthy results s

-- What happens to a rollout, in any order.
pub data Event : Type 0 where
  pauses resumes aborts : Event
  works : Bool → Results → Event

unfoldable pub step : Event → Rollout → Rollout
unfolding pause resume abort work
step pauses s = (pause s).0
step resumes s = (resume s).0
step aborts s = (abort s).0
step (works healthy results) s = work healthy results s

unfoldable pub run : List Event → Rollout → Rollout
unfolding step
run [] s = s
run (e ∷ es) s = run es (step e s)
