-- ===== src/Rollout/Control.antt =====
-- What a rollout does under pauses, resumes and aborts in any order.
use huddle_cluster.Base.{
  ◌≡◌, ◌∙◌, ap, refl, String, Bool, true, false, List, [], ◌∷◌, ◌++◌, arith, ◌⊎◌, inl, assign,
}
use mathlib.Core.List.{append-nil}
use huddle_cluster.Rollout.Plan.{ids}
use huddle_cluster.Rollout.{
  paused, Batch, Place, at_tests, in_pause, at_gate, in_gate, in_batch, ended, Rollout, abort,
  Results, outcome_of, notice_of, finish_all, update_batch, work_at, work, Event, pauses, resumes,
  aborts, works, step, run,
}

finish_all-launched :
    (results : Results) (b : Batch) (s : Rollout)
    → ((finish_all results b s).launched ≡ s.launched)
      × ((finish_all results b s).abort_event ≡ s.abort_event)
      × ((finish_all results b s).phase ≡ s.phase)
      × ((finish_all results b s).pause_event ≡ s.pause_event)
unfolding finish_all
finish_all-launched results [] s = (refl, refl, refl, refl)
finish_all-launched results (n ∷ rest) s = finish_all-launched results rest (record s {
  outcomes = assign n.node_id (outcome_of (results.error_of n.node_id)) s.outcomes;
  notices = s.notices ++ notice_of n.node_id (results.error_of n.node_id) ∷ [];
})

-- A batch starts a thread for each of its nodes, and touches nothing of the control.
pub update_batch-launched :
    (results : Results) (b : Batch) (s : Rollout)
    → ((update_batch results b s).launched ≡ s.launched ++ ids b)
      × ((update_batch results b s).abort_event ≡ s.abort_event)
      × ((update_batch results b s).phase ≡ s.phase)
      × ((update_batch results b s).pause_event ≡ s.pause_event)
unfolding update_batch
update_batch-launched results b s =
    finish_all-launched results (results.order.finishing b)
      (record s { launched = s.launched ++ ids b })

-- The batch in hand, at which the tests of the events are passed or left to the pause loop.
abbrev pub in_hand : Place → List String
in_hand (at_tests bs) = []
in_hand (in_pause b bs) = ids b
in_hand (at_gate b bs) = ids b
in_hand (in_gate b bs) = ids b
in_hand (in_batch b bs) = ids b
in_hand ended = []

-- Once an abort is set it stays; a step of the thread keeps the batch in hand, calls it, or drops it.
abbrev IsBounded : Place → Rollout → Rollout → Type 0
IsBounded place s s' =
    (s'.abort_event ≡ true)
    × (((s'.launched ≡ s.launched) × ((in_hand s'.place ≡ in_hand place) ⊎ (in_hand s'.place ≡ [])))
        ⊎ ((s'.launched ≡ s.launched ++ in_hand place) × (in_hand s'.place ≡ [])))

work_at-IsBounded :
    (place : Place) (healthy : Bool) (results : Results) (s : Rollout)
    → s.abort_event ≡ true
    → in_hand s.place ≡ in_hand place
    → IsBounded place s (work_at place healthy results s)
work_at-IsBounded (at_tests []) healthy results s h e = ground arith
work_at-IsBounded (at_tests (b ∷ bs)) healthy results s h e = ground arith
work_at-IsBounded (in_pause b bs) healthy results s h e = ground arith
work_at-IsBounded (at_gate b bs) healthy results s h e = ground arith
work_at-IsBounded (in_gate b bs) healthy results s h e = ground arith
work_at-IsBounded (in_batch b bs) healthy results s h e =
    ground (arith, update_batch-launched results b s)
work_at-IsBounded ended healthy results s h e = ground arith

step-IsBounded : (e : Event) (s : Rollout) → s.abort_event ≡ true → IsBounded s.place s (step e s)
unfolding step
step-IsBounded pauses s h = ground arith
step-IsBounded resumes s h = ground arith
step-IsBounded aborts s h = ground arith
step-IsBounded (works healthy results) s h = work_at-IsBounded s.place healthy results s h refl

nothing_more :
    (es : List Event) (s : Rollout)
    → s.abort_event ≡ true
    → in_hand s.place ≡ []
    → (run es s).launched ≡ s.launched
unfolding run
nothing_more [] s h e = refl
nothing_more (m ∷ es) s h e =
    ground (arith, step-IsBounded m s h, append-nil s.launched, nothing_more es (step m s))

-- Once an abort is requested, the thread updates at most the batch that it has in hand, whatever
-- pauses, resumes and steps follow, and nothing if it has none.
pub run-aborted :
    (es : List Event) (s : Rollout)
    → s.abort_event ≡ true
    → ((run es s).launched ≡ s.launched) ⊎ ((run es s).launched ≡ s.launched ++ in_hand s.place)
unfolding run
run-aborted [] s h = inl refl
run-aborted (m ∷ es) s h =
    ground (arith, step-IsBounded m s h, nothing_more es (step m s), run-aborted es (step m s))

-- In the loop of a pause that is lifted, the thread goes to the health gate, and from there to the batch.
released :
    (b : Batch) (bs : List Batch) (results : Results) (s : Rollout)
    → s.place ≡ in_pause b bs
    → s.pause_event ≡ false
    → let s' = work true results s in (s'.place ≡ at_gate b bs) × (s'.launched ≡ s.launched)
unfolding work
released b bs results s e h = rw e (rw h (refl, refl))

gated :
    (b : Batch) (bs : List Batch) (results : Results) (s : Rollout)
    → s.place ≡ at_gate b bs
    → let s' = work true results s in (s'.place ≡ in_batch b bs) × (s'.launched ≡ s.launched)
unfolding work
gated b bs results s e = rw e (refl, refl)

batched :
    (b : Batch) (bs : List Batch) (results : Results) (s : Rollout)
    → s.place ≡ in_batch b bs
    → (work true results s).launched ≡ s.launched ++ ids b
unfolding work
batched b bs results s e = rw e (ground (arith, update_batch-launched results b s))

abort-lifts :
    (s : Rollout)
    → s.phase ≡ paused
    → let s' = (abort s).0 in
      (s'.pause_event ≡ false) × (s'.place ≡ s.place) × (s'.launched ≡ s.launched)
unfolding abort
abort-lifts s h = rw h (refl, refl, refl)

-- An abort of a paused rollout lets its thread out of the loop of the pause unseen: with a healthy
-- cluster the thread goes on to update the whole batch at which it was paused.
pub abort-in_pause :
    (b : Batch) (bs : List Batch) (results : Results) (s : Rollout)
    → s.place ≡ in_pause b bs
    → s.phase ≡ paused
    → (run (aborts ∷ works true results ∷ works true results ∷ works true results ∷ []) s).launched
      ≡ s.launched ++ ids b
unfolding run step
abort-in_pause b bs results s e h =
    let free = abort-lifts s h in
    let gate = released b bs results (abort s).0 (free.1 ∙ e) free.0 in
    let into = gated b bs results (work true results (abort s).0) gate.0 in
    batched b bs results (work true results (work true results (abort s).0)) into.0
    ∙ ap (λ c. c ++ ids b) (into.1 ∙ gate.1 ∙ free.2)
