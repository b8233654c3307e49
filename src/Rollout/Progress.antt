-- ===== src/Rollout/Progress.antt =====
-- How far a rollout is along its plan.
use huddle_cluster.Base.{
  ℕ, ◌≡◌, ◌∙◌, sym, ap, refl, String, Bool, true, false, ◌||◌, List, [], ◌∷◌, ◌++◌, arith, ◌⊎◌, inl,
  inr, Bool-cases, if_holds, if◌then◌else◌, ◌<◌,
}
use mathlib.Core.List.{append_assoc, append-nil}
use huddle_cluster.Rollout.Plan.{
  NodeView, UpdateOrder, sorted_nodes, batches, joined, batches-joined, ids, ids-append,
}
use huddle_cluster.Rollout.Control.{update_batch-launched}
use huddle_cluster.Rollout.{
  Phase, done, running, paused, aborted, failed, Batch, Place, at_tests, in_pause, at_gate, in_gate,
  in_batch, ended, Rollout, is_running, is_paused, start_rollout, Results, update_batch, any_failed,
  stop, work_at, Event, pauses, resumes, aborts, works, step, run,
}

abbrev pub remaining : Place → List Batch
remaining (at_tests bs) = bs
remaining (in_pause b bs) = b ∷ bs
remaining (at_gate b bs) = b ∷ bs
remaining (in_gate b bs) = b ∷ bs
remaining (in_batch b bs) = b ∷ bs
remaining ended = []

abbrev pub is_done : Phase → Bool
is_done done = true
is_done _ = false

-- The nodes launched so far and the batches that remain are the plan, and a rollout that is done has no
-- batch left; or the rollout ended early, with a part of the plan left.
abbrev pub IsOnPlan : List String → Rollout → Type 0
IsOnPlan plan s =
    ((s.launched ++ ids (joined (remaining s.place)) ≡ plan)
      × (is_done s.phase ≡ true → remaining s.place ≡ []))
    ⊎ ((s.place ≡ ended)
        × (is_done s.phase ≡ false)
        × ((rest : List String) × (s.launched ++ rest ≡ plan)))

abbrev is_ended : Place → Bool
is_ended ended = true
is_ended _ = false

-- At a place before the end, the nodes launched so far and the batches that remain are the plan.
ahead :
    (place : Place) (plan : List String) (s : Rollout)
    → s.place ≡ place
    → is_ended place ≡ false
    → IsOnPlan plan s
    → s.launched ++ ids (joined (remaining place)) ≡ plan
ahead place plan s e k (inl h) = rw (sym e) h.0
ahead place plan s e k (inr h) = absurd (ground (arith, ap is_ended (sym e ∙ h.0)))

stopped :
    (rest : List String) (plan : List String) (phase : Phase) (s : Rollout)
    → is_done phase ≡ false
    → s.launched ++ rest ≡ plan
    → IsOnPlan plan (stop phase s)
stopped rest plan phase s k h = inr (refl, k, (rest, h))

-- A step that keeps the nodes launched, and leaves `b` and `bs` ahead.
moved :
    (b : Batch) (bs : List Batch) (plan : List String) (s s' : Rollout)
    → remaining s'.place ≡ b ∷ bs
    → s'.launched ≡ s.launched
    → is_done s'.phase ≡ false
    → s.launched ++ ids (joined (b ∷ bs)) ≡ plan
    → IsOnPlan plan s'
moved b bs plan s s' e k d h = inl (rw e (rw k h), λ done. absurd (ground (arith, d, done)))

-- Before the end, with a batch ahead, the phase is not done.
unfinished :
    (place : Place) (b : Batch) (bs : List Batch) (plan : List String) (s : Rollout)
    → s.place ≡ place
    → remaining place ≡ b ∷ bs
    → IsOnPlan plan s
    → is_done s.phase ≡ false
unfinished place b bs plan s e k (inl h) = elim (Bool-cases (is_done s.phase)) [
  | inl d ↦ absurd (ground (arith, h.1 d, e, k))
  | inr d ↦ d
]
unfinished place b bs plan s e k (inr h) = h.1

-- One step of the thread along the plan; before the end the phase is not done.
work_at-IsOnPlan :
    (place : Place) (healthy : Bool) (results : Results) (plan : List String) (s : Rollout)
    → s.place ≡ place
    → IsOnPlan plan s
    → IsOnPlan plan (work_at place healthy results s)
work_at-IsOnPlan (at_tests []) healthy results plan s e h =
    inl (ahead (at_tests []) plan s e refl h, λ d. refl)
work_at-IsOnPlan (at_tests (b ∷ bs)) healthy results plan s e h =
    let on = ahead (at_tests (b ∷ bs)) plan s e refl h in
    let going : IsOnPlan plan (
        if s.pause_event
        then record s { phase = paused; place = in_pause b bs }
        else record s { place = at_gate b bs }) =
      if_holds (IsOnPlan plan) s.pause_event (record s { phase = paused; place = in_pause b bs })
        (record s { place = at_gate b bs })
        (moved b bs plan s (record s { phase = paused; place = in_pause b bs }) refl refl refl on)
        (moved b bs plan s (record s { place = at_gate b bs }) refl refl
          (unfinished (at_tests (b ∷ bs)) b bs plan s e refl h) on) in
    if_holds (IsOnPlan plan) s.abort_event (stop aborted s) _
      (stopped (ids (joined (b ∷ bs))) plan aborted s refl on) going
work_at-IsOnPlan (in_pause b bs) healthy results plan s e h =
    let on = ahead (in_pause b bs) plan s e refl h in
    if_holds (IsOnPlan plan) s.pause_event (if s.abort_event then stop aborted s else s)
      (record s { place = at_gate b bs })
      (if_holds (IsOnPlan plan) s.abort_event (stop aborted s) s
        (stopped (ids (joined (b ∷ bs))) plan aborted s refl on) h)
      (moved b bs plan s (record s { place = at_gate b bs }) refl refl
        (unfinished (in_pause b bs) b bs plan s e refl h) on)
work_at-IsOnPlan (at_gate b bs) healthy results plan s e h =
    let on = ahead (at_gate b bs) plan s e refl h in
    if_holds (IsOnPlan plan) healthy (record s { place = in_batch b bs })
      (record s { phase = paused; place = in_gate b bs })
      (moved b bs plan s (record s { place = in_batch b bs }) refl refl
        (unfinished (at_gate b bs) b bs plan s e refl h) on)
      (moved b bs plan s (record s { phase = paused; place = in_gate b bs }) refl refl refl on)
work_at-IsOnPlan (in_gate b bs) healthy results plan s e h =
    let on = ahead (in_gate b bs) plan s e refl h in
    if_holds (IsOnPlan plan) healthy (record s { phase = running; place = in_batch b bs })
      (if s.abort_event then stop aborted s else s)
      (moved b bs plan s (record s { phase = running; place = in_batch b bs }) refl refl refl on)
      (if_holds (IsOnPlan plan) s.abort_event (stop aborted s) s
        (stopped (ids (joined (b ∷ bs))) plan aborted s refl on) h)
work_at-IsOnPlan (in_batch b bs) healthy results plan s e h =
    let on = ahead (in_batch b bs) plan s e refl h in
    let s' = update_batch results b s in
    let batch = update_batch-launched results b s in
    let rest = ids (joined bs) in
    let called : s'.launched ++ rest ≡ plan =
      ap (λ c. c ++ rest) batch.0
      ∙ append_assoc s.launched (ids b) rest
      ∙ ap (λ r. s.launched ++ r) (sym (ids-append b (joined bs)))
      ∙ on in
    let phase : is_done s'.phase ≡ false =
      ap is_done batch.2 ∙ unfinished (in_batch b bs) b bs plan s e refl h in
    if_holds (IsOnPlan plan) (any_failed results b) (stop failed s')
      (record s' { place = at_tests bs }) (stopped rest plan failed s' refl called)
      (inl (called, λ d. absurd (ground (arith, phase, d))))
work_at-IsOnPlan ended healthy results plan s e h = h

resumed :
    (plan : List String) (s : Rollout)
    → IsOnPlan plan s
    → IsOnPlan plan (record s { phase = running; pause_event = false })
resumed plan s (inl h) = inl (h.0, λ d. absurd (ground (arith, d)))
resumed plan s (inr h) = inr (h.0, refl, h.2)

step-IsOnPlan :
    (e : Event) (plan : List String) (s : Rollout) → IsOnPlan plan s → IsOnPlan plan (step e s)
unfolding step
step-IsOnPlan pauses plan s h =
    if_holds {A = Rollout × Bool} (λ r. IsOnPlan plan r.0) (is_running s.phase) _ (s, false) h h
step-IsOnPlan resumes plan s h =
    if_holds {A = Rollout × Bool} (λ r. IsOnPlan plan r.0) (is_paused s.phase) _ (s, false)
      (resumed plan s h) h
step-IsOnPlan aborts plan s h =
    if_holds {A = Rollout × Bool} (λ r. IsOnPlan plan r.0) (is_running s.phase || is_paused s.phase)
      _ (s, false) h h
step-IsOnPlan (works healthy results) plan s h =
    work_at-IsOnPlan s.place healthy results plan s refl h

run-IsOnPlan :
    (es : List Event) (plan : List String) (s : Rollout)
    → IsOnPlan plan s
    → IsOnPlan plan (run es s)
unfolding run
run-IsOnPlan [] plan s h = h
run-IsOnPlan (e ∷ es) plan s h = run-IsOnPlan es plan (step e s) (step-IsOnPlan e plan s h)

started :
    (nodes : List NodeView) (bs : List Batch) (s : Rollout)
    → is_running s.phase || is_paused s.phase ≡ false
    → joined bs ≡ nodes
    → IsOnPlan (ids nodes) (start_rollout nodes bs s).0
unfolding start_rollout
started [] bs s h e = rw h (inl (refl, λ d. refl))
started (x ∷ xs) bs s h e = rw h (inl (ap ids e, λ d. absurd (ground (arith, d))))

-- A rollout of the nodes that the master shows, after any events.
abbrev pub rolled : UpdateOrder → ℕ → List NodeView → List Event → Rollout → Rollout
rolled order size nodes es s =
    let plan = sorted_nodes order nodes in run es (start_rollout plan (batches size plan) s).0

rolled-IsOnPlan :
    (order : UpdateOrder) (size : ℕ) (nodes : List NodeView) (es : List Event) (s : Rollout)
    → 0 < size
    → is_running s.phase || is_paused s.phase ≡ false
    → IsOnPlan (ids (sorted_nodes order nodes)) (rolled order size nodes es s)
rolled-IsOnPlan order size nodes es s k h =
    let plan = sorted_nodes order nodes in
    run-IsOnPlan es (ids plan) (start_rollout plan (batches size plan) s).0
      (started plan (batches size plan) s h (batches-joined size plan k).0)

on_plan-prefix :
    (plan : List String) (s : Rollout)
    → IsOnPlan plan s
    → (rest : List String) × (s.launched ++ rest ≡ plan)
on_plan-prefix plan s (inl h) = (ids (joined (remaining s.place)), h.0)
on_plan-prefix plan s (inr h) = h.2

on_plan-done :
    (plan : List String) (s : Rollout) → IsOnPlan plan s → s.phase ≡ done → s.launched ≡ plan
on_plan-done plan s (inl h) d =
    sym (append-nil s.launched)
    ∙ ap (λ bs. s.launched ++ ids (joined bs)) (sym (h.1 (ap is_done d)))
    ∙ h.0
on_plan-done plan s (inr h) d = absurd (ground (arith, h.1, ap is_done d))

-- Whatever pauses, resumes, aborts and steps follow the start of a rollout, the nodes whose update was
-- started so far are the first ones of its plan, in the order of the starts: none is skipped, and none
-- is updated that is not planned. In which order the updates of a batch end is left open.
pub rolled-prefix :
    (order : UpdateOrder) (size : ℕ) (nodes : List NodeView) (es : List Event) (s : Rollout)
    → 0 < size
    → is_running s.phase || is_paused s.phase ≡ false
    → (rest : List String) × ((rolled order size nodes es s).launched ++ rest
        ≡ ids (sorted_nodes order nodes))
rolled-prefix order size nodes es s k h =
    on_plan-prefix (ids (sorted_nodes order nodes)) (rolled order size nodes es s)
      (rolled-IsOnPlan order size nodes es s k h)

-- A rollout that says it is done has started the update of every node of its plan, in order, whatever
-- the order in which the updates of a batch ended.
pub rolled-done :
    (order : UpdateOrder) (size : ℕ) (nodes : List NodeView) (es : List Event) (s : Rollout)
    → 0 < size
    → is_running s.phase || is_paused s.phase ≡ false
    → (rolled order size nodes es s).phase ≡ done
    → (rolled order size nodes es s).launched ≡ ids (sorted_nodes order nodes)
rolled-done order size nodes es s k h d =
    on_plan-done (ids (sorted_nodes order nodes)) (rolled order size nodes es s)
      (rolled-IsOnPlan order size nodes es s k h) d
