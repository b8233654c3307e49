-- ===== src/Rollout/Finish.antt =====
-- A rollout with a healthy cluster and no failed node comes to its end.
use huddle_cluster.Base.{◌≡◌, ◌∙◌, refl, sym, subst, true, false, none, List, [], ◌∷◌}
use huddle_cluster.Rollout.Control.{update_batch-launched}
use huddle_cluster.Rollout.{
  done, Batch, at_tests, at_gate, in_batch, Rollout, Finishing, Results, any_failed, work_at, work,
  Event, works, step, run,
}

-- No node fails, and those of a batch end in some order.
abbrev pub updates : Finishing → Results
updates order = record { error_of = λ id. none; order = order }

any_failed-updates : (order : Finishing) (b : Batch) → any_failed (updates order) b ≡ false
unfolding any_failed
any_failed-updates order [] = refl
any_failed-updates order (n ∷ rest) = any_failed-updates order rest

-- The steps of a thread over some batches, and the last one that finds none left.
abbrev pub turns : Finishing → List Batch → List Event
turns order [] = works true (updates order) ∷ []
turns order (b ∷ bs) =
    works true (updates order)
    ∷ works true (updates order)
    ∷ works true (updates order)
    ∷ turns order bs

-- No event is set.
abbrev pub IsFree : Rollout → Type 0
IsFree s = (s.abort_event ≡ false) × (s.pause_event ≡ false)

tests-turn :
    (order : Finishing) (b : Batch) (bs : List Batch) (s : Rollout)
    → s.place ≡ at_tests (b ∷ bs)
    → IsFree s
    → let s' = work true (updates order) s in (s'.place ≡ at_gate b bs) × IsFree s'
unfolding work
tests-turn order b bs s e h = rw e (rw h.0 (rw h.1 (refl, (refl, refl))))

gate-turn :
    (order : Finishing) (b : Batch) (bs : List Batch) (s : Rollout)
    → s.place ≡ at_gate b bs
    → IsFree s
    → let s' = work true (updates order) s in (s'.place ≡ in_batch b bs) × IsFree s'
unfolding work
gate-turn order b bs s e h = rw e (refl, h)

in_batch-turn :
    (order : Finishing) (b : Batch) (bs : List Batch) (s : Rollout)
    → IsFree s
    → let s' = work_at (in_batch b bs) true (updates order) s in
      (s'.place ≡ at_tests bs) × IsFree s'
in_batch-turn order b bs s h =
    let kept = update_batch-launched (updates order) b s in
    rw (any_failed-updates order b) (refl, (kept.1 ∙ h.0, kept.3 ∙ h.1))

batch-turn :
    (order : Finishing) (b : Batch) (bs : List Batch) (s : Rollout)
    → s.place ≡ in_batch b bs
    → IsFree s
    → let s' = work true (updates order) s in (s'.place ≡ at_tests bs) × IsFree s'
unfolding work
batch-turn order b bs s e h =
    subst (λ p. let s' = work_at p true (updates order) s in (s'.place ≡ at_tests bs) × IsFree s')
      (sym e) (in_batch-turn order b bs s h)

last-turn :
    (order : Finishing) (s : Rollout)
    → s.place ≡ at_tests []
    → (work true (updates order) s).phase ≡ done
unfolding work
last-turn order s e = rw e refl

-- In a healthy cluster, without a failed node, a pause or an abort, a rollout with some batches ahead
-- is done after three steps for each batch and one more.
pub run-turns :
    (order : Finishing) (bs : List Batch) (s : Rollout)
    → s.place ≡ at_tests bs
    → IsFree s
    → (run (turns order bs) s).phase ≡ done
unfolding run step
run-turns order [] s e h = last-turn order s e
run-turns order (b ∷ bs) s e h =
    let tests = tests-turn order b bs s e h in
    let gate = gate-turn order b bs (work true (updates order) s) tests.0 tests.1 in
    let batch =
      batch-turn order b bs (work true (updates order) (work true (updates order) s)) gate.0
        gate.1 in
    run-turns order bs
      (work true (updates order) (work true (updates order) (work true (updates order) s))) batch.0
      batch.1
