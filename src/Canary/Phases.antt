-- ===== src/Canary/Phases.antt =====
-- What the commands of a canary deployment keep, over any history of them.
use huddle_cluster.Base.{
  ◌-◌, ◌≤◌, ◌≡◌, refl, String, Bool, true, false, Option, List, [], ◌∷◌, ◌++◌, arith, ◌⊎◌, inl, inr,
  keep, In, length, length-drop, if◌then◌else◌, Bool-cases,
}
use huddle_cluster.Base.Floats.{Floats, Laws}
use huddle_cluster.Canary.{
  idle, active, is_active, promoted, aborted, CanaryEvent, start_event, advance_event,
  set_weight_event, promote_event, abort_event, Callback, Deployment, Settings, all_steps,
  record_event, last_hundred, announce_canary, remove_canary, initial, clamp, or_first, start,
  advanced, advance, set_weight, promote, abort,
}

pub data Command (F : Type 0) : Type 0 where
  starts : Option F → Command F
  advances promotes aborts : Command F
  sets : F → Command F
  announces removes : String → Command F

In-keep : {A : Type 0} (p : A → Bool) (a : A) (rest xs : List A) → keep p xs ≡ a ∷ rest → In a xs
In-keep p a rest [] h = ground arith
In-keep p a rest (x ∷ xs) h = ground (arith, In-keep p a rest xs)

keep_sound :
    {A : Type 0} (p : A → Bool) (a : A) (rest xs : List A) → keep p xs ≡ a ∷ rest → p a ≡ true
keep_sound p a rest [] h = ground arith
keep_sound p a rest (x ∷ xs) h = elim (Bool-cases (p x)) [
  | inl e ↦ ground (arith, e, h, keep_sound p a rest xs)
  | inr e ↦ ground (arith, e, h, keep_sound p a rest xs)
]

length-last_hundred :
    {F : Type 0} (events : List (CanaryEvent F)) → length (last_hundred events) ≤ 100
length-last_hundred events = omega (arith, length-drop (length events - 100) events)

-- The comparisons of 0 and 100.
pub record Percents (fl : Floats) : Type 0 where
  pub zero_le_zero : fl.le (fl.of_nat 0) (fl.of_nat 0) ≡ true
  pub zero_le_hundred : fl.le (fl.of_nat 0) (fl.of_nat 100) ≡ true
  pub hundred_le_hundred : fl.le (fl.of_nat 100) (fl.of_nat 100) ≡ true

module _ (fl : Floats) where
  open fl use {Float, lt, le, of_nat}

  -- One command, the clock and the callbacks aside.
  unfoldable pub command :
      Settings Float
      → Command Float
      → Deployment Float
      → Deployment Float × Bool × List (Callback Float)
  command c (starts weight) k = start fl c weight k
  command c advances k = advance fl c k
  command c promotes k = promote fl k
  command c aborts k = abort fl k
  command c (sets weight) k = set_weight fl weight k
  command c (announces id) k = (announce_canary id k, true, [])
  command c (removes id) k = let r = remove_canary id k in (r.0, r.1, [])

  unfoldable pub run : Settings Float → List (Command Float) → Deployment Float → Deployment Float
  unfolding command
  run c [] k = k
  run c (m ∷ ms) k = run c ms (command c m k).0

  abbrev pub IsPercent : Float → Type 0
  IsPercent w = (le (of_nat 0) w ≡ true) × (le w (of_nat 100) ≡ true)

  -- What the weight is in each phase; the log holds a hundred events.
  pub record IsProper (c : Settings Float) (k : Deployment Float) : Type 0 where
    pub stopped : (k.phase ≡ idle) ⊎ (k.phase ≡ aborted) → k.weight ≡ of_nat 0
    pub finished : k.phase ≡ promoted → k.weight ≡ of_nat 100
    pub bounded : IsPercent k.weight ⊎ In k.weight (all_steps c)
    pub short : length k.history ≤ 100

  module _ (laws : Laws fl) (percents : Percents fl) where
    pub clamp-IsPercent : (w : Float) → IsPercent (clamp fl w)
    unfolding clamp
    clamp-IsPercent w = ground (
      arith,
      percents,
      laws.lt→le w (of_nat 100),
      laws.lt→le (of_nat 0) w,
      laws.lt→le (of_nat 0) (of_nat 100),
    )

    start-IsProper :
        (c : Settings Float) (weight : Option Float) (k : Deployment Float)
        → IsProper c k
        → IsProper c (start fl c weight k).0
    unfolding start record_event
    start-IsProper c weight k h = ground (
      arith,
      h,
      clamp-IsPercent (or_first fl c weight),
      length-last_hundred (k.history ++ start_event (clamp fl (or_first fl c weight)) ∷ []),
    )

    set_weight-IsProper :
        (c : Settings Float) (weight : Float) (k : Deployment Float)
        → IsProper c k
        → IsProper c (set_weight fl weight k).0
    unfolding set_weight record_event
    set_weight-IsProper c weight k h = ground (
      arith,
      h,
      clamp-IsPercent weight,
      length-last_hundred (k.history ++ set_weight_event (clamp fl weight) ∷ []),
    )

    promote-IsProper :
        (c : Settings Float) (k : Deployment Float) → IsProper c k → IsProper c (promote fl k).0
    unfolding promote record_event
    promote-IsProper c k h =
        ground
          (arith, h, percents, length-last_hundred (k.history ++ promote_event (of_nat 100) ∷ []))

    abort-IsProper :
        (c : Settings Float) (k : Deployment Float) → IsProper c k → IsProper c (abort fl k).0
    unfolding abort record_event
    abort-IsProper c k h =
        ground (arith, h, percents, length-last_hundred (k.history ++ abort_event (of_nat 0) ∷ []))

    advanced-IsProper :
        (c : Settings Float) (k : Deployment Float) (steps : List Float)
        → keep (λ step. lt k.weight step) (all_steps c) ≡ steps
        → k.phase ≡ active
        → IsProper c k
        → IsProper c (advanced fl k steps).0
    unfolding record_event
    advanced-IsProper c k [] e a h = h
    advanced-IsProper c k (step ∷ steps) e a h = record {
      stopped = λ o. ground arith;
      finished = λ o. ground arith;
      bounded = inr (In-keep (λ step'. lt k.weight step') step steps (all_steps c) e);
      short = length-last_hundred (k.history ++ advance_event step ∷ []);
    }

    advance-IsProper :
        (c : Settings Float) (k : Deployment Float) → IsProper c k → IsProper c (advance fl c k).0
    unfolding advance
    advance-IsProper c k h =
        ground
          (arith, h, advanced-IsProper c k (keep (λ step. lt k.weight step) (all_steps c)) refl)

    command-IsProper :
        (c : Settings Float) (m : Command Float) (k : Deployment Float)
        → IsProper c k
        → IsProper c (command c m k).0
    unfolding command announce_canary remove_canary
    command-IsProper c (starts weight) k h = start-IsProper c weight k h
    command-IsProper c advances k h = advance-IsProper c k h
    command-IsProper c promotes k h = promote-IsProper c k h
    command-IsProper c aborts k h = abort-IsProper c k h
    command-IsProper c (sets weight) k h = set_weight-IsProper c weight k h
    command-IsProper c (announces id) k h = ground (arith, h)
    command-IsProper c (removes id) k h = ground (arith, h)

    run_from-IsProper :
        (c : Settings Float) (ms : List (Command Float)) (k : Deployment Float)
        → IsProper c k
        → IsProper c (run c ms k)
    unfolding run
    run_from-IsProper c [] k h = h
    run_from-IsProper c (m ∷ ms) k h = run_from-IsProper c ms _ (command-IsProper c m k h)

    -- After any history of commands the weight is 0 before the first start and after an abort, 100
    -- after a promotion, and else a percentage or one of the configured steps, which are not
    -- clamped; the log holds at most a hundred events.
    pub run-IsProper :
        (c : Settings Float) (ms : List (Command Float)) → IsProper c (run c ms (initial fl))
    run-IsProper c ms = run_from-IsProper c ms (initial fl) (ground (arith, percents))

  abbrev Answer : Type 0
  Answer = Deployment Float × Bool × List (Callback Float)

  abbrev IsSteppingUp : Settings Float → Deployment Float → Answer → Type 0
  IsSteppingUp c k r =
      (r.1 ≡ true → (lt k.weight r.0.weight ≡ true) × In r.0.weight (all_steps c))
      × (r.1 ≡ false → r ≡ (k, false, []))

  -- What an advance does with the steps above the weight.
  advanced-IsSteppingUp :
      (c : Settings Float) (k : Deployment Float) (steps : List Float)
      → keep (λ step. lt k.weight step) (all_steps c) ≡ steps
      → IsSteppingUp c k (advanced fl k steps)
  unfolding record_event
  advanced-IsSteppingUp c k [] e = (λ h. ground arith, λ h. refl)
  advanced-IsSteppingUp c k (step ∷ steps) e = (
    λ h. (
      keep_sound (λ step'. lt k.weight step') step steps (all_steps c) e,
      In-keep (λ step'. lt k.weight step') step steps (all_steps c) e,
    ),
    λ h. ground arith,
  )

  gated :
      (c : Settings Float) (k : Deployment Float) (b : Bool) (r : Answer)
      → IsSteppingUp c k r
      → ((if b then r else (k, false, [])).1 ≡ true → b ≡ true)
        × IsSteppingUp c k (if b then r else (k, false, []))
  gated c k true r h = (λ t. refl, h)
  gated c k false r h = (λ t. ground arith, (λ t. ground arith, λ t. refl))

  -- An advance that is granted takes an active deployment to a configured step above its weight; one
  -- that is refused changes nothing and calls nobody.
  advance-answer :
      (c : Settings Float) (k : Deployment Float)
      → ((advance fl c k).1 ≡ true → is_active k.phase ≡ true)
        × ((advance fl c k).1 ≡ true
            → (lt k.weight (advance fl c k).0.weight ≡ true)
              × In (advance fl c k).0.weight (all_steps c))
        × ((advance fl c k).1 ≡ false → advance fl c k ≡ (k, false, []))
  unfolding advance
  advance-answer c k =
      let r =
        gated c k (is_active k.phase)
          (advanced fl k (keep (λ step. lt k.weight step) (all_steps c)))
          (advanced-IsSteppingUp c k (keep (λ step. lt k.weight step) (all_steps c)) refl) in
      (r.0, r.1.0, r.1.1)
