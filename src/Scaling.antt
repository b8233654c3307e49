-- ===== src/Scaling.antt =====
-- The autoscaler: huddle_cluster_pkg/cluster_autoscaler.py. A tick reads the clock once and calls
-- the callbacks of `evaluate`; what they raise is swallowed.
pub mod Cooldown
mod Tests
use huddle_cluster.Base.{
  ℕ, ◌+◌, ◌-◌, Bool, true, false, ◌&&◌, Option, none, some, List, [], ◌∷◌, ◌++◌, if◌then◌else◌, ltb,
  length, drop,
}
use huddle_cluster.Base.Floats.{Floats}

-- `SCALE_UP`, `SCALE_DOWN` and `SCALE_NONE`.
pub data Decision : Type 0 where
  scale_up scale_down scale_none : Decision

-- The sentence that the code formats, by its facts.
pub data Reason (F : Type 0) : Type 0 where
  no_reason : Reason F
  too_few too_many : ℕ → Reason F
  too_hot too_cool : Option F → Reason F

-- The direction is the sign of `recommended_delta`.
pub record ScaleEvent (F : Type 0) : Type 0 where
  pub direction : Decision
  pub reason : Reason F
  pub alive_nodes : ℕ
  pub recommended : ℕ
  pub ts : F

pub data Callback : Type 0 where
  on_scale_up on_scale_down : ℕ → Callback

pub record Settings (F : Type 0) : Type 0 where
  pub min_nodes : ℕ
  pub max_nodes : ℕ
  pub scale_up_heat_threshold : F
  pub scale_down_heat_threshold : F
  pub scale_up_cooldown_sec : F
  pub scale_down_cooldown_sec : F
  pub scale_up_step : ℕ
  pub scale_down_step : ℕ

pub record Scaler (F : Type 0) : Type 0 where
  pub last_scale_up_ts : F
  pub last_scale_down_ts : F
  pub last_decision : Decision
  pub last_reason : Reason F
  pub history : List (ScaleEvent F)

module _ (fl : Floats) where
  open fl use {Float, lt, add, sub, div, of_nat}

  abbrev pub new_scaler : Scaler Float
  new_scaler = record {
    last_scale_up_ts = of_nat 0;
    last_scale_down_ts = of_nat 0;
    last_decision = scale_none;
    last_reason = no_reason;
    history = [];
  }

  -- `_record` keeps the last 200 events; a time is set for the event's direction.
  unfoldable pub record_scale : ScaleEvent Float → Scaler Float → Scaler Float
  record_scale e k =
      let events = k.history ++ e ∷ [] in
      let k' = record k { history = drop (length events - 200) events } in
      elim e.direction [
        | scale_up ↦ record k' { last_scale_up_ts = e.ts }
        | _ ↦ record k' { last_scale_down_ts = e.ts }
      ]

  abbrev pub exceeds : Option Float → Float → Bool
  exceeds none threshold = false
  exceeds (some heat) threshold = lt threshold heat

  abbrev pub undercuts : Option Float → Float → Bool
  undercuts none threshold = false
  undercuts (some heat) threshold = lt heat threshold

  -- The decision before the cooldown.
  unfoldable pub judge : Settings Float → ℕ → Option Float → Decision × Reason Float
  judge c alive heat =
      if ltb alive c.min_nodes
      then (scale_up, too_few alive)
      else if exceeds heat c.scale_up_heat_threshold && ltb alive c.max_nodes
      then (scale_up, too_hot heat)
      else if ltb c.max_nodes alive
      then (scale_down, too_many alive)
      else if undercuts heat c.scale_down_heat_threshold && ltb c.min_nodes alive
      then (scale_down, too_cool heat)
      else (scale_none, no_reason)

  unfoldable pub is_cooling : Settings Float → Float → Decision → Scaler Float → Bool
  is_cooling c now scale_up k = lt (sub now k.last_scale_up_ts) c.scale_up_cooldown_sec
  is_cooling c now scale_down k = lt (sub now k.last_scale_down_ts) c.scale_down_cooldown_sec
  is_cooling c now scale_none k = false

  -- The action of a decision that the cooldown lets through.
  abbrev pub fire :
      Settings Float
      → Float
      → ℕ
      → Decision
      → Reason Float
      → Scaler Float
      → Scaler Float × Decision × List Callback
  fire c now alive scale_up why k = (
    record_scale
        (record {
          direction = scale_up;
          reason = why;
          alive_nodes = alive;
          recommended = c.scale_up_step;
          ts = now;
        })
        k,
    scale_up,
    on_scale_up c.scale_up_step ∷ [],
  )
  fire c now alive scale_down why k = (
    record_scale
        (record {
          direction = scale_down;
          reason = why;
          alive_nodes = alive;
          recommended = c.scale_down_step;
          ts = now;
        })
        k,
    scale_down,
    on_scale_down c.scale_down_step ∷ [],
  )
  fire c now alive scale_none why k = (k, scale_none, [])

  abbrev pub decided :
      Settings Float
      → Float
      → ℕ
      → Decision
      → Reason Float
      → Scaler Float
      → Scaler Float × Decision × List Callback
  decided c now alive d why k =
      let fired = fire c now alive d why k in
      if is_cooling c now d k then (k, scale_none, []) else fired

  -- `evaluate`; the raw decision is what the status shows.
  unfoldable pub evaluate :
      Settings Float
      → Float
      → ℕ
      → Option Float
      → Scaler Float
      → Scaler Float × Decision × List Callback
  unfolding judge is_cooling record_scale
  evaluate c now alive heat k =
      let raw = judge c alive heat in
      let (k', d, calls) = decided c now alive raw.0 raw.1 k in
      (record k' { last_decision = raw.0; last_reason = raw.1 }, d, calls)

  -- `sum`
  abbrev pub total : Float → List Float → Float
  total sum_so_far [] = sum_so_far
  total sum_so_far (x ∷ xs) = total (add sum_so_far x) xs

  -- The mean that `_tick` takes of the scheduler's heat values.
  abbrev pub avg_heat : List Float → Option Float
  avg_heat [] = none
  avg_heat (x ∷ xs) = some (div (total (of_nat 0) (x ∷ xs)) (of_nat (length (x ∷ xs))))
