-- ===== src/Canary.antt =====
-- The canary deployment: huddle_cluster_pkg/cluster_canary_deployment.py. Every command holds the
-- lock; its callback follows, and what it raises is swallowed.
pub mod Phases
pub mod Pools
mod Tests
use huddle_cluster.Base.{
  ℕ, zero, suc, ◌+◌, ◌-◌, String, Bool, true, false, not, ◌&&◌, ◌||◌, Option, none, some, List, [],
  ◌∷◌, ◌++◌, Dict, get, if◌then◌else◌, length, drop, keep, str_eq,
}
use huddle_cluster.Base.Floats.{Floats, py_min, py_max}

pub data Phase : Type 0 where
  idle active promoted aborted : Phase

-- `CanaryEvent`, without its time and its note.
pub data CanaryEvent (F : Type 0) : Type 0 where
  start_event advance_event set_weight_event promote_event abort_event : F → CanaryEvent F

pub data Callback (F : Type 0) : Type 0 where
  on_promote on_abort : Callback F
  on_weight_change : F → Callback F

pub record Deployment (F : Type 0) : Type 0 where
  pub phase : Phase
  pub weight : F
  pub step_idx : ℕ
  pub history : List (CanaryEvent F)
  pub canary_ids : List String

-- `weight_steps` is never empty.
pub record Settings (F : Type 0) : Type 0 where
  pub canary_tag : String
  pub first_step : F
  pub later_steps : List F

-- A node as `MasterNode.nodes` shows it; no metadata is an empty dict.
pub record NodeView (J : Type 0) : Type 0 where
  pub node_id : String
  pub metadata : Dict J

abbrev pub all_steps : {F : Type 0} → Settings F → List F
all_steps c = c.first_step ∷ c.later_steps

-- The members of the set.
unfoldable pub is_member : String → List String → Bool
is_member id [] = false
is_member id (x ∷ ids) = let later = is_member id ids in if str_eq x id then true else later

abbrev pub is_active : Phase → Bool
is_active active = true
is_active _ = false

-- The phases in which traffic is split.
abbrev pub is_split : Phase → Bool
is_split active = true
is_split promoted = true
is_split _ = false

module _ {F : Type 0} where
  -- `_record` keeps the last hundred events.
  abbrev pub last_hundred : List (CanaryEvent F) → List (CanaryEvent F)
  last_hundred events = drop (length events - 100) events

  unfoldable pub record_event : CanaryEvent F → Deployment F → Deployment F
  record_event e k = record k { history = last_hundred (k.history ++ e ∷ []) }

  unfoldable pub announce_canary : String → Deployment F → Deployment F
  announce_canary id k =
      if is_member id k.canary_ids then k else record k { canary_ids = k.canary_ids ++ id ∷ [] }

  unfoldable pub remove_canary : String → Deployment F → Deployment F × Bool
  remove_canary id k =
      if is_member id k.canary_ids
      then (record k { canary_ids = keep (λ x. not (str_eq x id)) k.canary_ids }, true)
      else (k, false)

module _ (fl : Floats) where
  open fl use {Float, lt, of_nat}

  abbrev pub initial : Deployment Float
  initial = record { phase = idle; weight = of_nat 0; step_idx = 0; history = []; canary_ids = [] }

  -- `weight_steps or [5, 25, 50, 100]`
  unfoldable pub configure : String → List Float → Settings Float
  configure tag [] = record {
    canary_tag = tag;
    first_step = of_nat 5;
    later_steps = of_nat 25 ∷ of_nat 50 ∷ of_nat 100 ∷ [];
  }
  configure tag (step ∷ steps) = record { canary_tag = tag; first_step = step; later_steps = steps }

  abbrev pub or_first : Settings Float → Option Float → Float
  or_first c none = c.first_step
  or_first c (some w) = w

  -- `max(0.0, min(100.0, w))`
  unfoldable pub clamp : Float → Float
  clamp w = py_max fl (of_nat 0) (py_min fl (of_nat 100) w)

  unfoldable pub start :
      Settings Float
      → Option Float
      → Deployment Float
      → Deployment Float × Bool × List (Callback Float)
  unfolding record_event
  start c weight k =
      let w = clamp (or_first c weight) in
      if is_active k.phase then (k, false, []) else (
        record_event (start_event w) (record k { phase = active; step_idx = 0; weight = w }),
        true,
        on_weight_change w ∷ [],
      )

  abbrev pub advanced :
      Deployment Float → List Float → Deployment Float × Bool × List (Callback Float)
  advanced k [] = (k, false, [])
  advanced k (step ∷ steps) = (
    record_event (advance_event step) (record k { weight = step; step_idx = k.step_idx + 1 }),
    true,
    on_weight_change step ∷ [],
  )

  unfoldable pub advance :
      Settings Float → Deployment Float → Deployment Float × Bool × List (Callback Float)
  unfolding record_event
  advance c k =
      if is_active k.phase
      then advanced k (keep (λ step. lt k.weight step) (all_steps c))
      else (k, false, [])

  unfoldable pub set_weight :
      Float → Deployment Float → Deployment Float × Bool × List (Callback Float)
  unfolding record_event
  set_weight weight k =
      let w = clamp weight in
      if is_active k.phase
      then (
        record_event (set_weight_event w) (record k { weight = w }),
        true,
        on_weight_change w ∷ [],
      )
      else (k, false, [])

  unfoldable pub promote : Deployment Float → Deployment Float × Bool × List (Callback Float)
  unfolding record_event
  promote k =
      if is_active k.phase
      then (
        record_event (promote_event (of_nat 100))
            (record k { phase = promoted; weight = of_nat 100 }),
        true,
        on_promote ∷ [],
      )
      else (k, false, [])

  unfoldable pub abort : Deployment Float → Deployment Float × Bool × List (Callback Float)
  unfolding record_event
  abort k =
      if is_active k.phase
      then (
        record_event (abort_event (of_nat 0)) (record k { phase = aborted; weight = of_nat 0 }),
        true,
        on_abort ∷ [],
      )
      else (k, false, [])

-- `view` is what a node shows of itself.
module _ (fl : Floats) {A J : Type 0} (view : A → NodeView J) (text : J → String) where
  open fl use {Float, lt}

  -- `text` is `str(val).strip().lower()`.
  abbrev pub is_yes : String → Bool
  is_yes val = str_eq val "true" || str_eq val "1" || str_eq val "yes"

  abbrev pub tagged : Option J → Bool
  tagged none = false
  tagged (some val) = is_yes (text val)

  unfoldable pub is_canary : Settings Float → List String → A → Bool
  is_canary c ids n = is_member (view n).node_id ids || tagged (get c.canary_tag (view n).metadata)

  -- The choice between the two pools; `draw` is what `random.uniform(0, 100)` returns.
  abbrev pub choose : Float → Float → List A → List A → List A → List A
  choose draw weight nodes [] [] = nodes
  choose draw weight nodes [] (s ∷ stable) = s ∷ stable
  choose draw weight nodes (n ∷ canary) [] = n ∷ canary
  choose draw weight nodes (n ∷ canary) (s ∷ stable) =
      if lt draw weight then n ∷ canary else s ∷ stable

  unfoldable pub pick_pool : Settings Float → Float → List A → Deployment Float → List A
  unfolding is_canary
  pick_pool c draw nodes k =
      if is_split k.phase
      then choose draw k.weight nodes (keep (is_canary c k.canary_ids) nodes)
          (keep (λ n. not (is_canary c k.canary_ids n)) nodes)
      else nodes
