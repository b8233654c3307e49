-- ===== src/Scheduler.antt =====
-- The scheduler of the cluster: huddle_cluster_pkg/cluster_scheduler.py. Nodes are what
-- `MasterNode.nodes` shows of them.
pub mod Fitness
pub mod Asked
pub mod Best
pub mod Placement
pub mod Composed
mod Tests
use huddle_cluster.Base.{
  ℕ, ◌+◌, ◌-◌, String, Bool, true, false, not, Option, none, some, List, [], ◌∷◌, ◌++◌, Dict, get,
  assign, if◌then◌else◌, length, drop, keep, str_eq,
}
use huddle_cluster.Base.Floats.{Floats}
use huddle_cluster.Master.{Status, alive, dead, leaving, quarantined}
use Fitness.{Candidate, Maths, fitness}
use Asked.{Gates, Others}

pub record Report (F : Type 0) : Type 0 where
  pub node_id : String
  pub duration_ms : Option F
  pub success : Bool
  pub ts : F

-- `_heat` holds a value and the time of its last update.
pub record State (F : Type 0) : Type 0 where
  pub heat : Dict (F × F)
  pub affinity_map : Dict String
  pub workload_count : Dict ℕ
  pub reports : List (Report F)

pub record Settings (F : Type 0) : Type 0 where
  pub cooldown : F
  pub prefer_alive : Bool

abbrev pub is_alive : Status → Bool
is_alive alive = true
is_alive _ = false

abbrev pub is_quarantined : Status → Bool
is_quarantined quarantined = true
is_quarantined _ = false

-- `status not in ("dead", "leaving")`
abbrev pub is_usable : Status → Bool
is_usable dead = false
is_usable leaving = false
is_usable _ = true

-- `max(pool, key=score)`: the first of the best.
unfoldable pub best : {A F : Type 0} → (F → F → Bool) → (A → F) → A → List A → A
best lt score x [] = x
best lt score x (y ∷ rest) = best lt score (if lt (score x) (score y) then y else x) rest

-- `next((n for n in eligible if n["node_id"] == id), None)`
unfoldable pub find_node : {F : Type 0} → String → List (Candidate F) → Option (Candidate F)
find_node id [] = none
find_node id (n ∷ rest) =
    let later = find_node id rest in if str_eq n.node_id id then some n else later

abbrev pub or_zero : Option ℕ → ℕ
or_zero none = 0
or_zero (some n) = n

-- The last thousand reports are kept.
unfoldable pub record_report : {F : Type 0} → Report F → State F → State F
record_report r s =
    let reports = s.reports ++ r ∷ [] in record s { reports = drop (length reports - 1000) reports }

-- The rate limiter is asked about every node that the breaker lets through, in order; no lock is
-- held from one question to the next.
unfoldable pub unlimited :
    {F L : Type 0}
    → (String → L → L)
    → (String → L → L × Bool)
    → L
    → List (Candidate F)
    → L × List (Candidate F)
unlimited meanwhile asks l [] = (l, [])
unlimited meanwhile asks l (n ∷ rest) =
    let (l', limited) = asks n.node_id (meanwhile n.node_id l) in
    let (l'', others) = unlimited meanwhile asks l' rest in
    (l'', if limited then others else n ∷ others)

-- A narrower pool is taken only if there is one.
abbrev pub or_all : {A : Type 0} → List A → List A → List A
or_all [] pool = pool
or_all (n ∷ some_of) pool = n ∷ some_of

-- The canary deployment is asked only about a pool.
abbrev pub narrowed : {A : Type 0} → (List A → List A) → List A → List A
narrowed pick_pool [] = []
narrowed pick_pool (n ∷ rest) = pick_pool (n ∷ rest)

-- `if preferred_region: ... strip().lower()`
unfoldable pub wanted : (String → String) → Option String → Option String
wanted normal none = none
wanted normal (some region) = if str_eq region "" then none else some (normal region)

abbrev pub in_region :
    {F : Type 0} → (String → String) → Option String → List (Candidate F) → List (Candidate F)
in_region normal none pool = pool
in_region normal (some target) pool = or_all (keep (λ n. str_eq (normal n.region) target) pool) pool

module _ (fl : Floats) (maths : Maths fl.Float) (c : Settings fl.Float) where
  open fl use {Float, lt, le, add, sub, mul, div, of_nat}

  abbrev pub decayed : Float → Option (Float × Float) → Float
  decayed now none = of_nat 0
  decayed now (some (value, last)) = mul value (maths.half_power (div (sub now last) c.cooldown))

  unfoldable pub current_heat : Float → String → State Float → Float
  current_heat now id s = decayed now (get id s.heat)

  unfoldable pub apply_heat : Float → String → State Float → State Float
  unfolding current_heat
  apply_heat now id s = record s {
    heat = assign id (add (current_heat now id s) (of_nat 1), now) s.heat;
  }

  unfoldable pub score : Float → State Float → Candidate Float → Float
  unfolding current_heat
  score now s n =
      let fit = fitness fl maths n in
      if lt fit (of_nat 0)
      then sub (of_nat 0) (of_nat 1)
      else div fit (add (of_nat 1) (current_heat now n.node_id s))

  abbrev pub best_of : Float → State Float → List (Candidate Float) → Option (Candidate Float)
  best_of now s [] = none
  best_of now s (n ∷ rest) =
      let b = best lt (score now s) n rest in if le (of_nat 0) (score now s b) then some b else none

  abbrev pub or_else : {A : Type 0} → Option A → Option A → Option A
  or_else none o = o
  or_else (some a) o = some a

  -- `_select`
  unfoldable pub select : Float → State Float → List (Candidate Float) → Option (Candidate Float)
  unfolding best score
  select now s pool =
      if c.prefer_alive
      then or_else (best_of now s (keep (λ n. is_alive n.status) pool))
          (best_of now s (keep (λ n. is_quarantined n.status) pool))
      else best_of now s pool

  abbrev pub bind_key : Option String → String → Dict String → Dict String
  bind_key none id bindings = bindings
  bind_key (some key) id bindings = assign key id bindings

  abbrev pub bound : Option String → State Float → List (Candidate Float) → Option (Candidate Float)
  bound none s pool = none
  bound (some key) s pool = elim (get key s.affinity_map) [
    | none ↦ none
    | some id ↦ find_node id pool
  ]

  -- A placement: heat, count, token and binding.
  unfoldable pub place :
      {L : Type 0}
      → (String → L → L)
      → Float
      → Option String
      → Candidate Float
      → State Float
      → L
      → Option (Candidate Float) × State Float × L
  unfolding apply_heat
  place consume now key n s l = (
    some n,
    record (apply_heat now n.node_id s) {
      workload_count =
          assign n.node_id (or_zero (get n.node_id s.workload_count) + 1) s.workload_count;
      affinity_map = bind_key key n.node_id s.affinity_map;
    },
    consume n.node_id l,
  )

  abbrev pub settled :
      {L : Type 0}
      → (String → L → L)
      → Float
      → Option String
      → State Float
      → L
      → Option (Candidate Float)
      → Option (Candidate Float)
      → Option (Candidate Float) × State Float × L
  settled consume now key s l (some b) chosen = (some b, s, l)
  settled consume now key s l none none = (none, s, l)
  settled consume now key s l none (some n) = place consume now key n s l

  -- The section of `pick` that holds `_lock`, on the state and the limiter that it finds.
  unfoldable pub pick_locked :
      {L : Type 0}
      → (String → L → L)
      → Float
      → Option String
      → List (Candidate Float)
      → State Float
      → L
      → Option (Candidate Float) × State Float × L
  pick_locked consume now key pool s l =
      settled consume now key s l (bound key s pool) (select now s pool)

  -- The part of `pick` before the lock, in which other threads run: the candidates that the breaker, the rate limiter, the canary deployment and the region
  -- leave, with the limiter's state.
  unfoldable pub candidates :
      {L : Type 0}
      → Gates Float L
      → Others L
      → (String → String)
      → Option String
      → List (Candidate Float)
      → L
      → L × List (Candidate Float)
  unfolding unlimited
  candidates g w normal region nodes l =
      let usable = keep (λ n. is_usable n.status) nodes in
      let (l', pool) =
        unlimited w.asked g.is_rate_limited l (keep (λ n. not (g.is_open n.node_id)) usable) in
      (l', in_region normal (wanted normal region) (narrowed g.pick_pool pool))

  -- The whole of `pick`: `s` is the state that is there when the lock is taken.
  unfoldable pub pick :
      {L : Type 0}
      → Gates Float L
      → Others L
      → (String → String)
      → Float
      → Option String
      → Option String
      → List (Candidate Float)
      → State Float
      → L
      → Option (Candidate Float) × State Float × L
  unfolding candidates pick_locked
  pick g w normal now key region nodes s l =
      let (l', pool) = candidates g w normal region nodes l in
      pick_locked g.consume now key pool s (w.placed l')
