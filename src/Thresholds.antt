-- ===== src/Thresholds.antt =====
-- The adaptive thresholds of huddle_cluster.py: `AdaptiveThresholdController`, which gives `rotate` its
-- two thresholds. `statistics.median` is a parameter.
pub mod Bounds
mod Tests
use huddle_cluster.Base.{
  ℕ, ◌+◌, ◌-◌, ◌/◌, Bool, true, false, List, [], ◌∷◌, ◌++◌, if◌then◌else◌, ltb, length, take, drop,
}
use huddle_cluster.Base.Floats.{Floats, py_min, py_max}

pub record Settings (F : Type 0) : Type 0 where
  pub base_heat : F
  pub base_cool : F
  pub max_delta : F
  pub window_size : ℕ
  pub adaptation_interval : F

pub record Controller (F : Type 0) : Type 0 where
  pub p95_window : List F
  pub current_heat : F
  pub current_cool : F
  pub last_adapted : F

module _ (fl : Floats) where
  open fl use {Float, div, of_nat}

  -- A decimal of two places.
  abbrev pub hundredths : ℕ → Float
  hundredths n = div (of_nat n) (of_nat 100)

module _ (fl : Floats) (median : List fl.Float → fl.Float) (c : Settings fl.Float) where
  open fl use {Float, lt, add, sub, mul, div, of_nat}

  unfoldable pub start : Float → Controller Float
  start now = record {
    p95_window = [];
    current_heat = c.base_heat;
    current_cool = c.base_cool;
    last_adapted = now;
  }

  unfoldable pub record_p95 : Float → Controller Float → Controller Float
  record_p95 p95 s =
      let longer = s.p95_window ++ p95 ∷ [] in
      record s { p95_window = drop (length longer - c.window_size) longer }

  abbrev at_least : ℕ → ℕ → ℕ
  at_least a b = if ltb a b then b else a

  -- The median of the newest samples over that of the oldest half.
  unfoldable pub ratio : List Float → Float
  ratio window =
      let half = at_least 1 (length window / 2) in
      let baseline = median (take half window) in
      let newest = median (drop (length window - at_least 3 (half / 2)) window) in
      div newest (py_max fl baseline (of_nat 1))

  unfoldable pub adjustment : Float → Float
  adjustment r =
      let t = div (sub r (hundredths fl 70)) (hundredths fl 80) in
      if lt (hundredths fl 150) r
      then c.max_delta
      else if lt r (hundredths fl 70)
      then sub (of_nat 0) c.max_delta
      else mul (sub (mul t (of_nat 2)) (of_nat 1)) c.max_delta

  unfoldable pub new_heat : Float → Float
  new_heat a = py_max fl (hundredths fl 35) (py_min fl (hundredths fl 85) (add c.base_heat a))

  unfoldable pub new_cool : Float → Float → Float
  new_cool heat a =
      py_max fl (hundredths fl 10)
        (py_min fl (sub heat (hundredths fl 15)) (add c.base_cool (mul a (hundredths fl 50))))

  unfoldable pub adapt : Float → Controller Float → Controller Float
  unfolding ratio adjustment new_heat new_cool
  adapt now s =
      let a = adjustment (ratio s.p95_window) in
      record s {
        current_heat = new_heat a;
        current_cool = new_cool (new_heat a) a;
        last_adapted = now;
      }

  unfoldable pub maybe_adapt : Float → Controller Float → Controller Float
  unfolding adapt
  maybe_adapt now s =
      if lt (sub now s.last_adapted) c.adaptation_interval
      then s
      else if ltb (length s.p95_window) c.window_size
      then s
      else adapt now s
