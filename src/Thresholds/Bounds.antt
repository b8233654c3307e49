-- ===== src/Thresholds/Bounds.antt =====
-- The thresholds stay in their range, the one for cooling under the one for heat.
use huddle_cluster.Base.{
  ◌≡◌, true, List, [], ◌∷◌, Bool-cases, inl, inr, if◌then◌else◌, ltb, length, if_holds,
}
use huddle_cluster.Base.Floats.{Floats, Laws, py_min, py_max}
use huddle_cluster.Thresholds.{
  Settings, Controller, hundredths, record_p95, new_heat, new_cool, ratio, adjustment, adapt,
  maybe_adapt,
}

-- What IEEE 754 has of the decimals that the controller uses.
pub record Decimals (fl : Floats) : Type 0 where
  pub lt_10_35 : fl.lt (hundredths fl 10) (hundredths fl 35) ≡ true
  pub le_35_35 : fl.le (hundredths fl 35) (hundredths fl 35) ≡ true
  pub lt_35_85 : fl.lt (hundredths fl 35) (hundredths fl 85) ≡ true
  pub le_85_85 : fl.le (hundredths fl 85) (hundredths fl 85) ≡ true
  -- A number of this range less 0.15 is less than it.
  pub sub_15 :
      (h : fl.Float)
      → fl.le (hundredths fl 35) h ≡ true
      → fl.le h (hundredths fl 85) ≡ true
      → fl.lt (fl.sub h (hundredths fl 15)) h ≡ true

module _ (fl : Floats) where
  open fl use {Float, lt, le}

  abbrev pub IsOrdered : Controller Float → Type 0
  IsOrdered s =
      (le (hundredths fl 35) s.current_heat ≡ true)
      × (le s.current_heat (hundredths fl 85) ≡ true)
      × (lt s.current_cool s.current_heat ≡ true)

module _ (fl : Floats) (laws : Laws fl) where
  open fl use {Float, lt, le}
  open laws use {lt→le, lt_trans}

  max-min-range :
      (lo hi x : Float)
      → lt lo hi ≡ true
      → le lo lo ≡ true
      → le hi hi ≡ true
      → (le lo (py_max fl lo (py_min fl hi x)) ≡ true)
        × (le (py_max fl lo (py_min fl hi x)) hi ≡ true)
  max-min-range lo hi x h k l = elim (Bool-cases (lt x hi)) [
    | inl t ↦ rw t (elim (Bool-cases (lt lo x)) [
      | inl u ↦ rw u (lt→le lo x u, lt→le x hi t)
      | inr u ↦ rw u (k, lt→le lo hi h)
    ])
    | inr t ↦ rw t (rw h (lt→le lo hi h, l))
  ]

  lt-max : (a lo m : Float) → lt a lo ≡ true → lt a (py_max fl lo m) ≡ true
  lt-max a lo m h = elim (Bool-cases (lt lo m)) [
    | inl t ↦ rw t (lt_trans a lo m h t)
    | inr t ↦ rw t h
  ]

  min-lt : (a y b : Float) → lt a b ≡ true → lt (py_min fl a y) b ≡ true
  min-lt a y b h = elim (Bool-cases (lt y a)) [ inl t ↦ rw t (lt_trans y a b t h) | inr t ↦ rw t h ]

module _ (fl : Floats) (median : List fl.Float → fl.Float) (c : Settings fl.Float) (laws : Laws fl)
    (d : Decimals fl) where
  open fl use {Float, lt, le, sub, add, mul}

  new_heat-range :
      (a : Float)
      → (le (hundredths fl 35) (new_heat fl median c a) ≡ true)
        × (le (new_heat fl median c a) (hundredths fl 85) ≡ true)
  unfolding new_heat
  new_heat-range a =
      max-min-range fl laws (hundredths fl 35) (hundredths fl 85) (add c.base_heat a) d.lt_35_85
        d.le_35_35 d.le_85_85

  lt-new_heat : (a : Float) → lt (hundredths fl 10) (new_heat fl median c a) ≡ true
  unfolding new_heat
  lt-new_heat a = lt-max fl laws (hundredths fl 10) (hundredths fl 35) _ d.lt_10_35

  new_cool-lt :
      (heat a : Float)
      → lt (hundredths fl 10) heat ≡ true
      → lt (sub heat (hundredths fl 15)) heat ≡ true
      → lt (new_cool fl median c heat a) heat ≡ true
  unfolding new_cool
  new_cool-lt heat a h k =
      if_holds (λ v. lt v heat ≡ true) _ _ _
        (min-lt fl laws (sub heat (hundredths fl 15)) (add c.base_cool (mul a (hundredths fl 50)))
          heat k)
        h

  adapt-IsOrdered : (now : Float) (s : Controller Float) → IsOrdered fl (adapt fl median c now s)
  unfolding adapt
  adapt-IsOrdered now s =
      let a = adjustment fl median c (ratio fl median c s.p95_window) in
      let range = new_heat-range a in
      (
        range.0,
        range.1,
        new_cool-lt (new_heat fl median c a) a (lt-new_heat a)
            (d.sub_15 (new_heat fl median c a) range.0 range.1),
      )

  maybe_adapt-IsOrdered :
      (now : Float) (s : Controller Float)
      → IsOrdered fl s
      → IsOrdered fl (maybe_adapt fl median c now s)
  unfolding maybe_adapt
  maybe_adapt-IsOrdered now s h =
      let filled =
        if_holds (IsOrdered fl) (ltb (length s.p95_window) c.window_size) s
          (adapt fl median c now s) h (adapt-IsOrdered now s) in
      if_holds (IsOrdered fl) (lt (sub now s.last_adapted) c.adaptation_interval) s
        (if ltb (length s.p95_window) c.window_size then s else adapt fl median c now s) h filled

-- A sample, or a rotation that asks for the thresholds, at a time.
pub data Event (F : Type 0) : Type 0 where
  records asks : F → Event F

module _ (fl : Floats) (median : List fl.Float → fl.Float) (c : Settings fl.Float) where
  unfoldable pub step : Event fl.Float → Controller fl.Float → Controller fl.Float
  unfolding record_p95 maybe_adapt
  step (records p95) s = record_p95 fl median c p95 s
  step (asks now) s = maybe_adapt fl median c now s

  unfoldable pub run : List (Event fl.Float) → Controller fl.Float → Controller fl.Float
  unfolding step
  run [] s = s
  run (e ∷ es) s = run es (step e s)

  -- Over any samples and times the threshold for heat stays between 0.35 and 0.85 and the one for
  -- cooling stays under it, if both are so at first.
  pub run-IsOrdered :
      (laws : Laws fl) (d : Decimals fl) (es : List (Event fl.Float)) (s : Controller fl.Float)
      → IsOrdered fl s
      → IsOrdered fl (run es s)
  unfolding run step record_p95
  run-IsOrdered laws d [] s h = h
  run-IsOrdered laws d (records p95 ∷ es) s h =
      run-IsOrdered laws d es (record_p95 fl median c p95 s) h
  run-IsOrdered laws d (asks now ∷ es) s h =
      run-IsOrdered laws d es (maybe_adapt fl median c now s)
        (maybe_adapt-IsOrdered fl median c laws d now s h)
