-- ===== src/Scaling/Cooldown.antt =====
-- The promises of the autoscaler: its recommendations respect the bounds and the cooldowns.
use huddle_cluster.Base.{
  ℕ, ◌≤◌, ◌<◌, ◌≡◌, refl, Bool, true, false, Option, List, [], ◌∷◌, arith, subst, if◌then◌else◌,
}
use huddle_cluster.Base.Floats.{Floats}
use huddle_cluster.Scaling.{
  Decision, scale_up, scale_down, scale_none, Reason, Settings, Scaler, record_scale, judge,
  is_cooling, decided, evaluate,
}

abbrev pub is_up : Decision → Bool
is_up scale_up = true
is_up _ = false

abbrev pub is_down : Decision → Bool
is_down scale_down = true
is_down _ = false

module _ (fl : Floats) where
  open fl use {Float, lt, sub}

  -- A call of `evaluate`: the time, the alive nodes and the heat.
  abbrev pub Tick : Type 0
  Tick = Float × ℕ × Option Float

  -- The times at which one direction is recommended, over any sequence of calls.
  unfoldable pub firings :
      (Decision → Bool) → Settings Float → List Tick → Scaler Float → List Float
  firings p c [] k = []
  firings p c ((now, alive, heat) ∷ ticks) k =
      let r = evaluate fl c now alive heat k in
      let later = firings p c ticks r.0 in if p r.1 then now ∷ later else later

  -- Each time is a cooldown after the one before it.
  abbrev pub IsSpaced : Float → Float → List Float → Type 0
  IsSpaced cooldown last [] = Unit
  IsSpaced cooldown last (t ∷ ts) = (lt (sub t last) cooldown ≡ false) × IsSpaced cooldown t ts

  -- A recommendation comes after its cooldown and sets its time; without one the time stays.
  record IsTimely (c : Settings Float) (now : Float) (k k' : Scaler Float) (d : Decision)
      : Type 0 where
    up : is_up d ≡ true → lt (sub now k.last_scale_up_ts) c.scale_up_cooldown_sec ≡ false
    up_set : is_up d ≡ true → k'.last_scale_up_ts ≡ now
    up_kept : is_up d ≡ false → k'.last_scale_up_ts ≡ k.last_scale_up_ts
    down : is_down d ≡ true → lt (sub now k.last_scale_down_ts) c.scale_down_cooldown_sec ≡ false
    down_set : is_down d ≡ true → k'.last_scale_down_ts ≡ now
    down_kept : is_down d ≡ false → k'.last_scale_down_ts ≡ k.last_scale_down_ts

  decided-IsTimely :
      (c : Settings Float) (now : Float) (alive : ℕ) (d : Decision) (why : Reason Float)
      (k : Scaler Float)
      → IsTimely c now k (decided fl c now alive d why k).0 (decided fl c now alive d why k).1
  unfolding is_cooling record_scale
  decided-IsTimely c now alive scale_up why k = ground arith
  decided-IsTimely c now alive scale_down why k = ground arith
  decided-IsTimely c now alive scale_none why k = ground arith

  evaluate-IsTimely :
      (c : Settings Float) (now : Float) (alive : ℕ) (heat : Option Float) (k : Scaler Float)
      → IsTimely c now k (evaluate fl c now alive heat k).0 (evaluate fl c now alive heat k).1
  unfolding evaluate
  evaluate-IsTimely c now alive heat k =
      let raw = judge fl c alive heat in
      let t = decided-IsTimely c now alive raw.0 raw.1 k in
      record {
        up = t.up;
        up_set = t.up_set;
        up_kept = t.up_kept;
        down = t.down;
        down_set = t.down_set;
        down_kept = t.down_kept;
      }

  ups :
      (c : Settings Float) (ticks : List Tick) (k : Scaler Float)
      → IsSpaced c.scale_up_cooldown_sec k.last_scale_up_ts (firings is_up c ticks k)
  unfolding firings
  ups c [] k = tt
  ups c ((now, alive, heat) ∷ ticks) k =
      go (is_up (evaluate fl c now alive heat k).1) refl
        (ups c ticks (evaluate fl c now alive heat k).0)
    where
      go :
          (b : Bool)
          → is_up (evaluate fl c now alive heat k).1 ≡ b
          → IsSpaced c.scale_up_cooldown_sec
              (evaluate fl c now alive heat k).0.last_scale_up_ts
              (firings is_up c ticks (evaluate fl c now alive heat k).0)
          → IsSpaced c.scale_up_cooldown_sec k.last_scale_up_ts (
              if b
              then now ∷ firings is_up c ticks (evaluate fl c now alive heat k).0
              else firings is_up c ticks (evaluate fl c now alive heat k).0)
      go true e h =
          let t = evaluate-IsTimely c now alive heat k in
          (
            t.up e,
            subst
                (λ last.
                  IsSpaced c.scale_up_cooldown_sec last
                    (firings is_up c ticks (evaluate fl c now alive heat k).0))
                (t.up_set e) h,
          )
      go false e h =
          subst
            (λ last.
              IsSpaced c.scale_up_cooldown_sec last
                (firings is_up c ticks (evaluate fl c now alive heat k).0))
            ((evaluate-IsTimely c now alive heat k).up_kept e) h

  downs :
      (c : Settings Float) (ticks : List Tick) (k : Scaler Float)
      → IsSpaced c.scale_down_cooldown_sec k.last_scale_down_ts (firings is_down c ticks k)
  unfolding firings
  downs c [] k = tt
  downs c ((now, alive, heat) ∷ ticks) k =
      go (is_down (evaluate fl c now alive heat k).1) refl
        (downs c ticks (evaluate fl c now alive heat k).0)
    where
      go :
          (b : Bool)
          → is_down (evaluate fl c now alive heat k).1 ≡ b
          → IsSpaced c.scale_down_cooldown_sec
              (evaluate fl c now alive heat k).0.last_scale_down_ts
              (firings is_down c ticks (evaluate fl c now alive heat k).0)
          → IsSpaced c.scale_down_cooldown_sec k.last_scale_down_ts (
              if b
              then now ∷ firings is_down c ticks (evaluate fl c now alive heat k).0
              else firings is_down c ticks (evaluate fl c now alive heat k).0)
      go true e h =
          let t = evaluate-IsTimely c now alive heat k in
          (
            t.down e,
            subst
                (λ last.
                  IsSpaced c.scale_down_cooldown_sec last
                    (firings is_down c ticks (evaluate fl c now alive heat k).0))
                (t.down_set e) h,
          )
      go false e h =
          subst
            (λ last.
              IsSpaced c.scale_down_cooldown_sec last
                (firings is_down c ticks (evaluate fl c now alive heat k).0))
            ((evaluate-IsTimely c now alive heat k).down_kept e) h

  -- Over any sequence of calls, each recommendation to scale up comes a scale-up cooldown after the
  -- last one, and each to scale down a scale-down cooldown after the last one.
  pub firings-IsSpaced :
      (c : Settings Float) (ticks : List Tick) (k : Scaler Float)
      → IsSpaced c.scale_up_cooldown_sec k.last_scale_up_ts (firings is_up c ticks k)
        × IsSpaced c.scale_down_cooldown_sec k.last_scale_down_ts (firings is_down c ticks k)
  firings-IsSpaced c ticks k = (ups c ticks k, downs c ticks k)

  judge-bounds :
      (c : Settings Float) (alive : ℕ) (heat : Option Float)
      → c.min_nodes ≤ c.max_nodes
      → (is_up (judge fl c alive heat).0 ≡ true → alive < c.max_nodes)
        × (is_down (judge fl c alive heat).0 ≡ true → c.min_nodes < alive)
  unfolding judge
  judge-bounds c alive heat h = ground arith

  decided-direction :
      (c : Settings Float) (now : Float) (alive : ℕ) (d : Decision) (why : Reason Float)
      (k : Scaler Float)
      → (is_up (decided fl c now alive d why k).1 ≡ true → is_up d ≡ true)
        × (is_down (decided fl c now alive d why k).1 ≡ true → is_down d ≡ true)
  decided-direction c now alive scale_up why k = ground arith
  decided-direction c now alive scale_down why k = ground arith
  decided-direction c now alive scale_none why k = ground arith

  -- A recommendation to scale up comes only below the maximum of nodes, and one to scale down only
  -- above the minimum.
  evaluate-bounds :
      (c : Settings Float) (now : Float) (alive : ℕ) (heat : Option Float) (k : Scaler Float)
      → c.min_nodes ≤ c.max_nodes
      → (is_up (evaluate fl c now alive heat k).1 ≡ true → alive < c.max_nodes)
        × (is_down (evaluate fl c now alive heat k).1 ≡ true → c.min_nodes < alive)
  unfolding evaluate
  evaluate-bounds c now alive heat k h =
      let raw = judge fl c alive heat in
      let bounds = judge-bounds c alive heat h in
      let direction = decided-direction c now alive raw.0 raw.1 k in
      (λ t. bounds.0 (direction.0 t), λ t. bounds.1 (direction.1 t))
