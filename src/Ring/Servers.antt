-- ===== src/Ring/Servers.antt =====
-- Servers and the settings of `HuddleCluster`: huddle_cluster.py. A server is known by its id, as its
-- `__eq__` says; `F` is the type of floats.
use huddle_cluster.Base.{ℕ, String, Bool, Option}
use huddle_cluster.Base.Floats.{Floats, py_min}

pub data Position : Type 0 where
  inner outer draining : Position

pub data EvictionReason : Type 0 where
  overheated health_fail manual absolute_latency : EvictionReason

pub record Server (F : Type 0) : Type 0 where
  pub id : String
  pub weight : F
  pub temperature : F
  pub position : Position
  -- `metrics.is_healthy`, `.error_rate`, `.avg_response_ms` and `.active_connections`
  pub is_healthy : Bool
  pub error_rate : F
  pub avg_response_ms : F
  pub active_connections : ℕ
  pub last_rotated : F
  pub total_inner_time : F
  pub total_outer_time : F
  pub rotation_count : ℕ
  pub consecutive_evictions : ℕ
  pub cold_until : F

pub record Settings (F : Type 0) : Type 0 where
  pub max_inner_size : ℕ
  pub min_inner_size : ℕ
  pub rotation_cooldown_sec : F
  pub min_outer_dwell_sec : F
  pub cold_start_sec : F
  pub absolute_latency_floor_ms : Option F
  pub circuit_breaker_threshold : F
  pub ws_drain_timeout : F

module _ (fl : Floats) where
  open fl use {Float, lt, le, mul, of_nat}

  unfoldable pub is_cold_start : Float → Server Float → Bool
  is_cold_start now s = lt now s.cold_until

  unfoldable pub effective_heat_threshold : Float → Server Float → Float
  effective_heat_threshold base s = py_min fl (of_nat 1) (mul base s.weight)

  unfoldable pub is_overheated : Float → Server Float → Bool
  unfolding effective_heat_threshold
  is_overheated threshold s = le (effective_heat_threshold threshold s) s.temperature

  unfoldable pub is_cooled : Float → Server Float → Bool
  is_cooled threshold s = le s.temperature threshold
