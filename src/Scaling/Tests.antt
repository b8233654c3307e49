-- ===== src/Scaling/Tests.antt =====
-- An autoscaler for two to five nodes.
use huddle_cluster.Base.{ℕ, ◌≡◌, refl, none, some, List, [], ◌∷◌}
use huddle_cluster.Base.Floats.{whole}
use huddle_cluster.Scaling.{Settings, new_scaler, evaluate, judge, is_cooling, record_scale}
use huddle_cluster.Scaling.Cooldown.{is_up, is_down, Tick, firings, IsSpaced, firings-IsSpaced}

abbrev settings : Settings ℕ
settings = record {
  min_nodes = 2;
  max_nodes = 5;
  scale_up_heat_threshold = 75;
  scale_down_heat_threshold = 20;
  scale_up_cooldown_sec = 60;
  scale_down_cooldown_sec = 120;
  scale_up_step = 1;
  scale_down_step = 1;
}

abbrev ticks : List (Tick whole)
ticks = (100, 1, none) ∷ (130, 1, none) ∷ (160, 2, some 80) ∷ (200, 3, some 10) ∷ []

two_ups : firings whole is_up settings ticks (new_scaler whole) ≡ 100 ∷ 160 ∷ []
unfolding firings evaluate judge is_cooling record_scale
two_ups = refl

firings-IsSpaced_example :
    IsSpaced whole 60 0 (firings whole is_up settings ticks (new_scaler whole))
    × IsSpaced whole 120 0 (firings whole is_down settings ticks (new_scaler whole))
firings-IsSpaced_example = firings-IsSpaced whole settings ticks (new_scaler whole)
