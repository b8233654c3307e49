-- ===== src/Canary/Tests.antt =====
-- A deployment over two nodes, one of them tagged as a canary.
use huddle_cluster.Base.{ℕ, ◌≡◌, refl, String, none, List, [], ◌∷◌}
use huddle_cluster.Base.Floats.{whole, whole-Laws}
use huddle_cluster.Canary.{
  active, Deployment, Settings, NodeView, initial, start, advance, clamp, record_event, set_weight,
}
use huddle_cluster.Canary.Phases.{
  Percents, starts, advances, promotes, sets, run, command, IsProper, run-IsProper,
}

abbrev settings : Settings ℕ
settings = record { canary_tag = "canary"; first_step = 5; later_steps = 25 ∷ 100 ∷ [] }

abbrev nodes : List (NodeView String)
nodes =
    record { node_id = "old"; metadata = [] }
    ∷ record { node_id = "new"; metadata = ("canary", "yes") ∷ [] }
    ∷ []

abbrev itself : NodeView String → NodeView String
itself n = n

abbrev text : String → String
text v = v

abbrev started : Deployment ℕ
started = record { phase = active; weight = 5; step_idx = 0; history = []; canary_ids = [] }

whole-Percents : Percents whole
whole-Percents = record { zero_le_zero = refl; zero_le_hundred = refl; hundred_le_hundred = refl }

steps_up :
    (run whole settings (starts none ∷ advances ∷ sets 300 ∷ []) (initial whole)).weight ≡ 100
unfolding run command start advance clamp record_event set_weight
steps_up = refl

run-IsProper_example :
    IsProper whole settings
      (run whole settings (starts none ∷ advances ∷ promotes ∷ []) (initial whole))
run-IsProper_example =
    run-IsProper whole whole-Laws whole-Percents settings (starts none ∷ advances ∷ promotes ∷ [])
