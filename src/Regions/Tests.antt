-- ===== src/Regions/Tests.antt =====
-- A region whose node is dead, with a node elsewhere.
use huddle_cluster.Base.{◌≡◌, refl, true, false, none, some, List, [], ◌∷◌, inl, str_eq}
use huddle_cluster.Master.{alive, dead}
use huddle_cluster.Discovery.{Node, Text, nothing, Registry, is_some_node}
use huddle_cluster.Regions.{Settings, preferred_nodes}
use huddle_cluster.Regions.Preferred.{preferred_nodes-serves}

abbrev plain : Text
plain = record {
  normal = λ s. s;
  parts = λ s. s ∷ [];
  is_empty = λ s. str_eq s "";
  before = λ a b. false;
}

abbrev n1 : Node
n1 = record { node_id = "n1"; status = alive; address = "10.0.0.1"; services = nothing }

abbrev n2 : Node
n2 = record { node_id = "n2"; status = dead; address = "10.0.0.2"; services = nothing }

abbrev view : List Node
view = n1 ∷ n2 ∷ []

abbrev settings : Settings
settings = record { preferred_region = some "eu"; fallback_to_global = true }

abbrev known : Registry
known = record {
  registry = ("eu", "n2" ∷ []) ∷ ("us", "n1" ∷ []) ∷ [];
  services_up = [];
  notices = [];
}

preferred_nodes-serves_example :
    is_some_node (preferred_nodes plain settings view none known) ≡ true
preferred_nodes-serves_example =
    preferred_nodes-serves plain settings view none known n1 refl (inl refl) refl
