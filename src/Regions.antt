-- ===== src/Regions.antt =====
-- The regions of the nodes: huddle_cluster_pkg/cluster_multi_region.py. Its registry, its alive nodes and
-- its transitions are written as those of the service discovery, with regions for services.
pub mod Preferred
mod Tests
use huddle_cluster.Base.{
  ℕ, String, Bool, true, false, not, Option, none, some, List, [], ◌∷◌, Dict, keep, if◌then◌else◌,
}
use huddle_cluster.Discovery.{
  Node, Text, Registry, enroll, is_alive, announce, alive_nodes_for, check_service_health,
}

pub record Settings : Type 0 where
  pub preferred_region : Option String
  pub fallback_to_global : Bool

-- The text of a node's `region`, unless it is false in Python.
abbrev pub RegionOf : Type 0
RegionOf = Node → Option String

abbrev pub or_default : Option String → String
or_default none = ""
or_default (some s) = s

abbrev pub or_global : Bool → List Node → List Node → List Node
or_global true everywhere [] = everywhere
or_global false everywhere [] = []
or_global fallback everywhere (n ∷ ns) = n ∷ ns

abbrev pub everywhere_alive : List Node → List Node
everywhere_alive nodes = keep (λ n. is_alive n.status) nodes

module _ (t : Text) where
  unfoldable pub announce_region : String → String → Registry → Registry
  announce_region node_id region r = announce t node_id region r

  unfoldable pub alive_nodes_for_region : List Node → String → Registry → List Node
  alive_nodes_for_region nodes region r = alive_nodes_for t nodes region r

  abbrev pub enroll_region : Option String → String → Dict (List String) → Dict (List String)
  enroll_region none node_id reg = reg
  enroll_region (some raw) node_id reg =
      if t.is_empty (t.normal raw) then reg else enroll (t.normal raw) node_id reg

  unfoldable pub sync_regions : RegionOf → List Node → Dict (List String) → Dict (List String)
  sync_regions region_of [] reg = reg
  sync_regions region_of (n ∷ ns) reg =
      sync_regions region_of ns (enroll_region (region_of n) n.node_id reg)

  -- `_check_health`
  unfoldable pub check_health : List Node → Registry → Registry
  check_health nodes r = check_service_health t nodes r

  -- A refresh: `_sync_from_metadata` and `_check_health`.
  unfoldable pub refresh : RegionOf → List Node → Registry → Registry
  unfolding sync_regions check_health
  refresh region_of nodes r =
      check_health nodes (record r { registry = sync_regions region_of nodes r.registry })

  abbrev pub or_preferred : Settings → Option String → String
  or_preferred c none = or_default c.preferred_region
  or_preferred c (some region) = if t.is_empty region then or_default c.preferred_region else region

  abbrev pub target_of : Settings → Option String → String
  target_of c region = t.normal (or_preferred c region)

  unfoldable pub preferred_nodes : Settings → List Node → Option String → Registry → List Node
  unfolding alive_nodes_for_region
  preferred_nodes c nodes region r =
      let regional =
        or_global c.fallback_to_global (everywhere_alive nodes)
          (alive_nodes_for_region nodes (target_of c region) r) in
      if t.is_empty (target_of c region) then everywhere_alive nodes else regional
