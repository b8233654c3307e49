-- ===== src/Discovery.antt =====
-- Service discovery: huddle_cluster_pkg/cluster_service_discovery.py. The registry of the services, and
-- the DNS responder in Discovery/Dns.
pub mod Dns
pub mod Services
pub mod Transitions
mod Tests
use huddle_cluster.Base.{
  has, add_to, discard, has-add_to, has-discard, ℕ, String, Bool, true, false, not, ◌&&◌, Option,
  none, some, List, [], ◌∷◌, ◌++◌, Dict, get, assign, map, keep, if◌then◌else◌,
}
use huddle_cluster.Master.{Status, alive, dead, leaving, quarantined}

-- The `services` of a node's metadata.
pub data Advert : Type 0 where
  nothing : Advert
  text : String → Advert
  names : List String → Advert

pub record Node : Type 0 where
  pub node_id : String
  pub status : Status
  pub address : String
  pub services : Advert

-- What the code uses of Python's strings: `strip().lower()`, `split(",")` with the empty parts left
-- out, whether a name is empty, and the order.
pub record Text : Type 0 where
  pub normal : String → String
  pub parts : String → List String
  pub is_empty : String → Bool
  pub before : String → String → Bool

pub data Notice : Type 0 where
  on_service_up on_service_down : String → Notice

pub record Registry : Type 0 where
  pub registry : Dict (List String)
  pub services_up : List String
  pub notices : List Notice

abbrev pub or_none : Option (List String) → List String
or_none none = []
or_none (some ids) = ids

-- `registry.setdefault(service, set()).add(node_id)`
unfoldable pub enroll : String → String → Dict (List String) → Dict (List String)
enroll service node_id reg = assign service (add_to node_id (or_none (get service reg))) reg

abbrev pub is_alive : Status → Bool
is_alive alive = true
is_alive _ = false

abbrev pub is_some_node : List Node → Bool
is_some_node [] = false
is_some_node (n ∷ ns) = true

abbrev pub keys : {V : Type 0} → Dict V → List String
keys [] = []
keys ((name, value) ∷ items) = name ∷ keys items

module _ (t : Text) where
  unfoldable pub announce : String → String → Registry → Registry
  unfolding enroll
  announce node_id service r = record r { registry = enroll (t.normal service) node_id r.registry }

  unfoldable pub deregister : String → String → Registry → Registry × Bool
  deregister node_id service r =
      let ids = or_none (get (t.normal service) r.registry) in
      if has node_id ids
      then (
        record r { registry = assign (t.normal service) (discard node_id ids) r.registry },
        true,
      )
      else (r, false)

  -- A stable sort by the identifiers.
  unfoldable pub place_node : Node → List Node → List Node
  place_node n [] = n ∷ []
  place_node n (m ∷ ms) =
      let later = m ∷ place_node n ms in if t.before m.node_id n.node_id then later else n ∷ m ∷ ms

  unfoldable pub sort_nodes : List Node → List Node
  unfolding place_node
  sort_nodes [] = []
  sort_nodes (n ∷ ns) = place_node n (sort_nodes ns)

  abbrev pub provides : List String → Node → Bool
  provides ids n = has n.node_id ids && is_alive n.status

  unfoldable pub alive_nodes_for : List Node → String → Registry → List Node
  unfolding sort_nodes
  alive_nodes_for nodes service r =
      sort_nodes (keep (provides (or_none (get (t.normal service) r.registry))) nodes)

  abbrev pub advertised : Advert → List String
  advertised nothing = []
  advertised (text raw) = map t.normal (t.parts raw)
  advertised (names ss) = map t.normal (keep (λ s. not (t.is_empty s)) ss)

  unfoldable pub enroll_all : String → List String → Dict (List String) → Dict (List String)
  unfolding enroll
  enroll_all node_id [] reg = reg
  enroll_all node_id (s ∷ ss) reg = enroll_all node_id ss (enroll s node_id reg)

  unfoldable pub sync_registry : List Node → Dict (List String) → Dict (List String)
  unfolding enroll_all
  sync_registry [] reg = reg
  sync_registry (n ∷ ns) reg = sync_registry ns (enroll_all n.node_id (advertised n.services) reg)

  -- `_sync_from_metadata`
  unfoldable pub sync_from_metadata : List Node → Registry → Registry
  unfolding sync_registry
  sync_from_metadata nodes r = record r { registry = sync_registry nodes r.registry }

  -- One service of `_check_service_health`.
  unfoldable pub check_service : List Node → String → Registry → Registry
  unfolding alive_nodes_for
  check_service nodes svc r =
      let currently_up = is_some_node (alive_nodes_for nodes svc r) in
      let was_up = has svc r.services_up in
      if currently_up && not was_up
      then record r {
        services_up = add_to svc r.services_up;
        notices = r.notices ++ on_service_up svc ∷ [];
      }
      else if not currently_up && was_up
      then record r {
        services_up = discard svc r.services_up;
        notices = r.notices ++ on_service_down svc ∷ [];
      }
      else r

  unfoldable pub check_services : List Node → List String → Registry → Registry
  unfolding check_service
  check_services nodes [] r = r
  check_services nodes (svc ∷ rest) r = check_services nodes rest (check_service nodes svc r)

  -- `_check_service_health`
  unfoldable pub check_service_health : List Node → Registry → Registry
  unfolding check_services
  check_service_health nodes r = check_services nodes (keys r.registry) r
