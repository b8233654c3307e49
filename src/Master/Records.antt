-- ===== src/Master/Records.antt =====
-- The data of the node registry of huddle_cluster_pkg/cluster_master.py: `NodeRecord`, the
-- settings of `MasterNode`, requests, replies and callbacks. `F` is the type of floats, `J` that of
-- JSON values.
use huddle_cluster.Base.{ℕ, String, Option, List, Dict}

pub data Status : Type 0 where
  alive dead quarantined leaving : Status

pub record NodeRecord (F J : Type 0) : Type 0 where
  pub node_id : String
  pub address : String
  pub port : ℕ
  pub metadata : Dict J
  pub status : Status
  pub joined_at : F
  pub last_heartbeat : F
  pub heartbeat_count : ℕ
  pub metrics : Dict J
  pub death_count : ℕ
  pub recent_deaths : List F
  pub consecutive_alive_heartbeats : ℕ
  pub tls_client_cn : Option String

pub record Settings (F : Type 0) : Type 0 where
  pub timeout : F
  pub flap_window : F
  pub flap_threshold : ℕ
  pub quarantine_recovery : ℕ
  pub purge_after : Option F
  pub unhealthy_alive_ratio : Option F

-- `data.get("port")`: an int that is below 1, another int, or no int.
pub data PortField : Type 0 where
  not_int below_one : PortField
  int : ℕ → PortField

pub record JoinData (J : Type 0) : Type 0 where
  pub node_id : Option String
  pub address : Option String
  pub port : PortField
  pub metadata : Option (Dict J)

pub data Error : Type 0 where
  node_id_required address_required port_required : Error
  unknown_node : String → Error

pub data Action : Type 0 where
  joined re_joined : Action

pub data Reply (F : Type 0) : Type 0 where
  refused : Error → Reply F
  join_ok : Action → String → F → Reply F
  heartbeat_ok : String → ℕ → Reply F
  leave_ok : String → Reply F

-- The callbacks that a call makes, with the id of the node; what they raise is swallowed.
pub data Callback : Type 0 where
  on_join on_leave on_dead on_quarantined on_purged : String → Callback
  on_cluster_unhealthy on_cluster_recovered : ℕ → ℕ → Callback
