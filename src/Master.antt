-- ===== src/Master.antt =====
-- The request handlers of `MasterNode`: huddle_cluster_pkg/cluster_master.py. The registry is the
-- dict `_nodes`; a handler takes the time that it reads and returns the new registry, its reply
-- and the callbacks that it makes.
mod Records
pub mod Monitor
pub mod Registry
pub mod History
pub mod Probation
pub mod Join
pub mod Joining
pub mod Health
pub mod Timeouts
mod Tests
pub use Records.*
use huddle_cluster.Base.{
  ℕ, ◌+◌, String, Bool, true, false, not, ◌&&◌, ◌||◌, Option, none, some, List, [], ◌∷◌, ◌++◌, Dict,
  get, assign, pop, if◌then◌else◌, keep, length, leb, ltb, str_eq, is_some,
}
use huddle_cluster.Base.Floats.{Floats}

abbrev pub is_alive : Status → Bool
is_alive alive = true
is_alive _ = false

abbrev pub is_dead : Status → Bool
is_dead dead = true
is_dead _ = false

abbrev pub is_quarantined : Status → Bool
is_quarantined quarantined = true
is_quarantined _ = false

-- Python's `d or {}`, and `(s or "").strip()`; `strip` is the library's.
abbrev pub or_empty : {A : Type 0} → Option (List A) → List A
or_empty none = []
or_empty (some d) = d

abbrev pub stripped : (String → String) → Option String → String
stripped strip none = strip ""
stripped strip (some s) = strip s

abbrev pub port_of : PortField → Option ℕ
port_of not_int = none
port_of below_one = none
port_of (int p) = if ltb p 1 || ltb 65535 p then none else some p

-- `if tls_client_cn: existing.tls_client_cn = tls_client_cn`
abbrev pub or_keep : Option String → Option String → Option String
or_keep none old = old
or_keep (some cn) old = if str_eq cn "" then old else some cn

module _ (fl : Floats) where
  open fl use {Float, le, sub}

  -- `[t for t in recent_deaths if t >= now - flap_window]`
  abbrev pub recent : Settings Float → Float → List Float → List Float
  recent c now deaths = let cutoff = sub now c.flap_window in keep (λ t. le cutoff t) deaths

module _ (fl : Floats) {J : Type 0} where
  open fl use {Float}

  -- What a heartbeat and a rejoin do to a node that was declared dead.
  unfoldable pub revive :
      Settings Float → Float → NodeRecord Float J → NodeRecord Float J × List Callback
  revive c now n =
      let deaths = recent fl c now n.recent_deaths in
      if leb c.flap_threshold (length deaths)
      then (
        record n { recent_deaths = deaths; status = quarantined; consecutive_alive_heartbeats = 1 },
        on_quarantined n.node_id ∷ [],
      )
      else (record n { recent_deaths = deaths; status = alive }, [])

  -- The counter of a quarantined node, and its way out.
  unfoldable pub prove_stable : Settings Float → NodeRecord Float J → NodeRecord Float J
  prove_stable c n =
      let count = n.consecutive_alive_heartbeats + 1 in
      if leb c.quarantine_recovery count
      then record n { consecutive_alive_heartbeats = count; status = alive; recent_deaths = [] }
      else record n { consecutive_alive_heartbeats = count }

  abbrev pub beat_by :
      Status → Settings Float → Float → NodeRecord Float J → NodeRecord Float J × List Callback
  beat_by dead c now n = revive c now n
  beat_by quarantined c now n = (prove_stable c n, [])
  beat_by _ c now n = (n, [])

  -- `_handle_heartbeat` for a registered node.
  unfoldable pub beat :
      Settings Float
      → Float
      → Option (Dict J)
      → NodeRecord Float J
      → NodeRecord Float J × List Callback
  unfolding revive prove_stable
  beat c now metrics n = beat_by n.status c now (record n {
    last_heartbeat = now;
    heartbeat_count = n.heartbeat_count + 1;
    metrics = or_empty metrics;
  })

  unfoldable pub heartbeat_found :
      Settings Float
      → Float
      → String
      → Option (Dict J)
      → Dict (NodeRecord Float J)
      → Option (NodeRecord Float J)
      → Dict (NodeRecord Float J) × Reply Float × List Callback
  heartbeat_found c now node_id metrics nodes none = (nodes, refused (unknown_node node_id), [])
  heartbeat_found c now node_id metrics nodes (some n) =
      let (n', calls) = beat c now metrics n in
      (assign node_id n' nodes, heartbeat_ok node_id n'.heartbeat_count, calls)

  unfoldable pub handle_heartbeat :
      Settings Float
      → Float
      → String
      → Option (Dict J)
      → Dict (NodeRecord Float J)
      → Dict (NodeRecord Float J) × Reply Float × List Callback
  unfolding heartbeat_found
  handle_heartbeat c now node_id metrics nodes =
      heartbeat_found c now node_id metrics nodes (get node_id nodes)

  -- The two critical sections of `_handle_leave`: the node is marked, `on_node_leave` runs with the
  -- lock released, and the node is dropped.
  leave_found :
      String
      → Dict (NodeRecord Float J)
      → Option (NodeRecord Float J)
      → Dict (NodeRecord Float J) × Reply Float × List Callback
  leave_found node_id nodes none = (nodes, refused (unknown_node node_id), [])
  leave_found node_id nodes (some n) = (
    assign node_id (record n { status = leaving }) nodes,
    leave_ok node_id,
    on_leave node_id ∷ [],
  )

  unfoldable pub begin_leave :
      String → Dict (NodeRecord Float J) → Dict (NodeRecord Float J) × Reply Float × List Callback
  unfolding leave_found
  begin_leave node_id nodes = leave_found node_id nodes (get node_id nodes)

  unfoldable pub finish_leave : String → Dict (NodeRecord Float J) → Dict (NodeRecord Float J)
  finish_leave node_id nodes = pop node_id nodes

  unfoldable pub handle_leave :
      String → Dict (NodeRecord Float J) → Dict (NodeRecord Float J) × Reply Float × List Callback
  unfolding begin_leave finish_leave
  handle_leave node_id nodes =
      let (nodes', reply, calls) = begin_leave node_id nodes in
      if is_some (get node_id nodes)
      then (finish_leave node_id nodes', reply, calls)
      else (nodes', reply, calls)

  -- A rejoin refreshes the record; only a dead or leaving node changes its status.
  abbrev pub rejoin_by :
      Status → Settings Float → Float → NodeRecord Float J → NodeRecord Float J × List Callback
  rejoin_by dead c now n = revive c now n
  rejoin_by leaving c now n = (record n { status = alive }, [])
  rejoin_by _ c now n = (n, [])

  unfoldable pub rejoin :
      Settings Float
      → Float
      → String
      → ℕ
      → Option (Dict J)
      → Option String
      → NodeRecord Float J
      → NodeRecord Float J × List Callback
  unfolding revive
  rejoin c now address port metadata tls_client_cn n = rejoin_by n.status c now (record n {
    address = address;
    port = port;
    metadata = or_empty metadata;
    tls_client_cn = or_keep tls_client_cn n.tls_client_cn;
    last_heartbeat = now;
  })

  unfoldable pub new_record :
      Float → String → String → ℕ → Option (Dict J) → Option String → NodeRecord Float J
  new_record now node_id address port metadata tls_client_cn = record {
    node_id = node_id;
    address = address;
    port = port;
    metadata = or_empty metadata;
    status = alive;
    joined_at = now;
    last_heartbeat = now;
    heartbeat_count = 0;
    metrics = [];
    death_count = 0;
    recent_deaths = [];
    consecutive_alive_heartbeats = 0;
    tls_client_cn = tls_client_cn;
  }
