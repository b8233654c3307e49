-- ===== src/Master/Join.antt =====
-- `_handle_join` of `MasterNode`: validation, rejoin of a known node, and a new record.
use huddle_cluster.Base.{
  ℕ, String, Option, none, some, List, [], ◌∷◌, Dict, get, assign, if◌then◌else◌, str_eq,
}
use huddle_cluster.Base.Floats.{Floats}
use huddle_cluster.Master.{
  NodeRecord, Settings, JoinData, Error, node_id_required, address_required, port_required, Reply,
  refused, join_ok, joined, re_joined, Callback, on_join, stripped, port_of, rejoin, new_record,
}

pub data Checked : Type 0 where
  invalid : Error → Checked
  valid : String → String → ℕ → Checked

abbrev pub check_port : String → String → Option ℕ → Checked
check_port node_id address none = invalid port_required
check_port node_id address (some port) = valid node_id address port

-- The three checks, in the source's order.
unfoldable pub validate : {J : Type 0} → (String → String) → JoinData J → Checked
validate strip d =
    let node_id = stripped strip d.node_id in
    let address = stripped strip d.address in
    if str_eq node_id ""
    then invalid node_id_required
    else if str_eq address ""
    then invalid address_required
    else check_port node_id address (port_of d.port)

module _ (fl : Floats) {J : Type 0} where
  open fl use {Float}

  unfoldable pub join_entry :
      Settings Float
      → Float
      → String
      → String
      → ℕ
      → Option (Dict J)
      → Option String
      → Dict (NodeRecord Float J)
      → Option (NodeRecord Float J)
      → Dict (NodeRecord Float J) × Reply Float × List Callback
  join_entry c now node_id address port metadata cn nodes none = (
    assign node_id (new_record fl now node_id address port metadata cn) nodes,
    join_ok joined node_id c.timeout,
    on_join node_id ∷ [],
  )
  join_entry c now node_id address port metadata cn nodes (some n) =
      let (n', calls) = rejoin fl c now address port metadata cn n in
      (assign node_id n' nodes, join_ok re_joined node_id c.timeout, calls)

  unfoldable pub join_checked :
      Settings Float
      → Float
      → Option (Dict J)
      → Option String
      → Dict (NodeRecord Float J)
      → Checked
      → Dict (NodeRecord Float J) × Reply Float × List Callback
  unfolding join_entry
  join_checked c now metadata cn nodes (invalid e) = (nodes, refused e, [])
  join_checked c now metadata cn nodes (valid node_id address port) =
      join_entry c now node_id address port metadata cn nodes (get node_id nodes)

  unfoldable pub handle_join :
      (String → String)
      → Settings Float
      → Float
      → JoinData J
      → Option String
      → Dict (NodeRecord Float J)
      → Dict (NodeRecord Float J) × Reply Float × List Callback
  unfolding join_checked
  handle_join strip c now d cn nodes = join_checked c now d.metadata cn nodes (validate strip d)
