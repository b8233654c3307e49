-- ===== src/Master/Joining.antt =====
-- What a join leaves in the registry, and what it refuses.
use huddle_cluster.Base.{
  ℕ, ◌≤◌, ◌≡◌, refl, String, false, Option, none, some, List, [], arith, Dict, get, get-assign,
  str_eq, if◌then◌else◌,
}
use huddle_cluster.Base.Floats.{Floats}
use huddle_cluster.Master.{
  NodeRecord, Settings, JoinData, Reply, refused, Action, join_ok, joined, re_joined, Callback,
  stripped, rejoin, new_record,
}
use huddle_cluster.Master.Join.{
  Checked, invalid, valid, validate, handle_join, join_checked, join_entry,
}

-- Accepted names are not empty, and an accepted port is in range.
validate-valid :
    {J : Type 0} (strip : String → String) (d : JoinData J) (node_id address : String) (port : ℕ)
    → validate strip d ≡ valid node_id address port
    → (node_id ≡ stripped strip d.node_id)
      × (str_eq node_id "" ≡ false)
      × (address ≡ stripped strip d.address)
      × (str_eq address "" ≡ false)
      × (1 ≤ port)
      × (port ≤ 65535)
unfolding validate
validate-valid strip d node_id address port e = ground arith

module _ (fl : Floats) {J : Type 0} (c : Settings fl.Float) (now : fl.Float) where
  -- The record that a valid join leaves for its node, from the one that was there.
  abbrev pub entry :
      Option (NodeRecord fl.Float J)
      → String
      → String
      → ℕ
      → Option (Dict J)
      → Option String
      → NodeRecord fl.Float J
  entry none node_id address port metadata cn = new_record fl now node_id address port metadata cn
  entry (some n) node_id address port metadata cn = (rejoin fl c now address port metadata cn n).0

  abbrev pub action : Option (NodeRecord fl.Float J) → Action
  action none = joined
  action (some n) = re_joined

  -- A refused join changes nothing and says why. An accepted one answers whether the node was
  -- known, files the new or refreshed record under the node's id, and leaves all other keys alone.
  abbrev pub Joined :
      Option (Dict J)
      → Option String
      → Dict (NodeRecord fl.Float J)
      → String
      → Checked
      → Dict (NodeRecord fl.Float J) × Reply fl.Float × List Callback
      → Type 0
  Joined metadata cn nodes key (invalid e) r = r ≡ (nodes, refused e, [])
  Joined metadata cn nodes key (valid node_id address port) r =
      let n = entry (get node_id nodes) node_id address port metadata cn in
      (r.1 ≡ join_ok (action (get node_id nodes)) node_id c.timeout)
      × (get key r.0 ≡ (if str_eq node_id key then some n else get key nodes))
      × (n.address ≡ address)
      × (n.port ≡ port)
      × (n.last_heartbeat ≡ now)

  join_entry-Joined :
      (metadata : Option (Dict J)) (cn : Option String) (nodes : Dict (NodeRecord fl.Float J))
      (key node_id address : String) (port : ℕ) (o : Option (NodeRecord fl.Float J))
      → let r = join_entry fl c now node_id address port metadata cn nodes o in
        let n = entry o node_id address port metadata cn in
        (r.1 ≡ join_ok (action o) node_id c.timeout)
        × (get key r.0 ≡ (if str_eq node_id key then some n else get key nodes))
        × (n.address ≡ address)
        × (n.port ≡ port)
        × (n.last_heartbeat ≡ now)
  unfolding join_entry new_record rejoin
  join_entry-Joined metadata cn nodes key node_id address port none =
      (refl, get-assign node_id key _ nodes, refl, refl, refl)
  join_entry-Joined metadata cn nodes key node_id address port (some n) =
      (refl, get-assign node_id key _ nodes, ground arith, ground arith, ground arith)

  join_checked-Joined :
      (metadata : Option (Dict J)) (cn : Option String) (nodes : Dict (NodeRecord fl.Float J))
      (key : String) (v : Checked)
      → Joined metadata cn nodes key v (join_checked fl c now metadata cn nodes v)
  unfolding join_checked
  join_checked-Joined metadata cn nodes key (invalid e) = refl
  join_checked-Joined metadata cn nodes key (valid node_id address port) =
      join_entry-Joined metadata cn nodes key node_id address port (get node_id nodes)

  -- For every request: a refused join changes nothing and says why; an accepted one answers
  -- whether the node was known, files the new or refreshed record, with the given address and port
  -- and a fresh heartbeat time, under the node's id, and leaves all other keys alone.
  pub handle_join-Joined :
      (strip : String → String) (d : JoinData J) (cn : Option String)
      (nodes : Dict (NodeRecord fl.Float J)) (key : String)
      → Joined d.metadata cn nodes key (validate strip d) (handle_join fl strip c now d cn nodes)
  unfolding handle_join
  handle_join-Joined strip d cn nodes key =
      join_checked-Joined d.metadata cn nodes key (validate strip d)
