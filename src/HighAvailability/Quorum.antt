-- ===== src/HighAvailability/Quorum.antt =====
-- The leader's heartbeat round, the quorum test behind it, and what the node tells its clients.
use huddle_cluster.Base.{
  ℕ, ◌+◌, String, Bool, true, false, not, ◌&&◌, ◌||◌, List, [], ◌∷◌, ◌++◌, if◌then◌else◌, leb, ltb,
  length, ◌==◌, is_some,
}
use huddle_cluster.Base.Floats.{Floats}
use huddle_cluster.HighAvailability.{
  healthy, majority_active, Settings, Tick, State, step_down, needed, is_follower_role,
  is_leader_role, is_isolated, trigger_auto_heal, enter_readonly_mode,
}

-- The answer of one peer to a heartbeat: an exception, or `term` and `success`.
pub data Contact : Type 0 where
  unreachable : String → Contact
  answer : String → ℕ → Bool → Contact

pub data Round : Type 0 where
  outdated : ℕ → Round
  reached : List String → Round

-- The loop over the peers; `active` is a set, and each peer is asked once.
unfoldable pub heartbeat_round : ℕ → List String → List Contact → Round
heartbeat_round term active [] = reached active
heartbeat_round term active (unreachable peer ∷ rest) = heartbeat_round term active rest
heartbeat_round term active (answer peer t success ∷ rest) =
    let more = heartbeat_round term (if success then active ++ peer ∷ [] else active) rest in
    if ltb term t then outdated t else more

module _ (fl : Floats) where
  open fl use {Float, lt, le, sub, mul, of_nat}

  -- A majority answered.
  quorum_met : Settings Float → Tick Float → List String → State Float → State Float
  unfolding trigger_auto_heal
  quorum_met c k active s =
      let t = record s { active_peers = active; last_quorum_time = k.now } in
      if s.split_brain_detected || s.readonly then trigger_auto_heal t else record t {
        partition_state = if length active == length c.peers then healthy else majority_active;
      }

  -- `reason` is the text that names the two counts.
  quorum_missed :
      Settings Float → Tick Float → (ℕ → ℕ → String) → List String → State Float → State Float
  unfolding enter_readonly_mode
  quorum_missed c k reason active s =
      let t = record s { active_peers = active } in
      if le c.quorum_timeout_sec (sub k.now s.last_quorum_time)
      then enter_readonly_mode k (reason (length active + 1) (needed c))
          (record t { split_brain_count = s.split_brain_count + 1 })
      else t

  -- The second section of a pass of `_heartbeat_loop`.
  unfoldable pub evaluate_quorum :
      Settings Float → Tick Float → (ℕ → ℕ → String) → List String → State Float → State Float
  unfolding quorum_met quorum_missed
  evaluate_quorum c k reason active s =
      if not (is_leader_role s.role)
      then s
      else if leb (needed c) (length active + 1)
      then quorum_met c k active s
      else quorum_missed c k reason active s

  -- What follows the loop of a pass.
  unfoldable pub end_round :
      Settings Float → Tick Float → (ℕ → ℕ → String) → Round → State Float → State Float
  end_round c k reason (outdated t) s = step_down k t s
  end_round c k reason (reached active) s = evaluate_quorum c k reason active s

  abbrev pub recent_hb : Settings Float → Float → State Float → Bool
  recent_hb c now s = le (sub now s.last_hb) (mul c.base_timeout (of_nat 2))

  abbrev no_peers : List String → Bool
  no_peers [] = true
  no_peers (p ∷ ps) = false

  unfoldable pub has_quorum : Settings Float → Float → State Float → Bool
  has_quorum c now s =
      if no_peers c.peers
      then true
      else if is_leader_role s.role
      then leb (needed c) (length s.active_peers + 1)
      else is_some s.leader_id && recent_hb c now s && not s.readonly

  unfoldable pub is_ready : Settings Float → Bool → State Float → Bool
  is_ready c running s =
      if not running
      then false
      else if s.readonly || is_isolated s.partition_state
      then false
      else if is_leader_role s.role
      then true
      else if is_follower_role s.role
      then no_peers c.peers || is_some s.leader_id
      else false

  unfoldable pub auto_heal : Settings Float → Float → State Float → State Float × Bool
  unfolding trigger_auto_heal
  auto_heal c now s =
      if not c.auto_heal_enabled
      then (s, false)
      else if not (s.readonly || s.split_brain_detected)
      then (s, true)
      else if no_peers c.peers || (is_some s.leader_id && recent_hb c now s)
      then (trigger_auto_heal s, true)
      else (s, false)
