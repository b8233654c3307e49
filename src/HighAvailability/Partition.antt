-- ===== src/HighAvailability/Partition.antt =====
-- Losing and regaining the majority.
use huddle_cluster.Base.{
  ℕ, ◌+◌, ◌≡◌, String, true, false, none, not, ◌&&◌, List, arith, leb, length, if◌then◌else◌,
}
use huddle_cluster.Base.Floats.{Floats}
use huddle_cluster.HighAvailability.{follower, leader, Settings, Tick, State, needed, is_leader}
use huddle_cluster.HighAvailability.Quorum.{evaluate_quorum, is_ready}

module _ (fl : Floats) where
  open fl use {Float, le, sub}

  -- The quorum test of a leader: with a majority it leads on, and read-only mode is lifted (also
  -- where `auto_heal_enabled` is off); without one it stays as it was until the quorum timeout, and
  -- then is a read-only follower that knows no leader, and neither leads nor is ready.
  pub evaluate_quorum-leader :
      (c : Settings Float) (k : Tick Float) (reason : ℕ → ℕ → String) (active : List String)
      (s : State Float)
      → s.role ≡ leader
      → let s' = evaluate_quorum fl c k reason active s in
        let majority = leb (needed c) (length active + 1) in
        let expired = le c.quorum_timeout_sec (sub k.now s.last_quorum_time) in
        (is_leader s' ≡ (if majority then true else if expired then false else is_leader s))
        × (is_ready fl c true s'
            ≡ (if majority then true else if expired then false else is_ready fl c true s))
        × (s'.role ≡ (if majority then leader else if expired then follower else leader))
        × (s'.readonly ≡ (if majority then false else if expired then true else s.readonly))
        × (s'.leader_id ≡ (if majority then s.leader_id else if expired then none else s.leader_id))
        × (s'.split_brain_count
            ≡ (if not majority && expired then s.split_brain_count + 1 else s.split_brain_count))
        × (s'.active_peers ≡ active)
  unfolding evaluate_quorum is_leader is_ready
  evaluate_quorum-leader c k reason active s h = ground arith
