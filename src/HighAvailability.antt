-- ===== src/HighAvailability.antt =====
-- Leader election and partition handling: huddle_cluster_pkg/cluster_ha.py.
-- Each function is one section of code that holds `_lock`; other threads can run between two of
-- them. `Tick` is what such a section reads from outside: the clock, the randomised timeout that
-- `_new_timeout` draws, and whether a state file is configured and a write of it succeeds. `saved` is
-- the content of the state file; without one, what `__init__` starts from.
pub mod Election
pub mod Quorum
pub mod Voting
pub mod Memory
pub mod Durable
pub mod Safety
pub mod StaleWin
pub mod Partition
mod Tests
use huddle_cluster.Base.{
  ℕ, ◌+◌, ◌*◌, ◌/◌, String, Bool, true, false, not, ◌&&◌, ◌||◌, Option, none, some, List, [], ◌∷◌,
  if◌then◌else◌, leb, ltb, length, str_eq, is_some,
}

pub data Role : Type 0 where
  follower candidate leader : Role

pub data PartitionState : Type 0 where
  healthy majority_active isolated_minority healing : PartitionState

pub record Settings (F : Type 0) : Type 0 where
  pub id : String
  pub self_url : Option String
  pub peers : List String
  pub base_timeout : F
  pub quorum_timeout_sec : F
  pub auto_heal_enabled : Bool

pub record Tick (F : Type 0) : Type 0 where
  pub now : F
  pub timeout : F
  pub writes : Bool

pub record State (F : Type 0) : Type 0 where
  pub term : ℕ
  pub voted_for : Option String
  pub saved : ℕ × Option String
  pub votes_received : List String
  pub role : Role
  pub leader_id : Option String
  pub leader_url : Option String
  pub readonly : Bool
  pub readonly_reason : Option String
  pub split_brain_detected : Bool
  pub partition_state : PartitionState
  pub last_quorum_time : F
  pub active_peers : List String
  pub split_brain_count : ℕ
  pub heal_count : ℕ
  pub last_hb : F
  pub election_timeout : F

abbrev pub is_leader_role : Role → Bool
is_leader_role leader = true
is_leader_role _ = false

abbrev pub is_follower_role : Role → Bool
is_follower_role follower = true
is_follower_role _ = false

abbrev pub is_isolated : PartitionState → Bool
is_isolated isolated_minority = true
is_isolated _ = false

-- `(len(self._peers) + 1) // 2 + 1`
abbrev pub needed : {F : Type 0} → Settings F → ℕ
needed c = (length c.peers + 1) / 2 + 1

-- The vote is free, or was given to this candidate.
abbrev pub can_vote : Option String → String → Bool
can_vote none candidate_id = true
can_vote (some v) candidate_id = str_eq v candidate_id

module _ {F : Type 0} where
  -- `_persist` does nothing without a state file, and an `OSError` of the write is only logged.
  abbrev pub persist : Tick F → State F → State F
  persist k s = if k.writes then record s { saved = (s.term, s.voted_for) } else s

  abbrev pub reset_timeout : Tick F → State F → State F
  reset_timeout k s = record s { last_hb = k.now; election_timeout = k.timeout }

  unfoldable pub step_down : Tick F → ℕ → State F → State F
  step_down k new_term s =
      reset_timeout k
        (record (persist k (record s { term = new_term; role = follower; voted_for = none })) {
          leader_id = none;
          leader_url = none;
        })

  unfoldable pub trigger_auto_heal : State F → State F
  trigger_auto_heal s = record s {
    readonly = false;
    readonly_reason = none;
    split_brain_detected = false;
    partition_state = healthy;
    heal_count = s.heal_count + 1;
  }

  abbrev pub catch_up : Tick F → ℕ → State F → State F
  catch_up k new_term s = if ltb s.term new_term then step_down k new_term s else s

  cast_vote : Tick F → String → State F → State F × Bool × ℕ
  cast_vote k candidate_id s =
      if can_vote s.voted_for candidate_id
      then (reset_timeout k (persist k (record s { voted_for = some candidate_id })), true, s.term)
      else (s, false, s.term)

  -- `handle_vote_request`: the new state, `vote_granted` and `term`.
  unfoldable pub handle_vote_request : Tick F → String → ℕ → State F → State F × Bool × ℕ
  unfolding step_down cast_vote
  handle_vote_request k candidate_id candidate_term s =
      if ltb candidate_term s.term
      then (s, false, s.term)
      else cast_vote k candidate_id (catch_up k candidate_term s)

  heal_on_contact : Settings F → State F → State F
  unfolding trigger_auto_heal
  heal_on_contact c s =
      if c.auto_heal_enabled && (s.readonly || s.split_brain_detected)
      then trigger_auto_heal s
      else s

  accept_leader : Settings F → Tick F → String → String → State F → State F
  unfolding heal_on_contact
  accept_leader c k leader_id leader_url s = heal_on_contact c (
      reset_timeout k
        (record s { leader_id = some leader_id; leader_url = some leader_url; role = follower }))

  -- `handle_append_entries` up to the snapshot: the new state, `success` and `term`. The snapshot is
  -- applied exactly if the call succeeds.
  unfoldable pub handle_append_entries :
      Settings F → Tick F → String → String → ℕ → State F → State F × Bool × ℕ
  unfolding step_down accept_leader
  handle_append_entries c k leader_id leader_url term s =
      if ltb term s.term
      then (s, false, s.term)
      else (accept_leader c k leader_id leader_url (catch_up k term s), true, term)

  unfoldable pub enter_readonly_mode : Tick F → String → State F → State F
  enter_readonly_mode k reason s =
      let t = record s {
        readonly = true;
        readonly_reason = some reason;
        split_brain_detected = true;
        partition_state = isolated_minority;
      } in
      if is_leader_role s.role
      then reset_timeout k (record t { role = follower; leader_id = none; leader_url = none })
      else t

  unfoldable pub exit_readonly_mode : State F → State F
  exit_readonly_mode s = record s {
    readonly = false;
    readonly_reason = none;
    split_brain_detected = false;
    partition_state = healthy;
  }

  unfoldable pub is_leader : State F → Bool
  is_leader s = if s.readonly || s.split_brain_detected then false else is_leader_role s.role
