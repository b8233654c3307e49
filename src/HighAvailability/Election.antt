-- ===== src/HighAvailability/Election.antt =====
-- An election as the candidate runs it: the start, the tally of the answers, and the end.
use huddle_cluster.Base.{
  ℕ, ◌+◌, Bool, true, false, none, some, List, [], ◌∷◌, if◌then◌else◌, leb, ltb,
}
use huddle_cluster.Base.Floats.{Floats}
use huddle_cluster.HighAvailability.{
  Role, candidate, leader, Settings, Tick, State, persist, reset_timeout, step_down, needed,
}

-- What `_rpc_post` gives for one peer: an exception, or `term` and `vote_granted`.
pub data Answer : Type 0 where
  unreachable : Answer
  answer : ℕ → Bool → Answer

-- How the loop over the peers ends: by a higher term, or with a number of votes.
pub data Tally : Type 0 where
  outdated : ℕ → Tally
  votes : ℕ → Tally

unfoldable pub count_votes : ℕ → ℕ → List Answer → Tally
count_votes term n [] = votes n
count_votes term n (unreachable ∷ rest) = count_votes term n rest
count_votes term n (answer t granted ∷ rest) =
    let more = count_votes term (if granted then n + 1 else n) rest in
    if ltb term t then outdated t else more

module _ {F : Type 0} where
  -- The first section of `_start_election`.
  unfoldable pub begin_election : Settings F → Tick F → State F → State F
  begin_election c k s =
      reset_timeout k
        (record (persist k
          (record s { term = s.term + 1; role = candidate; voted_for = some c.id })) {
            votes_received = c.id ∷ [];
            leader_id = none;
            leader_url = none;
          })

  -- The section of `_become_leader`.
  unfoldable pub become_leader : Settings F → Tick F → State F → State F
  become_leader c k s =
      reset_timeout k (record s { role = leader; leader_id = some c.id; leader_url = c.self_url })

  -- What follows the loop, on the state that is there by then.
  unfoldable pub finish_election : Settings F → Tick F → Tally → State F → State F
  unfolding become_leader step_down
  finish_election c k (outdated t) s = step_down k t s
  finish_election c k (votes n) s = if leb (needed c) n then become_leader c k s else s

  -- `_start_election` with no other section in between.
  unfoldable pub start_election : Settings F → Tick F → Tick F → List Answer → State F → State F
  unfolding begin_election finish_election
  start_election c k k' answers s =
      let s' = begin_election c k s in finish_election c k' (count_votes s'.term 1 answers) s'

module _ (fl : Floats) where
  open fl use {Float, lt, sub}

  abbrev waits_out : Role → Bool
  waits_out leader = false
  waits_out _ = true

  -- The test of `_election_loop`.
  unfoldable pub election_due : Float → State Float → Bool
  election_due now s = if waits_out s.role then lt s.election_timeout (sub now s.last_hb) else false
