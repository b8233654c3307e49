-- ===== src/HighAvailability/StaleWin.antt =====
-- What can go wrong between two locked sections of `_start_election`: other threads handle
-- requests while the candidate waits for answers, and the candidate does not look again.
use mathlib.Core.Option.{some-injective}
use huddle_cluster.Base.{ℕ, ◌+◌, ◌≤◌, ◌<◌, ◌≡◌, ◌≢◌, ◌∙◌, sym, String, true, false, some, arith}
use huddle_cluster.HighAvailability.{
  leader, Settings, Tick, State, needed, handle_vote_request, step_down,
}
use huddle_cluster.HighAvailability.Election.{votes, begin_election, finish_election}
use huddle_cluster.HighAvailability.Voting.{restart}

module _ {F : Type 0} where
  -- While a candidate waits for its votes, another one asks for a vote in a later term and gets it;
  -- then the first election ends with enough votes. The node is leader in the later term, in which it
  -- gave its own vote to the other one, and not to itself.
  pub stale_win :
      (c : Settings F) (k k' k'' : Tick F) (rival : String) (t n : ℕ) (s : State F)
      → s.term + 1 < t
      → rival ≢ c.id
      → needed c ≤ n
      → let r = handle_vote_request k' rival t (begin_election c k s) in
        let s' = finish_election c k'' (votes n) r.0 in
        (r.1 ≡ true)
        × (s'.role ≡ leader)
        × (s'.term ≡ t)
        × (s'.voted_for ≡ some rival)
        × (s'.voted_for ≢ some c.id)
  unfolding begin_election handle_vote_request finish_election
  stale_win c k k' k'' rival t n s h other m =
      let r = handle_vote_request k' rival t (begin_election c k s) in
      let s' = finish_election c k'' (votes n) r.0 in
      let outcome : (r.1 ≡ true)
          × (s'.role ≡ leader)
          × (s'.term ≡ t)
          × (s'.voted_for ≡ some rival) =
        ground arith in
      (
        outcome.0,
        outcome.1,
        outcome.2,
        outcome.3,
        λ e. other (some-injective rival c.id (sym outcome.3 ∙ e)),
      )

  -- After a restart, a master that votes without a state file, or could not write it, grants a second
  -- vote in a term in which it had voted.
  vote_again :
      (k k' : Tick F) (first second : String) (t : ℕ) (s : State F)
      → k.writes ≡ false
      → s.term < t
      → s.saved.0 < t
      → let s' = restart (handle_vote_request k first t s).0 in
        let r = handle_vote_request k' second t s' in
        ((handle_vote_request k first t s).1 ≡ true)
        × (r.1 ≡ true)
        × (r.0.term ≡ t)
        × (r.0.voted_for ≡ some second)
  unfolding handle_vote_request restart
  vote_again k k' first second t s w h m = ground (arith, w)

  -- An answer that comes late takes the node back to a term that it has passed, and its vote is
  -- forgotten: it grants a second vote in the term in which it had voted.
  second_vote :
      (k k' : Tick F) (first second : String) (late : ℕ) (s : State F)
      → s.voted_for ≡ some first
      → late ≤ s.term
      → let r = handle_vote_request k' second s.term (step_down k late s) in
        (r.1 ≡ true) × (r.0.term ≡ s.term) × (r.0.voted_for ≡ some second)
  unfolding handle_vote_request step_down
  second_vote k k' first second late s v h = ground arith
