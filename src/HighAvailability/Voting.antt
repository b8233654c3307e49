-- ===== src/HighAvailability/Voting.antt =====
-- One master over time: the votes that it gives, and the terms it gives them in.
use huddle_cluster.Base.{
  ℕ, ◌+◌, ◌<◌, ◌≡◌, String, Bool, true, false, none, List, [], ◌∷◌, ◌++◌, All, if◌then◌else◌,
}
use huddle_cluster.HighAvailability.{
  follower, Settings, Tick, State, step_down, handle_vote_request, handle_append_entries,
  enter_readonly_mode, exit_readonly_mode,
}
use huddle_cluster.HighAvailability.Election.{begin_election, become_leader}

-- The locked sections that can change the term, the vote or the role, in any order.
pub data Event (F : Type 0) : Type 0 where
  vote_request : Tick F → String → ℕ → Event F
  append_entries : Tick F → String → String → ℕ → Event F
  election_begins : Tick F → Event F
  election_won : Tick F → Event F
  -- An answer with a higher term than the one that was asked with.
  term_seen : Tick F → ℕ → Event F
  goes_readonly : Tick F → String → Event F
  leaves_readonly : Event F
  -- The process ends and reads its state file again.
  restarts : Event F

module _ {F : Type 0} where
  -- `_load_persisted_state`; the other fields start as in `__init__`, and none of them is read below.
  unfoldable pub restart : State F → State F
  restart s = record s {
    term = s.saved.0;
    voted_for = s.saved.1;
    role = follower;
    leader_id = none;
    leader_url = none;
  }

  unfoldable pub step : Settings F → Event F → State F → State F
  step c (vote_request k cand t) s = (handle_vote_request k cand t s).0
  step c (append_entries k lead url t) s = (handle_append_entries c k lead url t s).0
  step c (election_begins k) s = begin_election c k s
  step c (election_won k) s = become_leader c k s
  step c (term_seen k t) s = step_down k t s
  step c (goes_readonly k reason) s = enter_readonly_mode k reason s
  step c leaves_readonly s = exit_readonly_mode s
  step c restarts s = restart s

  -- The vote that an event gives: the term and the candidate.
  unfoldable pub gives : Settings F → Event F → State F → List (ℕ × String)
  gives c (vote_request k cand t) s =
      let (s', granted, t') = handle_vote_request k cand t s in
      if granted then (t', cand) ∷ [] else []
  gives c (election_begins k) s = (s.term + 1, c.id) ∷ []
  gives c _ s = []

  unfoldable pub run : Settings F → List (Event F) → State F → State F
  run c [] s = s
  run c (e ∷ es) s = run c es (step c e s)

  -- All votes of a history, the last ones first.
  unfoldable pub given :
      Settings F → List (Event F) → State F → List (ℕ × String) → List (ℕ × String)
  given c [] s log = log
  given c (e ∷ es) s log = given c es (step c e s) (gives c e s ++ log)

  -- A term that an answer reports is above the node's own by the time it is taken over, and a process
  -- that ends leaves its term and its vote in its state file.
  abbrev pub Orderly : Event F → State F → Type 0
  Orderly (term_seen k t) s = s.term < t
  Orderly restarts s = s.saved ≡ (s.term, s.voted_for)
  Orderly _ s = Unit

  abbrev pub IsOrderly : Settings F → List (Event F) → State F → Type 0
  IsOrderly c [] s = Unit
  IsOrderly c (e ∷ es) s = Orderly e s × IsOrderly c es (step c e s)

  -- Terms that answers report alone.
  abbrev pub Timely : Event F → State F → Type 0
  Timely (term_seen k t) s = s.term < t
  Timely _ s = Unit

  abbrev pub IsTimely : Settings F → List (Event F) → State F → Type 0
  IsTimely c [] s = Unit
  IsTimely c (e ∷ es) s = Timely e s × IsTimely c es (step c e s)

  -- A state file is configured, and the write that the section makes, if it makes one, succeeds.
  abbrev pub writes_of : Event F → Bool
  writes_of (vote_request k cand t) = k.writes
  writes_of (append_entries k lead url t) = k.writes
  writes_of (election_begins k) = k.writes
  writes_of (term_seen k t) = k.writes
  writes_of _ = true

  abbrev pub is_restart : Event F → Bool
  is_restart restarts = true
  is_restart _ = false

-- No term with two candidates.
abbrev pub Agrees : ℕ × String → ℕ × String → Type 0
Agrees v w = v.0 ≡ w.0 → v.1 ≡ w.1

abbrev pub IsConsistent : List (ℕ × String) → Type 0
IsConsistent [] = Unit
IsConsistent (v ∷ log) = All (Agrees v) log × IsConsistent log
