-- ===== src/HighAvailability/Durable.antt =====
-- What the state file of a master holds over a history, and which histories restart from it rightly.
use huddle_cluster.Base.{◌≡◌, true, false, List, [], ◌∷◌, arith, All}
use huddle_cluster.HighAvailability.{
  Settings, State, step_down, handle_vote_request, handle_append_entries, enter_readonly_mode,
  exit_readonly_mode,
}
use huddle_cluster.HighAvailability.Election.{begin_election, become_leader}
use huddle_cluster.HighAvailability.Voting.{
  Event, vote_request, append_entries, election_begins, election_won, term_seen, goes_readonly,
  leaves_readonly, restarts, restart, step, IsOrderly, IsTimely, writes_of, is_restart,
}

module _ {F : Type 0} where
  -- The file holds the term and the vote.
  abbrev pub IsSaved : State F → Type 0
  IsSaved s = s.saved ≡ (s.term, s.voted_for)

  step-IsSaved :
      (c : Settings F) (e : Event F) (s : State F)
      → writes_of e ≡ true
      → IsSaved s
      → IsSaved (step c e s)
  unfolding step step_down handle_vote_request handle_append_entries begin_election become_leader
      enter_readonly_mode exit_readonly_mode restart
  step-IsSaved c (vote_request k cand t) s w h = ground (arith, w, h)
  step-IsSaved c (append_entries k lead url t) s w h = ground (arith, w, h)
  step-IsSaved c (election_begins k) s w h = ground (arith, w, h)
  step-IsSaved c (election_won k) s w h = h
  step-IsSaved c (term_seen k t) s w h = ground (arith, w, h)
  step-IsSaved c (goes_readonly k reason) s w h = ground (arith, h)
  step-IsSaved c leaves_readonly s w h = h
  step-IsSaved c restarts s w h = ground (arith, h)

  -- Where every write succeeds, each restart finds the term and the vote.
  pub written-IsOrderly :
      (c : Settings F) (es : List (Event F)) (s : State F)
      → IsTimely c es s
      → All (λ e. writes_of e ≡ true) es
      → IsSaved s
      → IsOrderly c es s
  written-IsOrderly c [] s t w h = tt
  written-IsOrderly c (vote_request k cand u ∷ es) s t w h =
      (tt, written-IsOrderly c es _ t.1 w.1 (step-IsSaved c (vote_request k cand u) s w.0 h))
  written-IsOrderly c (append_entries k lead url u ∷ es) s t w h =
      (tt, written-IsOrderly c es _ t.1 w.1 (step-IsSaved c (append_entries k lead url u) s w.0 h))
  written-IsOrderly c (election_begins k ∷ es) s t w h =
      (tt, written-IsOrderly c es _ t.1 w.1 (step-IsSaved c (election_begins k) s w.0 h))
  written-IsOrderly c (election_won k ∷ es) s t w h =
      (tt, written-IsOrderly c es _ t.1 w.1 (step-IsSaved c (election_won k) s w.0 h))
  written-IsOrderly c (term_seen k u ∷ es) s t w h =
      (t.0, written-IsOrderly c es _ t.1 w.1 (step-IsSaved c (term_seen k u) s w.0 h))
  written-IsOrderly c (goes_readonly k reason ∷ es) s t w h =
      (tt, written-IsOrderly c es _ t.1 w.1 (step-IsSaved c (goes_readonly k reason) s w.0 h))
  written-IsOrderly c (leaves_readonly ∷ es) s t w h =
      (tt, written-IsOrderly c es _ t.1 w.1 (step-IsSaved c leaves_readonly s w.0 h))
  written-IsOrderly c (restarts ∷ es) s t w h =
      (h, written-IsOrderly c es _ t.1 w.1 (step-IsSaved c restarts s w.0 h))

  -- Without a restart, nothing needs to be written.
  pub running-IsOrderly :
      (c : Settings F) (es : List (Event F)) (s : State F)
      → IsTimely c es s
      → All (λ e. is_restart e ≡ false) es
      → IsOrderly c es s
  running-IsOrderly c [] s t w = tt
  running-IsOrderly c (vote_request k cand u ∷ es) s t w = (tt, running-IsOrderly c es _ t.1 w.1)
  running-IsOrderly c (append_entries k lead url u ∷ es) s t w =
      (tt, running-IsOrderly c es _ t.1 w.1)
  running-IsOrderly c (election_begins k ∷ es) s t w = (tt, running-IsOrderly c es _ t.1 w.1)
  running-IsOrderly c (election_won k ∷ es) s t w = (tt, running-IsOrderly c es _ t.1 w.1)
  running-IsOrderly c (term_seen k u ∷ es) s t w = (t.0, running-IsOrderly c es _ t.1 w.1)
  running-IsOrderly c (goes_readonly k reason ∷ es) s t w = (tt, running-IsOrderly c es _ t.1 w.1)
  running-IsOrderly c (leaves_readonly ∷ es) s t w = (tt, running-IsOrderly c es _ t.1 w.1)
  running-IsOrderly c (restarts ∷ es) s t w = absurd (ground (arith, w.0))
