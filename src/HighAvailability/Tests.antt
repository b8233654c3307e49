-- ===== src/HighAvailability/Tests.antt =====
-- Three masters, a, b and c: elections and partitions on small inputs.
use huddle_cluster.Base.{
  ℕ, ◌≡◌, refl, String, true, false, none, some, List, [], ◌∷◌, arith, ◌≢◌, eq_iff,
}
use huddle_cluster.Base.Floats.{whole}
use huddle_cluster.HighAvailability.{
  follower, leader, healthy, Settings, Tick, State, is_leader, handle_vote_request,
}
use huddle_cluster.HighAvailability.Election.{votes, begin_election, finish_election}
use huddle_cluster.HighAvailability.Quorum.{evaluate_quorum}
use huddle_cluster.HighAvailability.Voting.{
  vote_request, election_begins, restarts, given, step, gives, restart,
}
use huddle_cluster.HighAvailability.Safety.{Member, ballots}
use huddle_cluster.HighAvailability.StaleWin.{stale_win}
use huddle_cluster.HighAvailability.Partition.{evaluate_quorum-leader}

abbrev tick : Tick ℕ
tick = record { now = 100; timeout = 7; writes = true }

abbrev settings : String → List String → Settings ℕ
settings id peers = record {
  id = id;
  self_url = some "http://a:7070";
  peers = peers;
  base_timeout = 5;
  quorum_timeout_sec = 8;
  auto_heal_enabled = true;
}

abbrev fresh : State ℕ
fresh = record {
  term = 0;
  voted_for = none;
  saved = (0, none);
  votes_received = [];
  role = follower;
  leader_id = none;
  leader_url = none;
  readonly = false;
  readonly_reason = none;
  split_brain_detected = false;
  partition_state = healthy;
  last_quorum_time = 0;
  active_peers = [];
  split_brain_count = 0;
  heal_count = 0;
  last_hb = 0;
  election_timeout = 7;
}

abbrev three : List (Member ℕ)
three =
    record {
      settings = settings "a" ("b" ∷ "c" ∷ []);
      start = fresh;
      events = election_begins tick ∷ vote_request tick "c" 1 ∷ [];
    }
    ∷ record {
      settings = settings "b" ("a" ∷ "c" ∷ []);
      start = fresh;
      events = vote_request tick "a" 1 ∷ restarts ∷ vote_request tick "c" 1 ∷ [];
    }
    ∷ record {
      settings = settings "c" ("a" ∷ "b" ∷ []);
      start = fresh;
      events = election_begins tick ∷ vote_request tick "a" 1 ∷ [];
    }
    ∷ []

-- Master b keeps its vote over the restart.
a_wins : (ballots 1 "a" three ≡ 2) × (ballots 1 "c" three ≡ 1)
unfolding given step gives begin_election handle_vote_request restart
a_wins = (refl, refl)

str_ne : ¬ (◌≡◌ {A = String} "b" "a")
str_ne e = absurd (ground (arith, (eq_iff "b" "a").1 e))

-- a counts two votes of term 1 while b, with a's own vote, is elected in term 2.
stale_win_example :
    let r =
      handle_vote_request tick "b" 2 (begin_election (settings "a" ("b" ∷ "c" ∷ [])) tick fresh) in
    let s' = finish_election (settings "a" ("b" ∷ "c" ∷ [])) tick (votes 2) r.0 in
    (r.1 ≡ true)
    × (s'.role ≡ leader)
    × (s'.term ≡ 2)
    × (s'.voted_for ≡ some "b")
    × (s'.voted_for ≢ some "a")
stale_win_example =
    stale_win (settings "a" ("b" ∷ "c" ∷ [])) tick tick tick "b" 2 2 fresh (omega arith)
      (λ e. str_ne e) (omega arith)

abbrev voted : State ℕ
voted = record fresh { term = 5; voted_for = some "b"; saved = (5, some "b") }

abbrev leading : State ℕ
leading = record fresh { term = 2; role = leader; leader_id = some "a" }

evaluate_quorum-leader_example :
    is_leader
      (evaluate_quorum whole (settings "a" ("b" ∷ "c" ∷ [])) tick (λ n m. "quorum_lost") [] leading)
    ≡ false
unfolding is_leader
evaluate_quorum-leader_example =
    (evaluate_quorum-leader whole (settings "a" ("b" ∷ "c" ∷ [])) tick (λ n m. "quorum_lost") []
      leading refl).0
