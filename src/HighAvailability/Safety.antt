-- ===== src/HighAvailability/Safety.antt =====
-- Election safety: two candidates cannot both have the votes of a majority in one term.
use huddle_cluster.Base.{
  ℕ, ◌+◌, ◌≡◌, String, Bool, true, false, ◌⊎◌, ◌&&◌, List, [], ◌∷◌, arith, All, if◌then◌else◌, ltb,
  ◌==◌, str_eq, leb,
}
use huddle_cluster.HighAvailability.{Settings, State, Tick, needed, is_leader_role}
use huddle_cluster.HighAvailability.Election.{
  Answer, unreachable, answer, Tally, outdated, votes, count_votes, start_election,
}
use huddle_cluster.HighAvailability.Voting.{Event, given, IsTimely, writes_of, is_restart}
use huddle_cluster.HighAvailability.Durable.{IsSaved}

-- The log has a vote for the candidate in the term.
abbrev pub has_vote : ℕ → String → List (ℕ × String) → Bool
has_vote t cand [] = false
has_vote t cand ((u, d) ∷ log) = if (u == t) && str_eq d cand then true else has_vote t cand log

-- A master with its history.
pub record Member (F : Type 0) : Type 0 where
  pub settings : Settings F
  pub start : State F
  pub events : List (Event F)

abbrev pub IsProper : {F : Type 0} → Member F → Type 0
IsProper m =
    IsTimely m.settings m.events m.start
    × (All (λ e. writes_of e ≡ true) m.events × IsSaved m.start
        ⊎ All (λ e. is_restart e ≡ false) m.events)

module _ {F : Type 0} where
  abbrev pub votes_of : Member F → List (ℕ × String)
  votes_of m = given m.settings m.events m.start []

  -- The members that voted for the candidate in the term.
  abbrev pub ballots : ℕ → String → List (Member F) → ℕ
  ballots t cand [] = 0
  ballots t cand (m ∷ ms) =
      if has_vote t cand (votes_of m) then ballots t cand ms + 1 else ballots t cand ms

-- How many peers granted their vote, and whether one reported a higher term.
abbrev pub grants : List Answer → ℕ
grants [] = 0
grants (unreachable ∷ rest) = grants rest
grants (answer t granted ∷ rest) = if granted then grants rest + 1 else grants rest

abbrev pub outranked : ℕ → List Answer → Bool
outranked term [] = false
outranked term (unreachable ∷ rest) = outranked term rest
outranked term (answer t granted ∷ rest) = if ltb term t then true else outranked term rest

abbrev is_votes : ℕ → Tally → Bool
is_votes n (outdated t) = false
is_votes n (votes m) = leb n m

count_votes-is_votes :
    (term n bound : ℕ) (answers : List Answer)
    → is_votes bound (count_votes term n answers)
      ≡ (if outranked term answers then false else leb bound (n + grants answers))
unfolding count_votes
count_votes-is_votes term n bound [] = ground arith
count_votes-is_votes term n bound (unreachable ∷ rest) = count_votes-is_votes term n bound rest
count_votes-is_votes term n bound (answer t true ∷ rest) =
    ground (arith, count_votes-is_votes term (n + 1) bound rest)
count_votes-is_votes term n bound (answer t false ∷ rest) =
    ground (arith, count_votes-is_votes term n bound rest)

-- An election that nothing interrupts makes the candidate leader exactly if no peer reports a
-- higher term and the votes granted to it, with its own, reach the majority that it needs.
start_election-leader :
    {F : Type 0} (c : Settings F) (k k' : Tick F) (answers : List Answer) (s : State F)
    → is_leader_role (start_election c k k' answers s).role
      ≡ (if outranked (s.term + 1) answers then false else leb (needed c) (grants answers + 1))
unfolding start_election
start_election-leader c k k' answers s =
    ground (arith, count_votes-is_votes (s.term + 1) 1 (needed c) answers)
