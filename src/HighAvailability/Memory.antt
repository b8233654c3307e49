-- ===== src/HighAvailability/Memory.antt =====
-- What a master remembers of the votes that it gave, and that each event keeps it.
use huddle_cluster.Base.{
  ℕ, ◌+◌, ◌≤◌, ◌<◌, ◌≡◌, refl, ap, String, Bool, true, false, Option, none, some, List, [], ◌∷◌,
  ◌++◌, arith, All, ◌⊎◌, inl, inr, if◌then◌else◌, eq_iff,
}
use native.Mathlib.Nat.{le_refl}
use huddle_cluster.HighAvailability.{
  Settings, Tick, State, step_down, can_vote, handle_vote_request, handle_append_entries,
  enter_readonly_mode, exit_readonly_mode,
}
use huddle_cluster.HighAvailability.Election.{begin_election, become_leader}
use huddle_cluster.HighAvailability.Voting.{
  Event, vote_request, append_entries, election_begins, election_won, term_seen, goes_readonly,
  leaves_readonly, restarts, restart, step, gives, given, Orderly, IsOrderly, Agrees, IsConsistent,
}

-- The state remembers the votes of its term, and has passed all others.
abbrev pub Remembers : {F : Type 0} → State F → ℕ × String → Type 0
Remembers s v = (v.0 ≤ s.term) × (v.0 ≡ s.term → s.voted_for ≡ some v.1)

pub record Inv {F : Type 0} (s : State F) (log : List (ℕ × String)) : Type 0 where
  pub remembered : All (Remembers s) log
  pub consistent : IsConsistent log

can_vote_lem :
    (o : Option String) (cand : String) → can_vote o cand ≡ true → (o ≡ none) ⊎ (o ≡ some cand)
can_vote_lem none cand h = inl refl
can_vote_lem (some v) cand h = inr (ap some ((eq_iff v cand).0 h))

module _ {F : Type 0} where
  -- A later term, or the same term with the same vote or a first one, forgets nothing.
  abbrev Extends : State F → State F → Type 0
  Extends s s' = (s.term < s'.term) ⊎ (s'.term ≡ s.term) × (s'.voted_for ≡ s.voted_for)

  Remembers-Extends :
      (s s' : State F) (log : List (ℕ × String))
      → Extends s s'
      → All (Remembers s) log
      → All (Remembers s') log
  Remembers-Extends s s' [] e all = tt
  Remembers-Extends s s' (v ∷ log) e all = (ground arith, Remembers-Extends s s' log e all.1)

  -- A vote for the candidate in the state's term, which was free or the candidate's before.
  abbrev Gave : State F → State F → String → Type 0
  Gave s s' cand =
      (s'.voted_for ≡ some cand)
      × ((s.term < s'.term)
          ⊎ (s'.term ≡ s.term) × ((s.voted_for ≡ none) ⊎ (s.voted_for ≡ some cand)))

  Remembers-Gave :
      (s s' : State F) (cand : String) (log : List (ℕ × String))
      → Gave s s' cand
      → All (Remembers s) log
      → All (Remembers s') log × All (Agrees (s'.term, cand)) log
  Remembers-Gave s s' cand [] g all = (tt, tt)
  Remembers-Gave s s' cand (v ∷ log) g all =
      let rest = Remembers-Gave s s' cand log g all.1 in
      ((ground arith, rest.0), (ground arith, rest.1))

  Inv-keep : (s s' : State F) (log : List (ℕ × String)) → Extends s s' → Inv s log → Inv s' log
  Inv-keep s s' log e i = record {
    remembered = Remembers-Extends s s' log e i.remembered;
    consistent = i.consistent;
  }

  Inv-give :
      (s s' : State F) (cand : String) (log : List (ℕ × String))
      → Gave s s' cand
      → Inv s log
      → Inv s' ((s'.term, cand) ∷ log)
  Inv-give s s' cand log g i =
      let old = Remembers-Gave s s' cand log g i.remembered in
      record { remembered = ((le_refl _, λ e. g.0), old.0); consistent = (old.1, i.consistent) }

  vote_request-outcome :
      (k : Tick F) (cand : String) (t : ℕ) (s : State F)
      → let r = handle_vote_request k cand t s in
        (r.2 ≡ r.0.term) × ((r.1 ≡ true) × Gave s r.0 cand ⊎ (r.1 ≡ false) × Extends s r.0)
  unfolding handle_vote_request
  vote_request-outcome k cand t s =
      ground (arith, can_vote_lem s.voted_for cand, can_vote_lem none cand)

  vote_request-Inv :
      (k : Tick F) (cand : String) (t : ℕ) (s : State F) (log : List (ℕ × String))
      → Inv s log
      → let r = handle_vote_request k cand t s in
        Inv r.0 ((if r.1 then (r.2, cand) ∷ [] else []) ++ log)
  vote_request-Inv k cand t s log i =
      go (handle_vote_request k cand t s) (vote_request-outcome k cand t s)
    where
      go :
          (r : State F × Bool × ℕ)
          → (r.2 ≡ r.0.term) × ((r.1 ≡ true) × Gave s r.0 cand ⊎ (r.1 ≡ false) × Extends s r.0)
          → Inv r.0 ((if r.1 then (r.2, cand) ∷ [] else []) ++ log)
      go r (t, inl (granted, g)) = rw (granted, t) (Inv-give s r.0 cand log g i)
      go r (t, inr (denied, e)) = rw denied (Inv-keep s r.0 log e i)

  append_entries-outcome :
      (c : Settings F) (k : Tick F) (lead url : String) (t : ℕ) (s : State F)
      → let s' = (handle_append_entries c k lead url t s).0 in Extends s s'
  unfolding handle_append_entries
  append_entries-outcome c k lead url t s = ground arith

  begin_election-outcome :
      (c : Settings F) (k : Tick F) (s : State F)
      → let s' = begin_election c k s in (s'.term ≡ s.term + 1) × Gave s s' c.id
  unfolding begin_election
  begin_election-outcome c k s = ground arith

  enter_readonly_mode-outcome :
      (k : Tick F) (reason : String) (s : State F)
      → let s' = enter_readonly_mode k reason s in Extends s s'
  unfolding enter_readonly_mode
  enter_readonly_mode-outcome k reason s = ground arith

  -- Each event keeps the invariant, with the vote that it gives.
  pub step-Inv :
      (c : Settings F) (e : Event F) (s : State F) (log : List (ℕ × String))
      → Orderly e s
      → Inv s log
      → Inv (step c e s) (gives c e s ++ log)
  unfolding step gives become_leader step_down restart exit_readonly_mode
  step-Inv c (vote_request k cand t) s log o i = vote_request-Inv k cand t s log i
  step-Inv c (append_entries k lead url t) s log o i =
      Inv-keep s _ log (append_entries-outcome c k lead url t s) i
  step-Inv c (election_begins k) s log o i =
      let r = begin_election-outcome c k s in
      rw (← r.0) (Inv-give s (begin_election c k s) c.id log r.1 i)
  step-Inv c (election_won k) s log o i = Inv-keep s _ log (inr (refl, refl)) i
  step-Inv c (term_seen k t) s log o i =
      Inv-keep s (step_down k t s) log (inl (ground (arith, o))) i
  step-Inv c (goes_readonly k reason) s log o i =
      Inv-keep s _ log (enter_readonly_mode-outcome k reason s) i
  step-Inv c leaves_readonly s log o i = Inv-keep s _ log (inr (refl, refl)) i
  step-Inv c restarts s log o i = Inv-keep s _ log (inr (ap (λ v. v.0) o, ap (λ v. v.1) o)) i

  pub given-IsConsistent :
      (c : Settings F) (es : List (Event F)) (s : State F) (log : List (ℕ × String))
      → IsOrderly c es s
      → Inv s log
      → IsConsistent (given c es s log)
  unfolding given
  given-IsConsistent c [] s log o i = i.consistent
  given-IsConsistent c (e ∷ es) s log o i =
      given-IsConsistent c es _ _ o.1 (step-Inv c e s log o.0 i)
