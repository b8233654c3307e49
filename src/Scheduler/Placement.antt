-- ===== src/Scheduler/Placement.antt =====
-- Where the scheduler places a workload: on a node that every gate lets through, and on the best of
-- them.
use huddle_cluster.Base.{
  ◌≡◌, ◌∙◌, refl, String, Bool, true, false, not, Option, none, some, List, [], ◌∷◌, arith, ◌⊎◌,
  inl, inr, In, All, IsWithin, IsWithin-refl, IsWithin-keep, All-In, All-keep, All-keep_sound,
  All-both, All-weaken, get, keep, str_eq, if◌then◌else◌, subst,
}
use huddle_cluster.Base.Floats.{Floats, Laws}
use huddle_cluster.Scheduler.Fitness.{Candidate, Maths}
use huddle_cluster.Scheduler.Asked.{Gates, GatesLaws, Others}
use huddle_cluster.Scheduler.{
  State, Settings, is_alive, is_quarantined, is_usable, best, find_node, unlimited, or_all,
  narrowed, wanted, in_region, score, best_of, or_else, select, bound, place, settled, candidates,
  pick_locked, pick,
}
use huddle_cluster.Scheduler.Best.{best-In, best-IsMax}

find_node-In :
    {F : Type 0} (id : String) (pool : List (Candidate F)) (n : Candidate F)
    → find_node id pool ≡ some n
    → In n pool
unfolding find_node
find_node-In id [] n h = ground arith
find_node-In id (m ∷ rest) n h = ground (arith, find_node-In id rest n)

or_all-IsWithin :
    {A : Type 0} (some_of pool : List A)
    → IsWithin some_of pool
    → IsWithin (or_all some_of pool) pool
or_all-IsWithin [] pool h = IsWithin-refl pool
or_all-IsWithin (n ∷ some_of) pool h = h

in_region-IsWithin :
    {F : Type 0} (normal : String → String) (target : Option String) (pool : List (Candidate F))
    → IsWithin (in_region normal target pool) pool
in_region-IsWithin normal none pool = IsWithin-refl pool
in_region-IsWithin normal (some t) pool =
    or_all-IsWithin (keep (λ n. str_eq (normal n.region) t) pool) pool (IsWithin-keep _ pool)

IsWithin-kept_on :
    {A : Type 0} (P : A → Type 0) (xs ys : List A) → IsWithin xs ys → All P ys → All P xs
IsWithin-kept_on P xs ys h all = All-weaken (λ x. In x ys) P xs (λ x i. All-In P x ys all i) h

module _ {F L : Type 0} (g : Gates F L) (laws : GatesLaws g) where
  narrowed-IsWithin : (pool : List (Candidate F)) → IsWithin (narrowed g.pick_pool pool) pool
  narrowed-IsWithin [] = tt
  narrowed-IsWithin (n ∷ rest) = laws.pick_pool-In (n ∷ rest)

-- A question that leaves out a node hands the others on.
unlimited_cons :
    {F : Type 0} (limited : Bool) (n : Candidate F) (others nodes : List (Candidate F))
    → IsWithin others nodes
    → IsWithin (if limited then others else n ∷ others) (n ∷ nodes)
unlimited_cons true n others nodes h =
    All-weaken (λ x. In x nodes) (λ x. In x (n ∷ nodes)) others (λ x i. inr i) h
unlimited_cons false n others nodes h =
    (inl refl, All-weaken (λ x. In x nodes) (λ x. In x (n ∷ nodes)) others (λ x i. inr i) h)

unlimited-IsWithin :
    {F L : Type 0} (meanwhile : String → L → L) (asks : String → L → L × Bool) (l : L)
    (nodes : List (Candidate F))
    → IsWithin (unlimited meanwhile asks l nodes).1 nodes
unfolding unlimited
unlimited-IsWithin meanwhile asks l [] = tt
unlimited-IsWithin meanwhile asks l (n ∷ rest) =
    let r = asks n.node_id (meanwhile n.node_id l) in
    unlimited_cons r.1 n _ rest (unlimited-IsWithin meanwhile asks r.0 rest)

not-true : (b : Bool) → not b ≡ true → b ≡ false
not-true true h = ground arith
not-true false h = refl

module _ (fl : Floats) (maths : Maths fl.Float) (c : Settings fl.Float) {L : Type 0}
    (g : Gates fl.Float L) (gates : GatesLaws g) (w : Others L) (normal : String → String) where
  open fl use {Float, lt, le, of_nat}

  -- The nodes that the limiter let through.
  abbrev pub let_through : List (Candidate Float) → L → List (Candidate Float)
  let_through nodes l =
      (unlimited w.asked g.is_rate_limited l
        (keep (λ n. not (g.is_open n.node_id)) (keep (λ n. is_usable n.status) nodes))).1

  -- What the gates say of a node.
  abbrev pub IsLetThrough : List (Candidate Float) → L → Candidate Float → Type 0
  IsLetThrough nodes l n =
      In n nodes
      × (is_usable n.status ≡ true)
      × (g.is_open n.node_id ≡ false)
      × In n (let_through nodes l)

  let_through-All :
      (nodes : List (Candidate Float)) (l : L) → All (IsLetThrough nodes l) (let_through nodes l)
  let_through-All nodes l =
      let usable : List (Candidate Float) = keep (λ n. is_usable n.status) nodes in
      let pool : List (Candidate Float) = keep (λ n. not (g.is_open n.node_id)) usable in
      All-weaken
        (λ n.
          ((In n nodes × (is_usable n.status ≡ true)) × (not (g.is_open n.node_id) ≡ true))
          × In n (let_through nodes l))
        (IsLetThrough nodes l) (let_through nodes l)
        (λ n h. (h.0.0.0, h.0.0.1, not-true (g.is_open n.node_id) h.0.1, h.1))
        (All-both
          (λ n. (In n nodes × (is_usable n.status ≡ true)) × (not (g.is_open n.node_id) ≡ true))
          (λ n. In n (let_through nodes l)) (let_through nodes l)
          (IsWithin-kept_on
            (λ n. (In n nodes × (is_usable n.status ≡ true)) × (not (g.is_open n.node_id) ≡ true))
            (let_through nodes l) pool (unlimited-IsWithin w.asked g.is_rate_limited l pool)
            (All-both (λ n. In n nodes × (is_usable n.status ≡ true))
              (λ n. not (g.is_open n.node_id) ≡ true) pool
              (All-keep _ (λ n. not (g.is_open n.node_id)) usable
                (All-both (λ n. In n nodes) (λ n. is_usable n.status ≡ true) usable
                  (IsWithin-keep _ nodes) (All-keep_sound (λ n. is_usable n.status) nodes)))
              (All-keep_sound (λ n. not (g.is_open n.node_id)) usable)))
          (IsWithin-refl (let_through nodes l)))

  candidates-All :
      (region : Option String) (nodes : List (Candidate Float)) (l : L)
      → All (IsLetThrough nodes l) (candidates fl maths c g w normal region nodes l).1
  unfolding candidates
  candidates-All region nodes l =
      IsWithin-kept_on (IsLetThrough nodes l) _ (narrowed g.pick_pool (let_through nodes l))
        (in_region-IsWithin normal (wanted normal region)
          (narrowed g.pick_pool (let_through nodes l)))
        (IsWithin-kept_on (IsLetThrough nodes l) _ (let_through nodes l)
          (narrowed-IsWithin g gates (let_through nodes l)) (let_through-All nodes l))

In-keep_pool : {A : Type 0} (p : A → Bool) (a : A) (xs : List A) → In a (keep p xs) → In a xs
In-keep_pool p a xs i = All-In (λ x. In x xs) a (keep p xs) (IsWithin-keep p xs) i

module _ (fl : Floats) (laws : Laws fl) (maths : Maths fl.Float) (c : Settings fl.Float) where
  open fl use {Float, lt, le, of_nat}

  -- A member of the pool with no member ahead of it, and no negative score.
  abbrev pub IsBestOf : Float → State Float → List (Candidate Float) → Candidate Float → Type 0
  IsBestOf now s pool n =
      In n pool
      × (le (of_nat 0) (score fl maths c now s n) ≡ true)
      × All (λ z. lt (score fl maths c now s n) (score fl maths c now s z) ≡ false) pool

  taken :
      (now : Float) (s : State Float) (m : Candidate Float) (rest : List (Candidate Float))
      (n : Candidate Float) (t : Bool)
      → le (of_nat 0) (score fl maths c now s (best lt (score fl maths c now s) m rest)) ≡ t
      → (if t then some (best lt (score fl maths c now s) m rest) else none) ≡ some n
      → IsBestOf now s (m ∷ rest) n
  taken now s m rest n true e h = subst (IsBestOf now s (m ∷ rest)) (cc) (
    best-In lt (score fl maths c now s) m rest,
    e,
    best-IsMax fl laws (score fl maths c now s) m rest,
  )
  taken now s m rest n false e h = ground arith

  best_of-IsBestOf :
      (now : Float) (s : State Float) (pool : List (Candidate Float)) (n : Candidate Float)
      → best_of fl maths c now s pool ≡ some n
      → IsBestOf now s pool n
  best_of-IsBestOf now s [] n h = ground arith
  best_of-IsBestOf now s (m ∷ rest) n h = taken now s m rest n _ refl h

  abbrev pub alive_of : List (Candidate Float) → List (Candidate Float)
  alive_of pool = keep (λ n. is_alive n.status) pool

  abbrev pub quarantined_of : List (Candidate Float) → List (Candidate Float)
  quarantined_of pool = keep (λ n. is_quarantined n.status) pool

  -- What the choice is the best of: the alive nodes first, where they are preferred.
  abbrev pub IsChosen :
      Float → State Float → List (Candidate Float) → Candidate Float → Bool → Type 0
  IsChosen now s pool n false = IsBestOf now s pool n
  IsChosen now s pool n true =
      IsBestOf now s (alive_of pool) n
      ⊎ ((best_of fl maths c now s (alive_of pool) ≡ none) × IsBestOf now s (quarantined_of pool) n)

  either :
      (now : Float) (s : State Float) (pool : List (Candidate Float)) (n : Candidate Float)
      (o : Option (Candidate Float))
      → best_of fl maths c now s (alive_of pool) ≡ o
      → or_else fl maths c o (best_of fl maths c now s (quarantined_of pool)) ≡ some n
      → IsChosen now s pool n true
  either now s pool n none e h = inr (e, best_of-IsBestOf now s (quarantined_of pool) n h)
  either now s pool n (some b) e h = inl (best_of-IsBestOf now s (alive_of pool) n (e ∙ h))

  by_preference :
      (now : Float) (s : State Float) (pool : List (Candidate Float)) (n : Candidate Float)
      (t : Bool)
      → (if t
          then or_else fl maths c
              (best_of fl maths c now s (alive_of pool))
              (best_of fl maths c now s (quarantined_of pool))
          else best_of fl maths c now s pool)
        ≡ some n
      → IsChosen now s pool n t
  by_preference now s pool n true h = either now s pool n _ refl h
  by_preference now s pool n false h = best_of-IsBestOf now s pool n h

  -- The scheduler selects a node of the pool that no other one beats, by fitness over heat; where
  -- alive nodes are preferred it is an alive one, or a quarantined one if there is no alive node or
  -- the best alive one has no score of 0 or more.
  pub select-IsChosen :
      (now : Float) (s : State Float) (pool : List (Candidate Float)) (n : Candidate Float)
      → select fl maths c now s pool ≡ some n
      → IsChosen now s pool n c.prefer_alive
  unfolding select
  select-IsChosen now s pool n h = by_preference now s pool n c.prefer_alive h

  IsChosen-In :
      (now : Float) (s : State Float) (pool : List (Candidate Float)) (n : Candidate Float)
      (t : Bool)
      → IsChosen now s pool n t
      → In n pool
  IsChosen-In now s pool n true (inl b) = In-keep_pool (λ m. is_alive m.status) n pool b.0
  IsChosen-In now s pool n true (inr b) = In-keep_pool (λ m. is_quarantined m.status) n pool b.1.0
  IsChosen-In now s pool n false b = b.0

  bound-In :
      (key : Option String) (s : State Float) (pool : List (Candidate Float)) (n : Candidate Float)
      → bound fl maths c key s pool ≡ some n
      → In n pool
  bound-In none s pool n h = ground arith
  bound-In (some key) s pool n h = found (get key s.affinity_map) h
    where
      found :
          (o : Option String)
          → (elim o [ none ↦ none | some id ↦ find_node id pool ]) ≡ some n
          → In n pool
      found none h' = ground arith
      found (some id) h' = find_node-In id pool n h'

  module _ {L : Type 0} (g : Gates Float L) (gates : GatesLaws g) (w : Others L)
      (normal : String → String) where
    settled-In :
        (now : Float) (key : Option String) (s : State Float) (l : L)
        (pool : List (Candidate Float)) (n : Candidate Float) (b o : Option (Candidate Float))
        → bound fl maths c key s pool ≡ b
        → select fl maths c now s pool ≡ o
        → (settled fl maths c g.consume now key s l b o).0 ≡ some n
        → In n pool
    unfolding place
    settled-In now key s l pool n (some b) o e e' h = bound-In key s pool n (e ∙ h)
    settled-In now key s l pool n none none e e' h = ground arith
    settled-In now key s l pool n none (some m) e e' h =
        IsChosen-In now s pool n c.prefer_alive (select-IsChosen now s pool n (e' ∙ h))

    -- Whatever other threads do meanwhile, a workload is placed only on a node of the list that is neither dead nor leaving, whose
    -- breaker does not block it and which the rate limiter let through.
    pub pick-IsLetThrough :
        (now : Float) (key region : Option String) (nodes : List (Candidate Float))
        (s : State Float) (l : L) (n : Candidate Float)
        → (pick fl maths c g w normal now key region nodes s l).0 ≡ some n
        → IsLetThrough fl maths c g gates w normal nodes l n
    unfolding pick pick_locked
    pick-IsLetThrough now key region nodes s l n h =
        All-In (IsLetThrough fl maths c g gates w normal nodes l) n
          (candidates fl maths c g w normal region nodes l).1
          (candidates-All fl maths c g gates w normal region nodes l)
          (settled-In now key s (w.placed (candidates fl maths c g w normal region nodes l).0)
            (candidates fl maths c g w normal region nodes l).1 n _ _ refl refl h)
