-- ===== src/Remediator/Timestamps.antt =====
-- The timestamps of the attempts on a server, and what a trigger does to them.
use huddle_cluster.Base.{
  ℕ, ◌+◌, ◌≡◌, ◌∙◌, ◌<◌, refl, String, Bool, true, false, not, ◌||◌, List, [], ◌∷◌, ◌++◌, arith,
  Bool-cases, inl, inr, if◌then◌else◌, str_eq, str_eq_refl, length, keep, Dict, get, assign,
  get-assign,
}
use huddle_cluster.Base.Floats.{Floats}
use huddle_cluster.Remediator.Action.{RemediationPolicy}
use huddle_cluster.Remediator.{
  Remediator, or_nothing, recent, check_hourly_rate_limit, retries_of, dead_lettered,
  put_in_quarantine, settle, begin_remediation,
}

pub keep-append :
    {A : Type 0} (p : A → Bool) (xs ys : List A) → keep p (xs ++ ys) ≡ keep p xs ++ keep p ys
keep-append p [] ys = refl
keep-append p (x ∷ xs) ys = ground (arith, keep-append p xs ys)

-- What a weaker test lets through does not matter to a stronger one.
pub keep-keep :
    {A : Type 0} (p q : A → Bool) (xs : List A)
    → ((x : A) → p x ≡ true → q x ≡ true)
    → keep p (keep q xs) ≡ keep p xs
keep-keep p q [] h = refl
keep-keep p q (x ∷ xs) h = ground (arith, keep-keep p q xs h, h x)

-- The times of the actions on a server.
abbrev pub times_of : {F : Type 0} → String → List (String × F) → List F
times_of id [] = []
times_of id ((name, at) ∷ rest) =
    let later = times_of id rest in if str_eq name id then at ∷ later else later

pub times_of-append :
    {F : Type 0} (id : String) (xs ys : List (String × F))
    → times_of id (xs ++ ys) ≡ times_of id xs ++ times_of id ys
times_of-append id [] ys = refl
times_of-append id ((name, at) ∷ xs) ys = ground (arith, times_of-append id xs ys)

module _ (fl : Floats) where
  open fl use {Float, lt, le, sub, of_nat}

  abbrev pub stamps : String → Remediator Float → List Float
  stamps id r = or_nothing (get id r.attempt_timestamps)

  -- What a trigger does to the timestamps: nothing, or it prunes those of the server, or it prunes them
  -- and adds its own.
  pub data Change (now : Float) (id : String) (limit : ℕ) (r r' : Remediator Float) : Type 0 where
    refused :
        r'.total_actions ≡ r.total_actions
        → ((a : String) → stamps a r' ≡ stamps a r)
        → Change now id limit r r'
    throttled :
        r'.total_actions ≡ r.total_actions
        → ((a : String) → stamps a r' ≡ (if str_eq id a then recent fl now id r else stamps a r))
        → Change now id limit r r'
    taken :
        r'.total_actions ≡ r.total_actions + 1
        → length (recent fl now id r) < limit
        → ((a : String)
            → stamps a r' ≡ (if str_eq id a then recent fl now id r ++ now ∷ [] else stamps a r))
        → Change now id limit r r'

  stamps-assign :
      (id a : String) (xs : List Float) (d : Dict (List Float))
      → or_nothing (get a (assign id xs d)) ≡ (if str_eq id a then xs else or_nothing (get a d))
  stamps-assign id a xs d = ground (arith, get-assign id a xs d)

  Change-dead_lettered :
      (now : Float) (id : String) (p : RemediationPolicy Float) (limit : ℕ) (r : Remediator Float)
      → Change now id limit r (dead_lettered fl id p (check_hourly_rate_limit fl now id limit r).0)
  unfolding dead_lettered check_hourly_rate_limit
  Change-dead_lettered now id p limit r =
      throttled refl (λ a. stamps-assign id a (recent fl now id r) r.attempt_timestamps)

  appended :
      (id a : String) (now : Float) (pruned own mine other old : List Float)
      → own ≡ (if str_eq id id then pruned else mine)
      → other ≡ (if str_eq id a then pruned else old)
      → (if str_eq id a then own ++ now ∷ [] else other)
        ≡ (if str_eq id a then pruned ++ now ∷ [] else old)
  appended id a now pruned own mine other old e k = ground (arith, str_eq_refl id)

  stamps-put :
      (now : Float) (id a : String) (limit : ℕ) (r : Remediator Float)
      → stamps a (put_in_quarantine fl now id (check_hourly_rate_limit fl now id limit r).0)
        ≡ (if str_eq id a then recent fl now id r ++ now ∷ [] else stamps a r)
  unfolding put_in_quarantine check_hourly_rate_limit
  stamps-put now id a limit r =
      let pruned = recent fl now id r in
      let d = assign id pruned r.attempt_timestamps in
      stamps-assign id a (or_nothing (get id d) ++ now ∷ []) d
      ∙ appended id a now pruned (or_nothing (get id d)) (stamps id r) (or_nothing (get a d))
          (stamps a r) (stamps-assign id id pruned r.attempt_timestamps)
          (stamps-assign id a pruned r.attempt_timestamps)

  pub settle-keeps :
      (id : String) (p : RemediationPolicy Float) (success : Bool) (r : Remediator Float)
      → (settle fl id p success r).attempt_timestamps ≡ r.attempt_timestamps
  unfolding settle
  settle-keeps id p true r = refl
  settle-keeps id p false r = refl

  put_actions :
      (now : Float) (id : String) (limit : ℕ) (r : Remediator Float)
      → (put_in_quarantine fl now id (check_hourly_rate_limit fl now id limit r).0).total_actions
        ≡ r.total_actions + 1
  unfolding put_in_quarantine check_hourly_rate_limit
  put_actions now id limit r = refl

  allowed :
      (now : Float) (id : String) (limit : ℕ) (r : Remediator Float)
      → (check_hourly_rate_limit fl now id limit r).1 ≡ true
      → length (recent fl now id r) < limit
  unfolding check_hourly_rate_limit
  allowed now id limit r h = ground arith

  pub begin_remediation-Change :
      (now : Float) (id : String) (p : RemediationPolicy Float) (r : Remediator Float)
      → Change now id (retries_of fl p r) r (begin_remediation fl now id p r).0
  unfolding begin_remediation
  begin_remediation-Change now id p r =
      let limit = retries_of fl p r in
      let checked = check_hourly_rate_limit fl now id limit r in
      elim (Bool-cases (not r.enabled || not p.enabled)) [
        | inl t ↦ rw t (refused refl (λ a. refl))
        | inr t ↦ rw t (elim (Bool-cases checked.1) [
          | inl u ↦ rw u (
              taken (put_actions now id limit r) (allowed now id limit r u)
                (λ a. stamps-put now id a limit r))
          | inr u ↦ rw u (Change-dead_lettered now id p limit r)
        ])
      ]
