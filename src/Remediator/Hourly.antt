-- ===== src/Remediator/Hourly.antt =====
-- The hourly limit of the actions on a server, against the times of all of them.
use huddle_cluster.Base.{
  ℕ, ◌+◌, ◌≡◌, ◌∙◌, ◌<◌, sym, ap, refl, String, Bool, true, false, Option, List, [], ◌∷◌, ◌++◌,
  arith, Bool-cases, inl, inr, if_holds, if◌then◌else◌, str_eq, eq_iff, ltb, length, keep, All, get,
  subst,
}
use mathlib.Core.List.{append-nil}
use huddle_cluster.Base.Floats.{Floats, Laws}
use huddle_cluster.Remediator.Action.{RemediationPolicy}
use huddle_cluster.Remediator.Quarantine.{Event, evicts, recovers, begins, settles, clears, step}
use huddle_cluster.Remediator.{
  Remediator, in_hour, recent, record_eviction, record_recovery, retries_of, begin_remediation,
  settle, clear_quarantine,
}
use huddle_cluster.Remediator.Timestamps.{
  keep-append, keep-keep, times_of, times_of-append, stamps, Change, refused, throttled, taken,
  begin_remediation-Change, settle-keeps,
}

module _ (fl : Floats) where
  open fl use {Float, lt, le, sub, of_nat}

  -- How many earlier actions on a server lie within the hour before `now`.
  abbrev pub in_last_hour : Float → String → List (String × Float) → ℕ
  in_last_hour now id past = length (keep (in_hour fl now) (times_of id past))

  abbrev pub counted : ℕ → ℕ → Bool → List (ℕ × ℕ) → List (ℕ × ℕ)
  counted earlier limit acted rest = if acted then (earlier, limit) ∷ rest else rest

  abbrev pub noted : String → Float → Bool → List (String × Float) → List (String × Float)
  noted id now acted past = if acted then past ++ (id, now) ∷ [] else past

  -- For each event that counts as an action: how many actions on the server the hour before it holds,
  -- and the limit that applies.
  unfoldable pub actions :
      List (Event Float) → List (String × Float) → Remediator Float → List (ℕ × ℕ)
  actions [] past r = []
  actions (begins now id p ∷ es) past r =
      let r' = step fl (begins now id p) r in
      let acted = ltb r.total_actions r'.total_actions in
      counted (in_last_hour now id past) (retries_of fl p r) acted
        (actions es (noted id now acted past) r')
  actions (e ∷ es) past r = actions es past (step fl e r)

  -- The triggers begin in the order of their times.
  abbrev pub IsOrdered : Float → List (Event Float) → Type 0
  IsOrdered last [] = Unit
  IsOrdered last (begins now id p ∷ es) = (le last now ≡ true) × IsOrdered now es
  IsOrdered last (e ∷ es) = IsOrdered last es

  -- The timestamps are those of the past actions, as far as any later hour sees them.
  abbrev Tracks : List (String × Float) → Float → Remediator Float → Type 0
  Tracks past last r =
      (a : String) (now : Float)
      → le last now ≡ true
      → keep (in_hour fl now) (times_of a past) ≡ keep (in_hour fl now) (stamps fl a r)

  -- An hour that begins later holds no more of the past.
  abbrev pub IsAging : Type 0
  IsAging = (a b t : Float) → le a b ≡ true → in_hour fl b t ≡ true → in_hour fl a t ≡ true

  module _ (laws : Laws fl) (aging : IsAging) where
    open laws use {le_trans}

    -- The part of the past that a later hour sees, of the timestamps that are left at `now`.
    kept-recent :
        (past : List (String × Float)) (last now later : Float) (id : String) (r : Remediator Float)
        → Tracks past last r
        → le last now ≡ true
        → le now later ≡ true
        → keep (in_hour fl later) (times_of id past) ≡ keep (in_hour fl later) (recent fl now id r)
    unfolding recent
    kept-recent past last now later id r h k j =
        h id later (le_trans last now later k j)
        ∙ sym (
            keep-keep (in_hour fl later) (in_hour fl now) (stamps fl id r)
              (λ t. aging now later t j))

    own_part :
        (past : List (String × Float)) (last now later : Float) (id a : String)
        (r : Remediator Float)
        → Tracks past last r
        → le last now ≡ true
        → le now later ≡ true
        → str_eq id a ≡ true
        → keep (in_hour fl later) (times_of a past) ≡ keep (in_hour fl later) (recent fl now id r)
    own_part past last now later id a r h k j t =
        subst
          (λ b.
            keep (in_hour fl later) (times_of b past)
            ≡ keep (in_hour fl later) (recent fl now id r))
          ((eq_iff id a).0 t) (kept-recent past last now later id r h k j)

    Tracks-throttled :
        (past : List (String × Float)) (last now : Float) (id : String) (r r' : Remediator Float)
        → Tracks past last r
        → le last now ≡ true
        → ((a : String)
            → stamps fl a r' ≡ (if str_eq id a then recent fl now id r else stamps fl a r))
        → Tracks past now r'
    Tracks-throttled past last now id r r' h k e a later j =
        rw (e a) (elim (Bool-cases (str_eq id a)) [
          | inl t ↦ rw t (own_part past last now later id a r h k j t)
          | inr t ↦ rw t (h a later (le_trans last now later k j))
        ])

    Tracks-acted :
        (past : List (String × Float)) (last now : Float) (id : String) (r r' : Remediator Float)
        → Tracks past last r
        → le last now ≡ true
        → ((a : String)
            → stamps fl a r'
              ≡ (if str_eq id a then recent fl now id r ++ now ∷ [] else stamps fl a r))
        → Tracks (past ++ (id, now) ∷ []) now r'
    Tracks-acted past last now id r r' h k e a later j = rw (e a) (
        rw (times_of-append a past ((id, now) ∷ [])) (elim (Bool-cases (str_eq id a)) [
          | inl t ↦ rw t (
              keep-append (in_hour fl later) (times_of a past) (now ∷ [])
              ∙ ap (λ xs. xs ++ keep (in_hour fl later) (now ∷ []))
                  (own_part past last now later id a r h k j t)
              ∙ sym (keep-append (in_hour fl later) (recent fl now id r) (now ∷ [])))
          | inr t ↦ rw t (
              ap (keep (in_hour fl later)) (append-nil (times_of a past))
              ∙ h a later (le_trans last now later k j))
        ]))

    abbrev IsLimited : List (ℕ × ℕ) → Type 0
    IsLimited xs = All (λ x. x.0 < x.1) xs

    Tracks-refused :
        (past : List (String × Float)) (last now : Float) (r r' : Remediator Float)
        → Tracks past last r
        → le last now ≡ true
        → ((a : String) → stamps fl a r' ≡ stamps fl a r)
        → Tracks past now r'
    Tracks-refused past last now r r' h k e a later j =
        rw (e a) (h a later (le_trans last now later k j))

    not_acted : (n m : ℕ) → n ≡ m → ltb m n ≡ false
    not_acted n m e = ground arith

    more : (n m : ℕ) → n ≡ m + 1 → ltb m n ≡ true
    more n m e = ground arith

    -- A trigger, and what follows it.
    trigger-IsLimited :
        (past : List (String × Float)) (last now : Float) (id : String) (limit : ℕ)
        (r r' : Remediator Float)
        → (rest : List (String × Float) → List (ℕ × ℕ))
        → ((past' : List (String × Float)) → Tracks past' now r' → IsLimited (rest past'))
        → Tracks past last r
        → le last now ≡ true
        → Change fl now id limit r r'
        → let acted = ltb r.total_actions r'.total_actions in
          IsLimited
            (counted (in_last_hour now id past) limit acted (rest (noted id now acted past)))
    unfolding recent
    trigger-IsLimited past last now id limit r r' rest on h k (refused e d) =
        rw (not_acted _ _ e) (on past (Tracks-refused past last now r r' h k d))
    trigger-IsLimited past last now id limit r r' rest on h k (throttled e d) =
        rw (not_acted _ _ e) (on past (Tracks-throttled past last now id r r' h k d))
    trigger-IsLimited past last now id limit r r' rest on h k (taken e l d) = rw (more _ _ e) (
      subst (λ xs. length xs < limit) (sym (h id now k)) l,
      on (past ++ (id, now) ∷ []) (Tracks-acted past last now id r r' h k d),
    )

    Tracks-step :
        (past : List (String × Float)) (last : Float) (r r' : Remediator Float)
        → r'.attempt_timestamps ≡ r.attempt_timestamps
        → Tracks past last r
        → Tracks past last r'
    Tracks-step past last r r' e h a now j = rw e (h a now j)

    record_eviction-keeps :
        (now : Float) (id : String) (r : Remediator Float)
        → (record_eviction fl now id r).0.attempt_timestamps ≡ r.attempt_timestamps
    unfolding record_eviction
    record_eviction-keeps now id r =
        if_holds {A = Remediator Float × Option (RemediationPolicy Float)}
          (λ x. x.0.attempt_timestamps ≡ r.attempt_timestamps) r.enabled _ _ refl refl

    record_recovery-keeps :
        (id : String) (r : Remediator Float)
        → (record_recovery fl id r).attempt_timestamps ≡ r.attempt_timestamps
    unfolding record_recovery
    record_recovery-keeps id r =
        if_holds {A = Remediator Float} (λ x. x.attempt_timestamps ≡ r.attempt_timestamps) _ _ _
          refl refl

    actions_after :
        (es : List (Event Float)) (past : List (String × Float)) (last : Float)
        (r : Remediator Float)
        → Tracks past last r
        → IsOrdered last es
        → IsLimited (actions es past r)
    unfolding actions step clear_quarantine
    actions_after [] past last r h o = tt
    actions_after (begins now id p ∷ es) past last r h o =
        let r' = (begin_remediation fl now id p r).0 in
        trigger-IsLimited past last now id (retries_of fl p r) r r' (λ past'. actions es past' r')
          (λ past' h'. actions_after es past' now r' h' o.1) h o.0
          (begin_remediation-Change fl now id p r)
    actions_after (evicts now id ∷ es) past last r h o =
        actions_after es past last (record_eviction fl now id r).0
          (Tracks-step past last r (record_eviction fl now id r).0 (record_eviction-keeps now id r)
            h)
          o
    actions_after (recovers id ∷ es) past last r h o =
        actions_after es past last (record_recovery fl id r)
          (Tracks-step past last r (record_recovery fl id r) (record_recovery-keeps id r) h) o
    actions_after (settles id p success ∷ es) past last r h o =
        actions_after es past last (settle fl id p success r)
          (Tracks-step past last r (settle fl id p success r) (settle-keeps fl id p success r) h) o
    actions_after (clears id ∷ es) past last r h o =
        actions_after es past last (clear_quarantine fl id r)
          (Tracks-step past last r (clear_quarantine fl id r) refl h) o

    -- If the triggers begin in the order of their times, no action on a server is taken once the hour
    -- before it holds as many actions on that server as its policy, or else the remediator, allows; the
    -- remediator begins without an attempt, and evictions, recoveries, clearings and the ends of the
    -- actions may fall between.
    pub actions-IsLimited :
        (es : List (Event Float)) (last : Float) (r : Remediator Float)
        → r.attempt_timestamps ≡ []
        → IsOrdered last es
        → All (λ x. x.0 < x.1) (actions es [] r)
    unfolding get
    actions-IsLimited es last r e o = actions_after es [] last r (λ a now j. rw e refl) o
