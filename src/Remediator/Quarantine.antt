-- ===== src/Remediator/Quarantine.antt =====
-- The quarantine and the states of the servers, over the sections with the lock in any order.
use huddle_cluster.Base.{
  has, add_to, discard, has-add_to, has-discard, ℕ, ◌≡◌, refl, String, Bool, true, false, not, ◌||◌,
  some, List, [], ◌∷◌, arith, Bool-cases, ◌⊎◌, inl, inr, Dict, get, assign, if◌then◌else◌, str_eq,
  eq_iff, get-assign, str_eq_refl,
}
use huddle_cluster.Base.Floats.{Floats}
use huddle_cluster.Remediator.Action.{RemediationPolicy}
use huddle_cluster.Remediator.{
  RemediationState, healthy, quarantined, healing, verifying, recovered, dead_letter, Remediator,
  or_state, is_treated, is_quarantined, get_server_state, record_eviction, record_recovery,
  check_hourly_rate_limit, retries_of, dead_lettered, put_in_quarantine, settle, begin_remediation,
  clear_quarantine,
}

-- The states of a server that may be in quarantine.
abbrev pub is_confined : RemediationState → Bool
is_confined healthy = false
is_confined recovered = false
is_confined _ = true

-- The states of a server that is in quarantine.
abbrev pub needs_quarantine : RemediationState → Bool
needs_quarantine quarantined = true
needs_quarantine healing = true
needs_quarantine verifying = true
needs_quarantine _ = false

abbrev pub agrees : RemediationState → Bool → Bool
agrees s true = is_confined s
agrees s false = not (needs_quarantine s)

module _ (fl : Floats) where
  open fl use {Float}

  -- A server in quarantine has a state that may be, and a server under treatment is in quarantine.
  abbrev pub IsConsistent : Remediator Float → Type 0
  IsConsistent r = (id : String) → agrees (get_server_state fl r id) (is_quarantined fl r id) ≡ true

  -- A server that is assigned a state which agrees with its quarantine, while the others keep theirs.
  agrees_assigned :
      (id a : String) (s : RemediationState) (b : Bool) (states : Dict RemediationState)
      (q q' : List String)
      → has a q' ≡ (if str_eq id a then b else has a q)
      → agrees s b ≡ true
      → agrees (or_state (get a states)) (has a q) ≡ true
      → agrees (or_state (get a (assign id s states))) (has a q') ≡ true
  agrees_assigned id a s b states q q' e k h =
      rw e (rw (get-assign id a s states) (split (Bool-cases (str_eq id a))))
    where
      split :
          (str_eq id a ≡ true) ⊎ (str_eq id a ≡ false)
          → agrees
              (or_state (if str_eq id a then some s else get a states))
              (if str_eq id a then b else has a q)
            ≡ true
      split (inl t) = rw t k
      split (inr t) = rw t h

  agrees-record_recovery :
      (id a : String) (r : Remediator Float)
      → agrees (get_server_state fl r a) (is_quarantined fl r a) ≡ true
      → let r' = record_recovery fl id r in
        agrees (get_server_state fl r' a) (is_quarantined fl r' a) ≡ true
  unfolding record_recovery get_server_state is_quarantined
  agrees-record_recovery id a r h = elim (Bool-cases (is_treated (or_state (get id r.states)))) [
    | inl t ↦ rw t (
        agrees_assigned id a recovered false r.states r.quarantined_servers
          (discard id r.quarantined_servers) (has-discard id a r.quarantined_servers) refl h)
    | inr t ↦ rw t h
  ]

  agrees-clear_quarantine :
      (id a : String) (r : Remediator Float)
      → agrees (get_server_state fl r a) (is_quarantined fl r a) ≡ true
      → let r' = clear_quarantine fl id r in
        agrees (get_server_state fl r' a) (is_quarantined fl r' a) ≡ true
  unfolding clear_quarantine get_server_state is_quarantined
  agrees-clear_quarantine id a r h =
      agrees_assigned id a healthy false r.states r.quarantined_servers
        (discard id r.quarantined_servers) (has-discard id a r.quarantined_servers) refl h

  same_set :
      (id a : String) (q : List String) → has a q ≡ (if str_eq id a then has id q else has a q)
  same_set id a q = ground (arith, eq_iff id a)

  added_set :
      (id a : String) (q : List String)
      → has a (add_to id q) ≡ (if str_eq id a then true else has a q)
  added_set id a q = ground (arith, has-add_to id a q)

  agrees_dead_letter : (b : Bool) → agrees dead_letter b ≡ true
  agrees_dead_letter true = refl
  agrees_dead_letter false = refl

  agrees-dead_lettered :
      (id a : String) (p : RemediationPolicy Float) (r : Remediator Float)
      → agrees (get_server_state fl r a) (is_quarantined fl r a) ≡ true
      → let r' = dead_lettered fl id p r in
        agrees (get_server_state fl r' a) (is_quarantined fl r' a) ≡ true
  unfolding dead_lettered get_server_state is_quarantined
  agrees-dead_lettered id a p r h =
      agrees_assigned id a dead_letter (has id r.quarantined_servers) r.states r.quarantined_servers
        r.quarantined_servers (same_set id a r.quarantined_servers)
        (agrees_dead_letter (has id r.quarantined_servers)) h

  agrees-put_in_quarantine :
      (now : Float) (id a : String) (r : Remediator Float)
      → agrees (get_server_state fl r a) (is_quarantined fl r a) ≡ true
      → let r' = put_in_quarantine fl now id r in
        agrees (get_server_state fl r' a) (is_quarantined fl r' a) ≡ true
  unfolding put_in_quarantine get_server_state is_quarantined
  agrees-put_in_quarantine now id a r h =
      agrees_assigned id a quarantined true r.states r.quarantined_servers
        (add_to id r.quarantined_servers) (added_set id a r.quarantined_servers) refl h

  held_set :
      (id a : String) (q : List String)
      → has id q ≡ true
      → has a q ≡ (if str_eq id a then true else has a q)
  held_set id a q h = ground (arith, eq_iff id a)

  agrees-settle :
      (id a : String) (p : RemediationPolicy Float) (success : Bool) (r : Remediator Float)
      → is_quarantined fl r id ≡ true
      → agrees (get_server_state fl r a) (is_quarantined fl r a) ≡ true
      → let r' = settle fl id p success r in
        agrees (get_server_state fl r' a) (is_quarantined fl r' a) ≡ true
  unfolding settle get_server_state is_quarantined
  agrees-settle id a p true r k h =
      agrees_assigned id a healing true r.states r.quarantined_servers r.quarantined_servers
        (held_set id a r.quarantined_servers k) refl h
  agrees-settle id a p false r k h =
      agrees_assigned id a dead_letter true r.states r.quarantined_servers r.quarantined_servers
        (held_set id a r.quarantined_servers k) refl h

  agrees-check_hourly_rate_limit :
      (now : Float) (id a : String) (n : ℕ) (r : Remediator Float)
      → agrees (get_server_state fl r a) (is_quarantined fl r a) ≡ true
      → let r' = (check_hourly_rate_limit fl now id n r).0 in
        agrees (get_server_state fl r' a) (is_quarantined fl r' a) ≡ true
  unfolding check_hourly_rate_limit get_server_state is_quarantined
  agrees-check_hourly_rate_limit now id a n r h = h

  agrees-begin_remediation :
      (now : Float) (id a : String) (p : RemediationPolicy Float) (r : Remediator Float)
      → agrees (get_server_state fl r a) (is_quarantined fl r a) ≡ true
      → let r' = (begin_remediation fl now id p r).0 in
        agrees (get_server_state fl r' a) (is_quarantined fl r' a) ≡ true
  unfolding begin_remediation
  agrees-begin_remediation now id a p r h =
      let checked = check_hourly_rate_limit fl now id (retries_of fl p r) r in
      let kept = agrees-check_hourly_rate_limit now id a (retries_of fl p r) r h in
      elim (Bool-cases (not r.enabled || not p.enabled)) [
        | inl t ↦ rw t h
        | inr t ↦ rw t (elim (Bool-cases checked.1) [
          | inl u ↦ rw u (agrees-put_in_quarantine now id a checked.0 kept)
          | inr u ↦ rw u (agrees-dead_lettered id a p checked.0 kept)
        ])
      ]

  agrees-record_eviction :
      (now : Float) (id a : String) (r : Remediator Float)
      → agrees (get_server_state fl r a) (is_quarantined fl r a) ≡ true
      → let r' = (record_eviction fl now id r).0 in
        agrees (get_server_state fl r' a) (is_quarantined fl r' a) ≡ true
  unfolding record_eviction get_server_state is_quarantined
  agrees-record_eviction now id a r h = elim (Bool-cases r.enabled) [
    | inl t ↦ rw t h
    | inr t ↦ rw t h
  ]

-- What happens to a remediator: its sections with the lock. A trigger begins, and settles when its
-- action has ended, with the action's result; anything may fall between.
pub data Event (F : Type 0) : Type 0 where
  evicts : F → String → Event F
  recovers : String → Event F
  begins : F → String → RemediationPolicy F → Event F
  settles : String → RemediationPolicy F → Bool → Event F
  clears : String → Event F

module _ (fl : Floats) where
  open fl use {Float}

  unfoldable pub step : Event Float → Remediator Float → Remediator Float
  unfolding record_eviction record_recovery begin_remediation settle clear_quarantine
  step (evicts now id) r = (record_eviction fl now id r).0
  step (recovers id) r = record_recovery fl id r
  step (begins now id p) r = (begin_remediation fl now id p r).0
  step (settles id p success) r = settle fl id p success r
  step (clears id) r = clear_quarantine fl id r

  unfoldable pub run : List (Event Float) → Remediator Float → Remediator Float
  unfolding step
  run [] r = r
  run (e ∷ es) r = run es (step e r)

  -- When an action ends, its server is still in quarantine.
  abbrev pub Undisturbed : Event Float → Remediator Float → Type 0
  Undisturbed (settles id p success) r = is_quarantined fl r id ≡ true
  Undisturbed _ r = Unit

  abbrev pub IsUndisturbed : List (Event Float) → Remediator Float → Type 0
  IsUndisturbed [] r = Unit
  IsUndisturbed (e ∷ es) r = Undisturbed e r × IsUndisturbed es (step e r)

  step-IsConsistent :
      (e : Event Float) (r : Remediator Float)
      → Undisturbed e r
      → IsConsistent fl r
      → IsConsistent fl (step e r)
  unfolding step
  step-IsConsistent (evicts now id) r u h a = agrees-record_eviction fl now id a r (h a)
  step-IsConsistent (recovers id) r u h a = agrees-record_recovery fl id a r (h a)
  step-IsConsistent (begins now id p) r u h a = agrees-begin_remediation fl now id a p r (h a)
  step-IsConsistent (settles id p success) r u h a = agrees-settle fl id a p success r u (h a)
  step-IsConsistent (clears id) r u h a = agrees-clear_quarantine fl id a r (h a)

  -- Over any order of evictions, recoveries, manual clearings and the two sections of triggers, in
  -- which no server has left the quarantine when its action ends: if quarantine and states agree at
  -- first, they agree afterwards, that is a server whose state is quarantined, verifying or healing
  -- is in quarantine, and one that is healthy or recovered is not.
  pub run-IsConsistent :
      (es : List (Event Float)) (r : Remediator Float)
      → IsUndisturbed es r
      → IsConsistent fl r
      → IsConsistent fl (run es r)
  unfolding run
  run-IsConsistent [] r u h = h
  run-IsConsistent (e ∷ es) r u h = run-IsConsistent es (step e r) u.1 (step-IsConsistent e r u.0 h)

  -- A server that is cleared while its action runs is healing outside quarantine when the action ends.
  cleared_meanwhile :
      (id : String) (p : RemediationPolicy Float) (r : Remediator Float)
      → let r' = settle fl id p true (clear_quarantine fl id r) in
        (get_server_state fl r' id ≡ healing) × (is_quarantined fl r' id ≡ false)
  unfolding settle clear_quarantine get_server_state is_quarantined
  cleared_meanwhile id p r = (
    ground (
      arith,
      get-assign id id healing (assign id healthy r.states),
      eq_iff id id,
      str_eq_refl id,
    ),
    ground (arith, has-discard id id r.quarantined_servers, str_eq_refl id),
  )
