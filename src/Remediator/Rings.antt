-- ===== src/Remediator/Rings.antt =====
-- The remediator as the rings call it, and what a rotation does to its quarantine.
use huddle_cluster.Base.{
  has-add_to, has-discard, ℕ, ◌≡◌, String, Bool, true, false, not, ◌||◌, Option, none, some, List,
  [], ◌∷◌, arith, Bool-cases, inl, inr, eq_iff, if_holds,
}
use huddle_cluster.Base.Floats.{Floats}
use huddle_cluster.Ring.Outside.{Remediation}
use huddle_cluster.Remediator.Action.{RemediationPolicy, Effects, execute_action_payload}
use huddle_cluster.Remediator.{
  Remediator, is_treated, is_quarantined, get_server_state, record_eviction, record_recovery,
  record_circuit_breaker_open, check_stale_cooling_ring, check_hourly_rate_limit, retries_of,
  dead_lettered, put_in_quarantine, settle, begin_remediation, trigger_remediation,
}

module _ (fl : Floats) (fx : Effects) (now : fl.Float) where
  open fl use {Float}

  abbrev pub treated :
      String → Option (RemediationPolicy Float) → Remediator Float → Remediator Float
  treated id none r = r
  treated id (some p) r = (trigger_remediation fl fx now id p r).0

  unfoldable pub treat_all :
      List (String × RemediationPolicy Float) → Remediator Float → Remediator Float
  treat_all [] r = r
  treat_all ((id, p) ∷ rest) r = treat_all rest (trigger_remediation fl fx now id p r).0

  unfoldable pub on_eviction : Remediator Float → String → Remediator Float
  on_eviction r id = let found = record_eviction fl now id r in treated id found.1 found.0

  unfoldable pub on_circuit_open : Remediator Float → String → Remediator Float
  on_circuit_open r id = treated id (record_circuit_breaker_open fl r) r

  unfoldable pub on_stale_check : Remediator Float → Remediator Float
  on_stale_check r = treat_all (check_stale_cooling_ring fl now r) r

  -- `time.time()` is `now` during the whole of a rotation.
  abbrev pub remediation : Remediation Float (Remediator Float)
  remediation = record {
    is_quarantined = is_quarantined fl;
    on_eviction = on_eviction;
    on_recovery = λ r id. record_recovery fl id r;
    on_circuit_open = on_circuit_open;
    on_stale_check = on_stale_check;
  }

  abbrev pub IsHeld : String → Remediator Float → Type 0
  IsHeld a r = is_quarantined fl r a ≡ true

  IsHeld-settle :
      (a id : String) (p : RemediationPolicy Float) (success : Bool) (r : Remediator Float)
      → IsHeld a r
      → IsHeld a (settle fl id p success r)
  unfolding is_quarantined settle
  IsHeld-settle a id p true r h = h
  IsHeld-settle a id p false r h = h

  IsHeld-put_in_quarantine :
      (a id : String) (r : Remediator Float) → IsHeld a r → IsHeld a (put_in_quarantine fl now id r)
  unfolding is_quarantined put_in_quarantine
  IsHeld-put_in_quarantine a id r h = ground (arith, has-add_to id a r.quarantined_servers)

  IsHeld-dead_lettered :
      (a id : String) (p : RemediationPolicy Float) (r : Remediator Float)
      → IsHeld a r
      → IsHeld a (dead_lettered fl id p r)
  unfolding is_quarantined dead_lettered
  IsHeld-dead_lettered a id p r h = h

  IsHeld-check_hourly_rate_limit :
      (a id : String) (n : ℕ) (r : Remediator Float)
      → IsHeld a r
      → IsHeld a (check_hourly_rate_limit fl now id n r).0
  unfolding is_quarantined check_hourly_rate_limit
  IsHeld-check_hourly_rate_limit a id n r h = h

  IsHeld-begin_remediation :
      (a id : String) (p : RemediationPolicy Float) (r : Remediator Float)
      → IsHeld a r
      → IsHeld a (begin_remediation fl now id p r).0
  unfolding begin_remediation
  IsHeld-begin_remediation a id p r h =
      let checked = check_hourly_rate_limit fl now id (retries_of fl p r) r in
      let held = IsHeld-check_hourly_rate_limit a id (retries_of fl p r) r h in
      if_holds {A = Remediator Float × Bool} (λ x. IsHeld a x.0) (not r.enabled || not p.enabled)
        (r, false) _ h
        (if_holds {A = Remediator Float × Bool} (λ x. IsHeld a x.0) checked.1 _ _
          (IsHeld-put_in_quarantine a id checked.0 held)
          (IsHeld-dead_lettered a id p checked.0 held))

  IsHeld-trigger :
      (a id : String) (p : RemediationPolicy Float) (r : Remediator Float)
      → IsHeld a r
      → IsHeld a (trigger_remediation fl fx now id p r).0
  unfolding trigger_remediation
  IsHeld-trigger a id p r h =
      let begun = begin_remediation fl now id p r in
      let held = IsHeld-begin_remediation a id p r h in
      if_holds {A = Remediator Float × Bool} (λ x. IsHeld a x.0) begun.1 _ _
        (IsHeld-settle a id p (execute_action_payload fx p id) begun.0 held) held

  IsHeld-treat_all :
      (a : String) (xs : List (String × RemediationPolicy Float)) (r : Remediator Float)
      → IsHeld a r
      → IsHeld a (treat_all xs r)
  unfolding treat_all
  IsHeld-treat_all a [] r h = h
  IsHeld-treat_all a ((id, p) ∷ rest) r h =
      IsHeld-treat_all a rest (trigger_remediation fl fx now id p r).0 (IsHeld-trigger a id p r h)

  pub IsHeld-treated :
      (a id : String) (o : Option (RemediationPolicy Float)) (r : Remediator Float)
      → IsHeld a r
      → IsHeld a (treated id o r)
  IsHeld-treated a id none r h = h
  IsHeld-treated a id (some p) r h = IsHeld-trigger a id p r h

  IsHeld-record_eviction :
      (a id : String) (r : Remediator Float) → IsHeld a r → IsHeld a (record_eviction fl now id r).0
  unfolding is_quarantined record_eviction
  IsHeld-record_eviction a id r h = elim (Bool-cases r.enabled) [ inl t ↦ rw t h | inr t ↦ rw t h ]

  pub IsHeld-on_eviction :
      (a id : String) (r : Remediator Float) → IsHeld a r → IsHeld a (on_eviction r id)
  unfolding on_eviction
  IsHeld-on_eviction a id r h =
      IsHeld-treated a id (record_eviction fl now id r).1 (record_eviction fl now id r).0
        (IsHeld-record_eviction a id r h)

  pub IsHeld-on_stale_check :
      (a : String) (r : Remediator Float) → IsHeld a r → IsHeld a (on_stale_check r)
  unfolding on_stale_check
  IsHeld-on_stale_check a r h = IsHeld-treat_all a (check_stale_cooling_ring fl now r) r h

  -- A recovery of a server that is not in quarantine releases none.
  pub IsHeld-record_recovery :
      (a id : String) (r : Remediator Float)
      → is_quarantined fl r id ≡ false
      → IsHeld a r
      → IsHeld a (record_recovery fl id r)
  unfolding is_quarantined record_recovery
  IsHeld-record_recovery a id r free h = elim (Bool-cases (is_treated (get_server_state fl r id))) [
    | inl t ↦ rw t (ground (arith, has-discard id a r.quarantined_servers, eq_iff id a))
    | inr t ↦ rw t h
  ]
