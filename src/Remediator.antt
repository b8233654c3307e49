-- ===== src/Remediator.antt =====
-- The remediator: huddle_cluster_pkg/cluster_remediator.py. The callbacks, the local commands and the
-- webhooks of its policies are parameters.
pub mod Action
pub mod Quarantine
pub mod Timestamps
pub mod Hourly
pub mod Rings
pub mod Rotation
mod Tests
use huddle_cluster.Base.{
  has, add_to, discard, ℕ, zero, suc, ◌+◌, String, Bool, true, false, not, ◌&&◌, ◌||◌, Option, none,
  some, List, [], ◌∷◌, ◌++◌, Dict, get, assign, pop, has_key, if◌then◌else◌, leb, ltb, str_eq, keep,
  length, drop,
}
use huddle_cluster.Base.Floats.{Floats}
use Action.{
  RemediationPolicy, RemediationTrigger, consecutive_overheat, circuit_breaker_open,
  stale_outer_ring, canary_failed, same_trigger, Effects, execute_action_payload,
}

pub data RemediationState : Type 0 where
  healthy quarantined healing verifying recovered dead_letter : RemediationState

-- An entry of the history; the time of an entry is left out.
pub record Entry : Type 0 where
  pub server_id : String
  pub policy : String
  pub success : Bool
  pub reason : String

pub record Remediator (F : Type 0) : Type 0 where
  pub enabled : Bool
  pub default_max_retries : ℕ
  pub policies : List (RemediationPolicy F)
  pub states : Dict RemediationState
  pub eviction_counts : Dict ℕ
  pub outer_ring_since : Dict F
  pub attempt_timestamps : Dict (List F)
  pub quarantined_servers : List String
  pub remediation_history : List Entry
  pub total_actions : ℕ
  pub successful_actions : ℕ
  pub failed_actions : ℕ
  pub throttled_actions : ℕ

abbrev pub or_state : Option RemediationState → RemediationState
or_state none = healthy
or_state (some s) = s

abbrev pub or_count : Option ℕ → ℕ
or_count none = 0
or_count (some n) = n

abbrev pub or_nothing : {A : Type 0} → Option (List A) → List A
or_nothing none = []
or_nothing (some xs) = xs

-- The states that a recovery in the inner ring ends.
abbrev pub is_treated : RemediationState → Bool
is_treated verifying = true
is_treated healing = true
is_treated _ = false

unfoldable pub record_history : Entry → List Entry → List Entry
record_history entry history =
    let longer = history ++ entry ∷ [] in if ltb 100 (length longer) then drop 1 longer else longer

module _ (fl : Floats) where
  open fl use {Float, lt, le, sub, of_nat}

  unfoldable pub add_policy : RemediationPolicy Float → Remediator Float → Remediator Float
  add_policy p r = record r { policies = r.policies ++ p ∷ [] }

  unfoldable pub is_quarantined : Remediator Float → String → Bool
  is_quarantined r id = has id r.quarantined_servers

  unfoldable pub get_server_state : Remediator Float → String → RemediationState
  get_server_state r id = or_state (get id r.states)

  -- The first enabled policy of a trigger that passes a test.
  unfoldable pub first_policy :
      RemediationTrigger
      → (RemediationPolicy Float → Bool)
      → List (RemediationPolicy Float)
      → Option (RemediationPolicy Float)
  first_policy trigger test [] = none
  first_policy trigger test (p ∷ rest) =
      let later = first_policy trigger test rest in
      if p.enabled && same_trigger p.trigger trigger && test p then some p else later

  abbrev pub since : Float → String → Dict Float → Dict Float
  since now id times = if has_key id times then times else assign id now times

  unfoldable pub record_eviction :
      Float → String → Remediator Float → Remediator Float × Option (RemediationPolicy Float)
  unfolding first_policy
  record_eviction now id r =
      let count = or_count (get id r.eviction_counts) + 1 in
      if r.enabled
      then (
        record r {
          outer_ring_since = since now id r.outer_ring_since;
          eviction_counts = assign id count r.eviction_counts;
        },
        first_policy consecutive_overheat (λ p. leb p.consecutive_evictions_threshold count)
            r.policies,
      )
      else (r, none)

  unfoldable pub record_recovery : String → Remediator Float → Remediator Float
  unfolding get_server_state
  record_recovery id r =
      let r' = record r {
        eviction_counts = assign id 0 r.eviction_counts;
        outer_ring_since = pop id r.outer_ring_since;
      } in
      if is_treated (get_server_state r id)
      then record r' {
        states = assign id recovered r.states;
        quarantined_servers = discard id r.quarantined_servers;
      }
      else r'

  -- `record_circuit_breaker_open` and `record_canary_failure`
  unfoldable pub record_circuit_breaker_open : Remediator Float → Option (RemediationPolicy Float)
  unfolding first_policy
  record_circuit_breaker_open r =
      if r.enabled then first_policy circuit_breaker_open (λ p. true) r.policies else none

  unfoldable pub record_canary_failure : Remediator Float → Option (RemediationPolicy Float)
  unfolding first_policy
  record_canary_failure r =
      if r.enabled then first_policy canary_failed (λ p. true) r.policies else none

  -- The servers that have been in the outer ring too long for a policy.
  unfoldable pub stale_servers :
      Float → RemediationPolicy Float → Dict Float → List (String × RemediationPolicy Float)
  stale_servers ts p [] = []
  stale_servers ts p ((id, since) ∷ rest) =
      let later = stale_servers ts p rest in
      if le p.stale_dwell_seconds (sub ts since) then (id, p) ∷ later else later

  unfoldable pub stale_of :
      Float → Dict Float → List (RemediationPolicy Float) → List (String × RemediationPolicy Float)
  unfolding stale_servers
  stale_of ts times [] = []
  stale_of ts times (p ∷ rest) =
      let later = stale_of ts times rest in
      if p.enabled && same_trigger p.trigger stale_outer_ring
      then stale_servers ts p times ++ later
      else later

  unfoldable pub check_stale_cooling_ring :
      Float → Remediator Float → List (String × RemediationPolicy Float)
  unfolding stale_of
  check_stale_cooling_ring ts r =
      if r.enabled then stale_of ts r.outer_ring_since r.policies else []

  -- `t > now - 3600`
  abbrev pub in_hour : Float → Float → Bool
  in_hour now t = lt (sub now (of_nat 3600)) t

  unfoldable pub recent : Float → String → Remediator Float → List Float
  recent now id r = keep (in_hour now) (or_nothing (get id r.attempt_timestamps))

  unfoldable pub check_hourly_rate_limit :
      Float → String → ℕ → Remediator Float → Remediator Float × Bool
  unfolding recent
  check_hourly_rate_limit now id max_retries r =
      let timestamps = recent now id r in
      (
        record r { attempt_timestamps = assign id timestamps r.attempt_timestamps },
        not (leb max_retries (length timestamps)),
      )

  -- `policy.max_retries_per_hour or self.default_max_retries`
  abbrev pub retries_of : RemediationPolicy Float → Remediator Float → ℕ
  retries_of p r =
      if ltb 0 p.max_retries_per_hour then p.max_retries_per_hour else r.default_max_retries

  abbrev pub entry_of : String → RemediationPolicy Float → Bool → String → Entry
  entry_of id p success reason = record {
    server_id = id;
    policy = p.name;
    success = success;
    reason = reason;
  }

  unfoldable pub dead_lettered :
      String → RemediationPolicy Float → Remediator Float → Remediator Float
  unfolding record_history
  dead_lettered id p r = record r {
    throttled_actions = r.throttled_actions + 1;
    states = assign id dead_letter r.states;
    remediation_history =
        record_history (entry_of id p false "Rate limit exceeded: dead-lettered")
          r.remediation_history;
  }

  unfoldable pub put_in_quarantine : Float → String → Remediator Float → Remediator Float
  put_in_quarantine now id r = record r {
    quarantined_servers = add_to id r.quarantined_servers;
    states = assign id quarantined r.states;
    attempt_timestamps =
        assign id (or_nothing (get id r.attempt_timestamps) ++ now ∷ []) r.attempt_timestamps;
    total_actions = r.total_actions + 1;
  }

  -- The second section with the lock, after the action.
  unfoldable pub settle :
      String → RemediationPolicy Float → Bool → Remediator Float → Remediator Float
  unfolding record_history
  settle id p true r = record r {
    successful_actions = r.successful_actions + 1;
    states = assign id healing r.states;
    eviction_counts = assign id 0 r.eviction_counts;
    remediation_history =
        record_history (entry_of id p true "Action completed") r.remediation_history;
  }
  settle id p false r = record r {
    failed_actions = r.failed_actions + 1;
    states = assign id dead_letter r.states;
    remediation_history =
        record_history (entry_of id p false "Action execution failed") r.remediation_history;
  }

  -- `trigger_remediation` up to the end of its first section with the lock; and whether an action
  -- follows.
  unfoldable pub begin_remediation :
      Float → String → RemediationPolicy Float → Remediator Float → Remediator Float × Bool
  unfolding check_hourly_rate_limit dead_lettered put_in_quarantine
  begin_remediation now id p r =
      let checked = check_hourly_rate_limit now id (retries_of p r) r in
      if not r.enabled || not p.enabled
      then (r, false)
      else if checked.1
      then (put_in_quarantine now id checked.0, true)
      else (dead_lettered id p checked.0, false)

  -- The whole of it, with no other section in between; the lock is not held while the action runs.
  unfoldable pub trigger_remediation :
      Effects
      → Float
      → String
      → RemediationPolicy Float
      → Remediator Float
      → Remediator Float × Bool
  unfolding begin_remediation settle
  trigger_remediation fx now id p r =
      let begun = begin_remediation now id p r in
      let success = execute_action_payload fx p id in
      if begun.1 then (settle id p success begun.0, success) else (begun.0, false)

  unfoldable pub clear_quarantine : String → Remediator Float → Remediator Float
  clear_quarantine id r = record r {
    quarantined_servers = discard id r.quarantined_servers;
    states = assign id healthy r.states;
    eviction_counts = assign id 0 r.eviction_counts;
    outer_ring_since = pop id r.outer_ring_since;
  }
