-- ===== src/Remediator/Action.antt =====
-- The policies of the remediator and the actions that they run.
use huddle_cluster.Base.{
  ℕ, String, Bool, true, false, ◌&&◌, Option, none, some, if◌then◌else◌, leb, ltb, str_eq,
}

pub data RemediationTrigger : Type 0 where
  consecutive_overheat circuit_breaker_open stale_outer_ring canary_failed manual :
      RemediationTrigger

pub data RemediationActionType : Type 0 where
  local_command http_webhook python_callback : RemediationActionType

pub record RemediationPolicy (F : Type 0) : Type 0 where
  pub name : String
  pub trigger : RemediationTrigger
  pub action_type : RemediationActionType
  pub action_target : String
  -- What a callback returns for a server, or nothing if it raises.
  pub action_callback : Option (String → Option Bool)
  pub consecutive_evictions_threshold : ℕ
  pub stale_dwell_seconds : F
  pub max_retries_per_hour : ℕ
  pub enabled : Bool

abbrev pub same_trigger : RemediationTrigger → RemediationTrigger → Bool
same_trigger consecutive_overheat consecutive_overheat = true
same_trigger circuit_breaker_open circuit_breaker_open = true
same_trigger stale_outer_ring stale_outer_ring = true
same_trigger canary_failed canary_failed = true
same_trigger manual manual = true
same_trigger _ _ = false

-- What the operating system and the network do: a command run by the shell exits with 0 or not, and a
-- posted webhook is answered with a status; each gives nothing where it raises.
pub record Effects : Type 0 where
  -- `target.replace("{server_id}", server_id)`
  pub replace_id : String → String → String
  pub exits_with_0 : String → Option Bool
  pub status_of_post : String → String → Option ℕ

abbrev pub or_false : Option Bool → Bool
or_false none = false
or_false (some b) = b

abbrev pub is_success : Option ℕ → Bool
is_success none = false
is_success (some status) = leb 200 status && ltb status 300

abbrev pub call_back : Option (String → Option Bool) → String → Bool
call_back none id = false
call_back (some f) id = or_false (f id)

abbrev pub act :
    {F : Type 0} → RemediationActionType → Effects → RemediationPolicy F → String → Bool
act python_callback fx p id = call_back p.action_callback id
act local_command fx p id =
    if str_eq p.action_target ""
    then false
    else or_false (fx.exits_with_0 (fx.replace_id p.action_target id))
act http_webhook fx p id =
    if str_eq p.action_target "" then false else is_success (fx.status_of_post p.action_target id)

-- `_execute_action_payload`
unfoldable pub execute_action_payload : {F : Type 0} → Effects → RemediationPolicy F → String → Bool
execute_action_payload fx p id = act p.action_type fx p id
