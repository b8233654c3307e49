-- ===== src/Webhooks.antt =====
-- The webhooks of the cluster: huddle_cluster_pkg/cluster_webhooks.py. The identifiers that uuid draws,
-- the answers of the network and the JSON text are arguments; signatures and headers are left out.
pub mod Attempts
pub mod Queue
mod Tests
use huddle_cluster.Base.{
  ℕ, zero, suc, ◌+◌, ◌-◌, String, Bool, true, false, not, ◌&&◌, ◌||◌, Option, none, some, List, [],
  ◌∷◌, ◌++◌, Dict, get, assign, pop, has_key, has, keep, if◌then◌else◌, ltb, leb, ◌==◌, length,
  drop, map, str_eq,
}

pub record Subscription : Type 0 where
  pub webhook_id : String
  pub url : String
  pub events : List String
  pub secret : Option String
  pub active : Bool

unfoldable pub matches : String → Subscription → Bool
matches event sub = sub.active && (has "*" sub.events || has event sub.events)

-- What an attempt meets: an answer or an HTTP error with its status, or another exception, with the
-- text that the code makes of it.
pub data Reply : Type 0 where
  answered http_error : ℕ → String → Reply
  raised : String → Reply

pub record Tried : Type 0 where
  pub success : Bool
  pub status_code : Option ℕ
  pub error : Option String
  pub attempts : ℕ

pub record Delivery : Type 0 where
  pub webhook_id : String
  pub event : String
  pub outcome : Tried

abbrev pub is_2xx : ℕ → Bool
is_2xx status = leb 200 status && ltb status 300

-- `400 <= code < 500 and code != 429`
abbrev pub is_final : ℕ → Bool
is_final code = leb 400 code && ltb code 500 && not (code == 429)

-- One attempt, with what the later ones would give after it.
abbrev pub judge : Reply → ℕ → Option ℕ → Option String → (Option ℕ → Option String → Tried) → Tried
judge (answered status text) n code error later =
    let rest = later (some status) (some text) in
    if is_2xx status
    then record { success = true; status_code = some status; error = none; attempts = n }
    else rest
judge (http_error status text) n code error later =
    let rest = later (some status) (some text) in
    if is_final status
    then record { success = false; status_code = some status; error = some text; attempts = n }
    else rest
judge (raised text) n code error later = later code (some text)

-- The attempts that are left, after some; an attempt that raises keeps the status of the one before.
unfoldable pub try_from : (ℕ → Reply) → ℕ → ℕ → Option ℕ → Option String → Tried
try_from replies zero past code error = record {
  success = false;
  status_code = code;
  error = error;
  attempts = past;
}
try_from replies (suc left) past code error =
    judge (replies (suc past)) (suc past) code error (try_from replies left (suc past))

-- The loop of `_deliver`, for at most `max_retries` attempts.
unfoldable pub deliver : (ℕ → Reply) → ℕ → Tried
unfolding try_from
deliver replies max_retries = try_from replies max_retries 0 none none

pub record Settings : Type 0 where
  pub default_secret : Option String
  pub max_retries : ℕ
  pub max_history : ℕ
  pub valid_events : List String
  -- `url.startswith("http://") or url.startswith("https://")`
  pub is_http : String → Bool

-- The maximum that `__init__` keeps is at least one.
abbrev pub retries : Settings → ℕ
retries c = if ltb 1 c.max_retries then c.max_retries else 1

pub record Webhooks : Type 0 where
  pub subscriptions : Dict Subscription
  pub history : List Delivery
  -- the subscription and the event of each item
  pub queue : List (Subscription × String)
  pub running : Bool

unfoldable pub are_valid : List String → List String → Bool
are_valid valid [] = true
are_valid valid (e ∷ es) = has e valid && are_valid valid es

abbrev pub or_all : List String → List String
or_all [] = "*" ∷ []
or_all (e ∷ es) = e ∷ es

-- `secret or self._default_secret`
abbrev pub or_secret : Option String → Option String → Option String
or_secret none default = default
or_secret (some s) default = if str_eq s "" then default else some s

-- `register`, or nothing where it raises.
unfoldable pub register :
    Settings → String → String → List String → Option String → Webhooks → Option Webhooks
unfolding are_valid
register c id url events secret w =
    if c.is_http url && are_valid c.valid_events (or_all events)
    then some (record w {
      subscriptions =
          assign id
            (record {
              webhook_id = id;
              url = url;
              events = or_all events;
              secret = or_secret secret c.default_secret;
              active = true;
            })
            w.subscriptions;
    })
    else none

unfoldable pub unregister : String → Webhooks → Webhooks × Bool
unregister id w = (record w { subscriptions = pop id w.subscriptions }, has_key id w.subscriptions)

abbrev pub values : {V : Type 0} → Dict V → List V
values [] = []
values ((name, value) ∷ items) = value ∷ values items

-- `put_nowait` for each of some subscriptions, and how many found room in the queue of 1000.
unfoldable pub enqueue :
    String → List Subscription → List (Subscription × String) → List (Subscription × String) × ℕ
enqueue event [] queue = (queue, 0)
enqueue event (sub ∷ subs) queue =
    let added = enqueue event subs (queue ++ (sub, event) ∷ []) in
    let full = enqueue event subs queue in
    if ltb (length queue) 1000 then (added.0, added.1 + 1) else full

unfoldable pub dispatch : String → Webhooks → Webhooks × ℕ
unfolding enqueue
dispatch event w =
    let sent = enqueue event (keep (matches event) (values w.subscriptions)) w.queue in
    if w.running then (record w { queue = sent.0 }, sent.1) else (w, 0)

-- An empty `target_id` stands for none.
abbrev pub targets_of : Option String → Dict Subscription → List Subscription
targets_of none subs = values subs
targets_of (some id) subs =
    if str_eq id "" then values subs else elim (get id subs) [ none ↦ [] | some sub ↦ sub ∷ [] ]

abbrev pub pinged : List Subscription → Webhooks → Webhooks × Option ℕ
pinged [] w = (w, none)
pinged (sub ∷ subs) w =
    let sent = enqueue "webhook.test" (sub ∷ subs) w.queue in
    (record w { queue = sent.0 }, some (length (sub ∷ subs)))

-- `test_ping`: the number of targets, or nothing where it answers with an error.
unfoldable pub test_ping : Option String → Webhooks → Webhooks × Option ℕ
unfolding enqueue
test_ping target w = pinged (targets_of target w.subscriptions) w

-- `deque(maxlen=n).append`
abbrev pub bounded : {A : Type 0} → ℕ → List A → List A
bounded n xs = drop (length xs - n) xs

-- One item of the worker's loop, with the replies of its attempts.
abbrev pub work_on : Settings → (ℕ → Reply) → List (Subscription × String) → Webhooks → Webhooks
work_on c replies [] w = w
work_on c replies ((sub, event) ∷ rest) w = record w {
  queue = rest;
  history = bounded c.max_history (
      w.history
      ++ record {
        webhook_id = sub.webhook_id;
        event = event;
        outcome = deliver replies (retries c);
      }
        ∷ []);
}

unfoldable pub work : Settings → (ℕ → Reply) → Webhooks → Webhooks
work c replies w = work_on c replies w.queue w
