-- ===== src/Webhooks/Queue.antt =====
-- The queue, the history and the subscriptions of the webhooks stay within their bounds.
use huddle_cluster.Base.{
  ℕ, ◌+◌, ◌-◌, ◌≤◌, ◌≡◌, String, Bool, true, ◌&&◌, Option, none, some, List, [], ◌∷◌, ◌++◌, arith,
  Bool-cases, inl, inr, Every, Every-assign, Every-pop, keep, length, length-append, length-drop,
  ltb, if_holds,
}
use huddle_cluster.Webhooks.{
  Subscription, matches, Reply, Settings, Webhooks, are_valid, or_all, register, unregister, values,
  enqueue, dispatch, pinged, targets_of, test_ping, bounded, work_on, work,
}

length-bounded : {A : Type 0} (n : ℕ) (xs : List A) → length (bounded n xs) ≤ n
length-bounded n xs = omega (arith, length-drop (length xs - n) xs)

-- What is enqueued finds room, and the count says how much it is.
enqueue_lem :
    (event : String) (subs : List Subscription) (queue : List (Subscription × String))
    → length queue ≤ 1000
    → (length (enqueue event subs queue).0 ≤ 1000)
      × (length (enqueue event subs queue).0 ≡ length queue + (enqueue event subs queue).1)
      × ((enqueue event subs queue).1 ≤ length subs)
unfolding enqueue
enqueue_lem event [] queue h = (h, omega arith, omega arith)
enqueue_lem event (sub ∷ subs) queue h = elim (Bool-cases (ltb (length queue) 1000)) [
  | inl t ↦
      let size = length-append queue ((sub, event) ∷ []) in
      let rest = enqueue_lem event subs (queue ++ (sub, event) ∷ []) (ground (arith, size, t)) in
      rw t (rest.0, omega (arith, rest.1, size), omega (arith, rest.2))
  | inr t ↦
      let rest = enqueue_lem event subs queue h in rw t (rest.0, rest.1, omega (arith, rest.2))
]

-- A subscription has events that are valid and an HTTP address.
abbrev pub IsValidSub : Settings → String → Subscription → Type 0
IsValidSub c name sub = (are_valid c.valid_events sub.events ≡ true) × (c.is_http sub.url ≡ true)

abbrev pub IsBounded : Settings → Webhooks → Type 0
IsBounded c w =
    (length w.queue ≤ 1000)
    × (length w.history ≤ c.max_history)
    × Every (IsValidSub c) w.subscriptions

pub data Event : Type 0 where
  registers : String → String → List String → Option String → Event
  unregisters : String → Event
  dispatches : String → Event
  pings : Option String → Event
  works : (ℕ → Reply) → Event

abbrev pub or_same : Webhooks → Option Webhooks → Webhooks
or_same w none = w
or_same w (some w') = w'

unfoldable pub step : Settings → Event → Webhooks → Webhooks
unfolding register unregister dispatch test_ping work
step c (registers id url events secret) w = or_same w (register c id url events secret w)
step c (unregisters id) w = (unregister id w).0
step c (dispatches event) w = (dispatch event w).0
step c (pings target) w = (test_ping target w).0
step c (works replies) w = work c replies w

unfoldable pub run : Settings → List Event → Webhooks → Webhooks
unfolding step
run c [] w = w
run c (e ∷ es) w = run c es (step c e w)

two : (a b : Bool) → a && b ≡ true → (a ≡ true) × (b ≡ true)
two a b h = ground arith

register-IsBounded :
    (c : Settings) (id url : String) (events : List String) (secret : Option String) (w : Webhooks)
    → IsBounded c w
    → IsBounded c (or_same w (register c id url events secret w))
unfolding register
register-IsBounded c id url events secret w h =
    elim (Bool-cases (c.is_http url && are_valid c.valid_events (or_all events))) [
      | inl t ↦
          let ok = two (c.is_http url) (are_valid c.valid_events (or_all events)) t in
          rw t (
            h.0,
            h.1,
            Every-assign (IsValidSub c) id _ w.subscriptions (λ name e. (ok.1, ok.0)) h.2,
          )
      | inr t ↦ rw t h
    ]

work_on-IsBounded :
    (c : Settings) (replies : ℕ → Reply) (q : List (Subscription × String)) (w : Webhooks)
    → length q ≤ 1000
    → IsBounded c w
    → IsBounded c (work_on c replies q w)
work_on-IsBounded c replies [] w k h = h
work_on-IsBounded c replies ((sub, event) ∷ rest) w k h =
    (omega (arith, k), length-bounded c.max_history _, h.2)

pinged-IsBounded :
    (c : Settings) (subs : List Subscription) (w : Webhooks)
    → IsBounded c w
    → IsBounded c (pinged subs w).0
pinged-IsBounded c [] w h = h
pinged-IsBounded c (sub ∷ subs) w h =
    ((enqueue_lem "webhook.test" (sub ∷ subs) w.queue h.0).0, h.1, h.2)

step-IsBounded :
    (c : Settings) (e : Event) (w : Webhooks) → IsBounded c w → IsBounded c (step c e w)
unfolding step unregister dispatch test_ping work
step-IsBounded c (registers id url events secret) w h =
    register-IsBounded c id url events secret w h
step-IsBounded c (unregisters id) w h = (h.0, h.1, Every-pop (IsValidSub c) id w.subscriptions h.2)
step-IsBounded c (dispatches event) w h =
    if_holds {A = Webhooks × ℕ} (λ x. IsBounded c x.0) w.running _ (w, 0)
      ((enqueue_lem event (keep (matches event) (values w.subscriptions)) w.queue h.0).0, h.1, h.2)
      h
step-IsBounded c (pings target) w h = pinged-IsBounded c (targets_of target w.subscriptions) w h
step-IsBounded c (works replies) w h = work_on-IsBounded c replies w.queue w h.0 h

-- Over any registrations, removals, events, pings and deliveries the queue holds at most 1000 items, the
-- history at most as many as configured, and each subscription has valid events and an HTTP address.
pub run-IsBounded :
    (c : Settings) (es : List Event) (w : Webhooks) → IsBounded c w → IsBounded c (run c es w)
unfolding run
run-IsBounded c [] w h = h
run-IsBounded c (e ∷ es) w h = run-IsBounded c es (step c e w) (step-IsBounded c e w h)
