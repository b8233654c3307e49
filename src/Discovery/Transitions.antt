-- ===== src/Discovery/Transitions.antt =====
-- The callbacks of the service discovery against the services that are up.
use huddle_cluster.Base.{
  ◌≡◌, ◌∙◌, ◌⊎◌, refl, sym, ap, String, Bool, true, false, not, ◌||◌, List, [], ◌∷◌, ◌++◌, arith,
  Bool-cases, inl, inr, if◌then◌else◌, Dict, has_key, str_eq, eq_iff, has, add_to, has-add_to,
  has-discard, subst, if_holds,
}
use mathlib.Core.List.{append-nil}
use huddle_cluster.Discovery.{
  Node, Text, Notice, on_service_up, on_service_down, Registry, announce, deregister,
  alive_nodes_for, sync_from_metadata, is_some_node, check_service, check_services, keys,
  check_service_health,
}

-- What the callbacks say of one service: up or down.
abbrev pub says : String → Notice → List Bool → List Bool
says a (on_service_up s) rest = if str_eq s a then true ∷ rest else rest
says a (on_service_down s) rest = if str_eq s a then false ∷ rest else rest

abbrev pub told : String → List Notice → List Bool
told a [] = []
told a (n ∷ ns) = says a n (told a ns)

-- Each is the other one than the one before.
abbrev pub Alternates : Bool → List Bool → Type 0
Alternates before [] = Unit
Alternates before (b ∷ bs) = (b ≡ not before) × Alternates b bs

abbrev pub last : Bool → List Bool → Bool
last before [] = before
last before (b ∷ bs) = last b bs

told-append : (a : String) (xs ys : List Notice) → told a (xs ++ ys) ≡ told a xs ++ told a ys
told-append a [] ys = refl
told-append a (on_service_up s ∷ xs) ys = ground (arith, told-append a xs ys)
told-append a (on_service_down s ∷ xs) ys = ground (arith, told-append a xs ys)

Alternates-append :
    (before b : Bool) (xs : List Bool)
    → Alternates before xs
    → b ≡ not (last before xs)
    → Alternates before (xs ++ b ∷ []) × (last before (xs ++ b ∷ []) ≡ b)
Alternates-append before b [] h e = ((e, tt), refl)
Alternates-append before b (x ∷ xs) h e =
    let rest = Alternates-append x b xs h.1 e in ((h.0, rest.0), rest.1)

-- The callbacks for a service alternate, and the last one says whether it is up.
abbrev pub IsTold : String → Registry → Type 0
IsTold a r =
    Alternates false (told a r.notices) × (last false (told a r.notices) ≡ has a r.services_up)

abbrev notice_of : Bool → String → Notice
notice_of true s = on_service_up s
notice_of false s = on_service_down s

told-notice_of :
    (a svc : String) (b : Bool)
    → told a (notice_of b svc ∷ []) ≡ (if str_eq svc a then b ∷ [] else [])
told-notice_of a svc true = refl
told-notice_of a svc false = refl

-- A service that changes is told of, and the others are as they were.
IsTold-changed :
    (a svc : String) (b : Bool) (r r' : Registry)
    → b ≡ not (has svc r.services_up)
    → r'.notices ≡ r.notices ++ notice_of b svc ∷ []
    → has a r'.services_up ≡ (if str_eq svc a then b else has a r.services_up)
    → IsTold a r
    → IsTold a r'
IsTold-changed a svc b r r' d n u h = rw n (
    rw u (
      rw (told-append a r.notices (notice_of b svc ∷ []))
        (rw (told-notice_of a svc b) (split (Bool-cases (str_eq svc a))))))
  where
    split :
        (str_eq svc a ≡ true) ⊎ (str_eq svc a ≡ false)
        → Alternates false (told a r.notices ++ (if str_eq svc a then b ∷ [] else []))
          × (last false (told a r.notices ++ (if str_eq svc a then b ∷ [] else []))
              ≡ (if str_eq svc a then b else has a r.services_up))
    split (inl t) = rw t (
        Alternates-append false b (told a r.notices) h.0
          (d ∙ ap not (ap (λ s. has s r.services_up) ((eq_iff svc a).0 t) ∙ sym h.1)))
    split (inr t) = rw t (rw (append-nil (told a r.notices)) h)

module _ (t : Text) where
  abbrev pub is_served : List Node → String → Registry → Bool
  is_served nodes svc r = is_some_node (alive_nodes_for t nodes svc r)

  -- A check turns a service up or down, or leaves all as it is.
  data Change (nodes : List Node) (svc : String) (r r' : Registry) : Type 0 where
    turned :
        (b : Bool)
        → b ≡ not (has svc r.services_up)
        → b ≡ is_served nodes svc r
        → r'.notices ≡ r.notices ++ notice_of b svc ∷ []
        → ((a : String) → has a r'.services_up ≡ (if str_eq svc a then b else has a r.services_up))
        → r'.registry ≡ r.registry
        → Change nodes svc r r'
    same : has svc r.services_up ≡ is_served nodes svc r → r' ≡ r → Change nodes svc r r'

  added_if :
      (svc a : String) (up : List String)
      → has a (add_to svc up) ≡ (if str_eq svc a then true else has a up)
  added_if svc a up = ground (arith, has-add_to svc a up)

  check_service-Change :
      (nodes : List Node) (svc : String) (r : Registry)
      → Change nodes svc r (check_service t nodes svc r)
  unfolding check_service
  check_service-Change nodes svc r = split (is_served nodes svc r) (has svc r.services_up) refl refl
    where
      split :
          (up was : Bool)
          → is_served nodes svc r ≡ up
          → has svc r.services_up ≡ was
          → Change nodes svc r (check_service t nodes svc r)
      split true true e k = rw e (rw k (same (k ∙ sym e) refl))
      split true false e k = rw e (
          rw k (turned true (ap not (sym k)) (sym e) refl (λ a. added_if svc a r.services_up) refl))
      split false true e k = rw e (
          rw k (
            turned false (ap not (sym k)) (sym e) refl (λ a. has-discard svc a r.services_up) refl))
      split false false e k = rw e (rw k (same (k ∙ sym e) refl))

  IsTold-check_service :
      (a svc : String) (nodes : List Node) (r : Registry)
      → IsTold a r
      → IsTold a (check_service t nodes svc r)
  IsTold-check_service a svc nodes r h =
      split (check_service t nodes svc r) (check_service-Change nodes svc r)
    where
      split : (r' : Registry) → Change nodes svc r r' → IsTold a r'
      split r' (turned b d s n u g) = IsTold-changed a svc b r r' d n (u a) h
      split r' (same s e) = subst (IsTold a) (sym e) h

  IsTold-check_services :
      (a : String) (nodes : List Node) (svcs : List String) (r : Registry)
      → IsTold a r
      → IsTold a (check_services t nodes svcs r)
  unfolding check_services
  IsTold-check_services a nodes [] r h = h
  IsTold-check_services a nodes (svc ∷ svcs) r h =
      IsTold-check_services a nodes svcs (check_service t nodes svc r)
        (IsTold-check_service a svc nodes r h)

  -- Whether the service is up in the registry exactly if it is served.
  abbrev pub IsRight : List Node → String → Registry → Type 0
  IsRight nodes a r = has a r.services_up ≡ is_served nodes a r

  check_service-registry :
      (nodes : List Node) (svc : String) (r : Registry)
      → (check_service t nodes svc r).registry ≡ r.registry
  check_service-registry nodes svc r =
      split (check_service t nodes svc r) (check_service-Change nodes svc r)
    where
      split : (r' : Registry) → Change nodes svc r r' → r'.registry ≡ r.registry
      split r' (turned b d s n u g) = g
      split r' (same s e) = ap (λ x. x.registry) e

  served_alike :
      (nodes : List Node) (a : String) (r r' : Registry)
      → r'.registry ≡ r.registry
      → is_served nodes a r' ≡ is_served nodes a r
  unfolding alive_nodes_for
  served_alike nodes a r r' e = rw e refl

  -- A check of a service makes it right, and leaves right what is.
  IsRight-check_service :
      (nodes : List Node) (svc a : String) (r : Registry)
      → (str_eq svc a ≡ true) ⊎ IsRight nodes a r
      → IsRight nodes a (check_service t nodes svc r)
  IsRight-check_service nodes svc a r h =
      sided (check_service t nodes svc r) (check_service-Change nodes svc r)
      ∙ sym (
          served_alike nodes a r (check_service t nodes svc r) (check_service-registry nodes svc r))
    where
      right_if :
          (b : Bool)
          → b ≡ is_served nodes svc r
          → (str_eq svc a ≡ true) ⊎ IsRight nodes a r
          → (if str_eq svc a then b else has a r.services_up) ≡ is_served nodes a r
      right_if b e k = elim (Bool-cases (str_eq svc a)) [
        | inl i ↦ rw i (e ∙ ap (λ s. is_served nodes s r) ((eq_iff svc a).0 i))
        | inr i ↦ rw i (elim k [ inl j ↦ absurd (ground (arith, i, j)) | inr j ↦ j ])
      ]

      kept :
          (str_eq svc a ≡ true) ⊎ IsRight nodes a r
          → has svc r.services_up ≡ is_served nodes svc r
          → IsRight nodes a r
      kept (inl i) s = subst (λ x. has x r.services_up ≡ is_served nodes x r) ((eq_iff svc a).0 i) s
      kept (inr j) s = j

      sided : (r' : Registry) → Change nodes svc r r' → has a r'.services_up ≡ is_served nodes a r
      sided r' (turned b d s n u g) = u a ∙ right_if b s h
      sided r' (same s e) = ap (λ x. has a x.services_up) e ∙ kept h s

  IsRight-check_services :
      (nodes : List Node) (a : String) (svcs : List String) (r : Registry)
      → (has a svcs ≡ true) ⊎ IsRight nodes a r
      → IsRight nodes a (check_services t nodes svcs r)
  unfolding check_services has
  IsRight-check_services nodes a [] r (inl h) = absurd (ground (arith, h))
  IsRight-check_services nodes a [] r (inr h) = h
  IsRight-check_services nodes a (svc ∷ svcs) r (inl h) =
      IsRight-check_services nodes a svcs (check_service t nodes svc r)
        (first (Bool-cases (str_eq svc a)) h)
    where
      first :
          (str_eq svc a ≡ true) ⊎ (str_eq svc a ≡ false)
          → str_eq svc a || has a svcs ≡ true
          → (has a svcs ≡ true) ⊎ IsRight nodes a (check_service t nodes svc r)
      first (inl i) k = inr (IsRight-check_service nodes svc a r (inl i))
      first (inr i) k = inl (ground (arith, i, k))
  IsRight-check_services nodes a (svc ∷ svcs) r (inr h) =
      IsRight-check_services nodes a svcs (check_service t nodes svc r)
        (inr (IsRight-check_service nodes svc a r (inr h)))

  has-keys : {V : Type 0} (a : String) (d : Dict V) → has a (keys d) ≡ has_key a d
  unfolding has has_key
  has-keys a [] = refl
  has-keys a ((name, value) ∷ items) = ground (arith, has-keys a items)

  -- After a check of the health of the services, a registered service is up exactly if the registry
  -- would answer with a node for it.
  pub check_service_health-IsRight :
      (nodes : List Node) (a : String) (r : Registry)
      → has_key a r.registry ≡ true
      → let r' = check_service_health t nodes r in
        has a r'.services_up ≡ is_some_node (alive_nodes_for t nodes a r')
  unfolding check_service_health
  check_service_health-IsRight nodes a r h =
      IsRight-check_services nodes a (keys r.registry) r (inl (has-keys a r.registry ∙ h))

-- What happens to a registry; a refresh reads the metadata and then checks the services.
pub data Event : Type 0 where
  announces deregisters : String → String → Event
  refreshes : List Node → Event

module _ (t : Text) where
  unfoldable pub step : Event → Registry → Registry
  unfolding announce deregister sync_from_metadata check_service_health
  step (announces node_id service) r = announce t node_id service r
  step (deregisters node_id service) r = (deregister t node_id service r).0
  step (refreshes nodes) r = check_service_health t nodes (sync_from_metadata t nodes r)

  unfoldable pub run : List Event → Registry → Registry
  unfolding step
  run [] r = r
  run (e ∷ es) r = run es (step e r)

  step-IsTold : (a : String) (e : Event) (r : Registry) → IsTold a r → IsTold a (step e r)
  unfolding step announce deregister sync_from_metadata check_service_health
  step-IsTold a (announces node_id service) r h = h
  step-IsTold a (deregisters node_id service) r h =
      if_holds {A = Registry × Bool} (λ x. IsTold a x.0) _ _ (r, false) h h
  step-IsTold a (refreshes nodes) r h =
      let r' = sync_from_metadata t nodes r in
      IsTold-check_services t a nodes (keys r'.registry) r' h

  -- Over any announcements, deregistrations and refreshes, the callbacks for a service say up and down
  -- in turn, beginning with up, and the last one says whether the service is up, if that is so at first.
  pub run-IsTold : (a : String) (es : List Event) (r : Registry) → IsTold a r → IsTold a (run es r)
  unfolding run
  run-IsTold a [] r h = h
  run-IsTold a (e ∷ es) r h = run-IsTold a es (step e r) (step-IsTold a e r h)
