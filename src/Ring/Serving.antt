-- ===== src/Ring/Serving.antt =====
-- What `get_server` promises its clients: a server while there is one, fair turns and sticky sessions.
use huddle_cluster.Base.{
  ℕ, zero, suc, ◌+◌, ◌<◌, ◌≡◌, ◌∙◌, refl, String, true, Option, none, some, List, [], ◌∷◌, ◌++◌,
  arith, Dict, get, assign, get-assign, str_eq_refl, length, subst, is_some,
}
use mathlib.Core.List.{append_assoc, append-nil}
use huddle_cluster.Base.Floats.{Floats}
use huddle_cluster.Ring.{Server, Cluster, EvictionReason}
use huddle_cluster.Ring.Routing.{
  last_server, emergency_server, or_draining, bound_server, sticky, routed, get_server,
}

if_any :
    {F : Type 0} (outer : List (Server F)) (d : Dict (Server F × F × EvictionReason))
    → 0 < 0 + length outer + length d
    → is_some (or_draining outer d) ≡ true
if_any [] [] h = ground arith
if_any [] (x ∷ d) h = refl
if_any (s ∷ outer) d h = refl

abbrev pub somes : {A : Type 0} → List A → List (Option A)
somes [] = []
somes (s ∷ ring) = some s ∷ somes ring

last_server-snoc :
    {F : Type 0} (s : Server F) (ring : List (Server F))
    → last_server s.id (ring ++ s ∷ []) ≡ some s
unfolding last_server
last_server-snoc s [] = ground (arith, str_eq_refl s.id)
last_server-snoc s (t ∷ ring) = rw (last_server-snoc s ring) refl

-- A new binding finds its server again.
bound :
    {F : Type 0} (key : String) (s : Server F) (bindings : Dict String) (ring : List (Server F))
    → s.is_healthy ≡ true
    → bound_server (get key (assign key s.id bindings)) (ring ++ s ∷ []) ≡ some s
bound key s bindings ring h =
    rw (get-assign key key s.id bindings, str_eq_refl key, last_server-snoc s ring, h) refl

unbound : {F : Type 0} (o : Option String) → bound_server {F = F} o [] ≡ none
unfolding last_server
unbound none = refl
unbound (some id) = refl

same-health :
    {F : Type 0} (s t : Server F) → some t ≡ some s → s.is_healthy ≡ true → t.is_healthy ≡ true
same-health s t e h = ground arith

module _ (fl : Floats) {R : Type 0} where
  open fl use {Float, of_nat}

  answered :
      (ramps : Dict Float) (r : Float) (key : Option String) (k : Cluster Float R)
      (ring : List (Server Float))
      → 0 < length ring + length k.outer_ring + length k.draining_servers
      → is_some (routed fl ramps r key k ring).0 ≡ true
  unfolding emergency_server
  answered ramps r key k [] h = if_any k.outer_ring k.draining_servers h
  answered [] r none k (s ∷ rest) h = refl
  answered (ramp ∷ ramps) r none k (s ∷ rest) h = refl
  answered ramps r (some key) k (s ∷ rest) h =
      stuck (bound_server (get key k.affinity_map) (s ∷ rest))
    where
      stuck : (o : Option (Server Float)) → is_some (sticky fl key s rest k o).0 ≡ true
      stuck none = refl
      stuck (some b) = refl

  -- A request gets a server as long as either ring or the draining servers have one.
  get_server-answers :
      (ramps : Dict Float) (r : Float) (key : Option String) (k : Cluster Float R)
      → 0 < length k.inner_ring + length k.outer_ring + length k.draining_servers
      → is_some (get_server fl ramps r key k).0 ≡ true
  unfolding get_server
  get_server-answers ramps r key k h = answered ramps r key k k.inner_ring h

  -- Successive stateless requests, and the servers that they get.
  abbrev pub serve : ℕ → Cluster Float R → List (Option (Server Float)) × Cluster Float R
  serve zero k = ([], k)
  serve (suc n) k =
      let first = get_server fl [] (of_nat 0) none k in
      let later = serve n first.1 in (first.0 ∷ later.0, later.1)

  serve_turns :
      (todo done : List (Server Float)) (k : Cluster Float R)
      → serve (length todo) (record k { inner_ring = todo ++ done })
        ≡ (somes todo, record k { inner_ring = done ++ todo })
  unfolding get_server
  serve_turns [] done k = rw (append-nil done) refl
  serve_turns (s ∷ todo) done k =
      rw
        (
          append_assoc todo done (s ∷ []),
          serve_turns todo (done ++ s ∷ []) k,
          append_assoc done (s ∷ []) todo,
        )
        refl

  -- Without ramps, as many requests as the inner ring has servers get each of its servers once, in
  -- the ring's order, and leave the cluster as it was.
  pub serve-round : (k : Cluster Float R) → serve (length k.inner_ring) k ≡ (somes k.inner_ring, k)
  serve-round k =
      subst
        (λ ring.
          serve (length k.inner_ring) (record k { inner_ring = ring }) ≡ (somes k.inner_ring, k))
        (append-nil k.inner_ring) (serve_turns k.inner_ring [] k)

  again :
      (ramps : Dict Float) (r : Float) (key : String) (k : Cluster Float R) (s : Server Float)
      (ring : List (Server Float))
      → bound_server (get key k.affinity_map) ring ≡ some s
      → routed fl ramps r (some key) k ring ≡ (some s, k)
  again ramps r key k s [] h = ground (arith, unbound {F = Float} (get key k.affinity_map))
  again ramps r key k s (t ∷ ring) h = rw h refl

  sticks :
      (ramps : Dict Float) (r : Float) (key : String) (k : Cluster Float R) (s : Server Float)
      (ring : List (Server Float))
      → k.inner_ring ≡ ring
      → 0 < length ring
      → (routed fl ramps r (some key) k ring).0 ≡ some s
      → s.is_healthy ≡ true
      → get_server fl ramps r (some key) (routed fl ramps r (some key) k ring).1
        ≡ (some s, (routed fl ramps r (some key) k ring).1)
  unfolding get_server
  sticks ramps r key k s [] e h served healthy = ground arith
  sticks ramps r key k s (t ∷ rest) e h served healthy =
      go (bound_server (get key k.affinity_map) (t ∷ rest)) refl served
    where
      go :
          (o : Option (Server Float))
          → bound_server (get key k.affinity_map) (t ∷ rest) ≡ o
          → (sticky fl key t rest k o).0 ≡ some s
          → routed fl ramps r
              (some key)
              (sticky fl key t rest k o).1
              (sticky fl key t rest k o).1.inner_ring
            ≡ (some s, (sticky fl key t rest k o).1)
      go (some b) e' served' = again ramps r key k s k.inner_ring (rw e (e' ∙ served'))
      go none e' served' =
          again ramps r key _ s (rest ++ t ∷ [])
            (bound key t k.affinity_map rest (same-health s t served' healthy) ∙ served')

  -- A session that got a healthy server of the inner ring gets it again, and nothing changes.
  pub get_server-sticks :
      (ramps : Dict Float) (r : Float) (key : String) (k : Cluster Float R) (s : Server Float)
      → 0 < length k.inner_ring
      → (get_server fl ramps r (some key) k).0 ≡ some s
      → s.is_healthy ≡ true
      → get_server fl ramps r (some key) (get_server fl ramps r (some key) k).1
        ≡ (some s, (get_server fl ramps r (some key) k).1)
  unfolding get_server
  get_server-sticks ramps r key k s h served healthy =
      sticks ramps r key k s k.inner_ring refl h served healthy
