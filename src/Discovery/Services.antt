-- ===== src/Discovery/Services.antt =====
-- What the registry of the services answers.
use huddle_cluster.Base.{
  has, add_to, discard, has-add_to, has-discard, ◌≡◌, refl, String, true, false, List, [], ◌∷◌,
  Dict, get, assign, get-assign, keep, All, All-keep_sound, All-both, All-weaken, In, IsWithin-keep,
  str_eq_refl, if_holds, Bool, ◌&&◌, ◌∙◌, arith,
}
use huddle_cluster.Ring.Outside.{tally}
use huddle_cluster.Master.{Status, alive, dead, leaving, quarantined}
use huddle_cluster.Discovery.{
  Node, Text, Registry, or_none, enroll, announce, deregister, place_node, sort_nodes, provides,
  alive_nodes_for, is_alive,
}

module _ (t : Text) where
  All-place_node :
      (P : Node → Type 0) (n : Node) (ms : List Node) → P n → All P ms → All P (place_node t n ms)
  unfolding place_node
  All-place_node P n [] h k = (h, tt)
  All-place_node P n (m ∷ ms) h k =
      if_holds (All P) (t.before m.node_id n.node_id) _ _ (k.0, All-place_node P n ms h k.1) (h, k)

  All-sort_nodes : (P : Node → Type 0) (ns : List Node) → All P ns → All P (sort_nodes t ns)
  unfolding sort_nodes
  All-sort_nodes P [] h = tt
  All-sort_nodes P (n ∷ ns) h = All-place_node P n (sort_nodes t ns) h.0 (All-sort_nodes P ns h.1)

  tally-place_node :
      (p : Node → Bool) (n : Node) (ms : List Node) → tally p (place_node t n ms) ≡ tally p (n ∷ ms)
  unfolding place_node
  tally-place_node p n [] = refl
  tally-place_node p n (m ∷ ms) = ground (arith, tally-place_node p n ms)

  tally-sort_nodes : (p : Node → Bool) (ns : List Node) → tally p (sort_nodes t ns) ≡ tally p ns
  unfolding sort_nodes
  tally-sort_nodes p [] = refl
  tally-sort_nodes p (n ∷ ns) =
      omega (arith, tally-place_node p n (sort_nodes t ns), tally-sort_nodes p ns)

  tally-provides :
      (p : Node → Bool) (ids : List String) (ns : List Node)
      → tally p (keep (provides t ids) ns)
        ≡ tally (λ n. p n && is_alive n.status && has n.node_id ids) ns
  tally-provides p ids [] = refl
  tally-provides p ids (n ∷ ns) = ground (arith, tally-provides p ids ns)

  alive_status : (s : Status) → is_alive s ≡ true → s ≡ alive
  alive_status alive h = refl
  alive_status dead h = absurd (ground (arith, h))
  alive_status leaving h = absurd (ground (arith, h))
  alive_status quarantined h = absurd (ground (arith, h))

  provided :
      (ids : List String) (n : Node)
      → provides t ids n ≡ true
      → (n.status ≡ alive) × (has n.node_id ids ≡ true)
  provided ids n h = (alive_status n.status (ground (arith, h)), ground (arith, h))

  -- A service is answered with the nodes of the master's view that are alive and registered for it:
  -- every node of the answer is in the view, has the status alive and is in the service's set; and
  -- of any kind, the answer holds as many nodes as the view holds alive and registered ones.
  pub alive_nodes_for-IsAlive :
      (nodes : List Node) (service : String) (r : Registry)
      → let ids = or_none (get (t.normal service) r.registry) in
        let found = alive_nodes_for t nodes service r in
        All (λ n. In n nodes × (n.status ≡ alive) × (has n.node_id ids ≡ true)) found
        × ((p : Node → Bool)
            → tally p found ≡ tally (λ n. p n && is_alive n.status && has n.node_id ids) nodes)
  unfolding alive_nodes_for
  alive_nodes_for-IsAlive nodes service r =
      let ids = or_none (get (t.normal service) r.registry) in
      let kept = keep (provides t ids) nodes in
      (
        All-sort_nodes _ kept (
            All-weaken (λ n. In n nodes × (provides t ids n ≡ true))
              (λ n. In n nodes × (n.status ≡ alive) × (has n.node_id ids ≡ true)) kept
              (λ n h. (h.0, (provided ids n h.1).0, (provided ids n h.1).1))
              (All-both (λ n. In n nodes) (λ n. provides t ids n ≡ true) kept
                (IsWithin-keep (provides t ids) nodes) (All-keep_sound (provides t ids) nodes))),
        λ p. tally-sort_nodes p kept ∙ tally-provides p ids nodes,
      )

  added : (x : String) (xs : List String) → has x (add_to x xs) ≡ true
  added x xs = rw (has-add_to x x xs) (rw (str_eq_refl x) refl)

  registered :
      (svc : String) (ids : List String) (reg : Dict (List String))
      → or_none (get svc (assign svc ids reg)) ≡ ids
  registered svc ids reg = rw (get-assign svc svc ids reg) (rw (str_eq_refl svc) refl)

  -- A node that was announced for a service can be deregistered from it, and then is no more in it.
  deregister-announce :
      (node_id service : String) (r : Registry)
      → let gone = deregister t node_id service (announce t node_id service r) in
        (gone.1 ≡ true) × (has node_id (or_none (get (t.normal service) gone.0.registry)) ≡ false)
  unfolding deregister announce enroll
  deregister-announce node_id service r =
      let svc = t.normal service in
      let ids = add_to node_id (or_none (get svc r.registry)) in
      rw (registered svc ids r.registry) (
        rw (added node_id (or_none (get svc r.registry))) (
          refl,
          rw (registered svc (discard node_id ids) (assign svc ids r.registry))
              (rw (has-discard node_id node_id ids) (rw (str_eq_refl node_id) refl)),
        ))
