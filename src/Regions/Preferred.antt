-- ===== src/Regions/Preferred.antt =====
-- Which nodes are preferred for a region.
use huddle_cluster.Base.{
  ◌≡◌, ◌∙◌, refl, sym, ap, String, Bool, true, false, Option, List, [], ◌∷◌, arith, inl, inr,
  if◌then◌else◌, All, All-weaken, All-both, All-keep_sound, In, IsWithin-keep, if_holds,
}
use huddle_cluster.Discovery.{Node, Text, Registry, is_alive, alive_nodes_for, is_some_node}
use huddle_cluster.Discovery.Services.{alive_nodes_for-IsAlive}
use huddle_cluster.Regions.{
  Settings, alive_nodes_for_region, or_global, everywhere_alive, target_of, preferred_nodes,
}

abbrev IsShown : List Node → Node → Type 0
IsShown nodes n = In n nodes × (is_alive n.status ≡ true)

module _ (t : Text) where
  everywhere-IsShown : (nodes : List Node) → All (IsShown nodes) (everywhere_alive nodes)
  everywhere-IsShown nodes =
      All-both (λ n. In n nodes) (λ n. is_alive n.status ≡ true) (everywhere_alive nodes)
        (IsWithin-keep (λ n. is_alive n.status) nodes)
        (All-keep_sound (λ n. is_alive n.status) nodes)

  regional-IsShown :
      (nodes : List Node) (region : String) (r : Registry)
      → All (IsShown nodes) (alive_nodes_for_region t nodes region r)
  unfolding alive_nodes_for_region
  regional-IsShown nodes region r =
      All-weaken _ (IsShown nodes) (alive_nodes_for t nodes region r)
        (λ n h. (h.0, ap is_alive h.1)) (alive_nodes_for-IsAlive t nodes region r).0

  or_global-All :
      (P : Node → Type 0) (fallback : Bool) (everywhere regional : List Node)
      → All P everywhere
      → All P regional
      → All P (or_global fallback everywhere regional)
  or_global-All P true everywhere [] h k = h
  or_global-All P false everywhere [] h k = k
  or_global-All P true everywhere (n ∷ ns) h k = k
  or_global-All P false everywhere (n ∷ ns) h k = k

  -- Every preferred node is one that the master shows, and is alive.
  preferred_nodes-IsShown :
      (c : Settings) (nodes : List Node) (region : Option String) (r : Registry)
      → All (IsShown nodes) (preferred_nodes t c nodes region r)
  unfolding preferred_nodes
  preferred_nodes-IsShown c nodes region r =
      if_holds (All (IsShown nodes)) (t.is_empty (target_of t c region)) _ _
        (everywhere-IsShown nodes)
        (or_global-All (IsShown nodes) c.fallback_to_global (everywhere_alive nodes) _
          (everywhere-IsShown nodes) (regional-IsShown nodes (target_of t c region) r))

  -- An alive node anywhere makes the global pool non-empty.
  everywhere-some :
      (n : Node) (nodes : List Node)
      → In n nodes
      → is_alive n.status ≡ true
      → is_some_node (everywhere_alive nodes) ≡ true
  everywhere-some n [] h a = elim h [ ]
  everywhere-some n (m ∷ ms) (inl e) a = rw (ap (λ x. is_alive x.status) (sym e) ∙ a) refl
  everywhere-some n (m ∷ ms) (inr h) a =
      kept (is_alive m.status) m (everywhere_alive ms) (everywhere-some n ms h a)
    where
      kept :
          (b : Bool) (m : Node) (rest : List Node)
          → is_some_node rest ≡ true
          → is_some_node (if b then m ∷ rest else rest) ≡ true
      kept true m rest h = refl
      kept false m rest h = h

  or_global-some :
      (everywhere regional : List Node)
      → is_some_node everywhere ≡ true
      → is_some_node (or_global true everywhere regional) ≡ true
  or_global-some everywhere [] h = h
  or_global-some everywhere (n ∷ ns) h = refl

  -- With the fallback, a region that has lost all its nodes is served from elsewhere: as long as some
  -- node is alive, some node is preferred.
  pub preferred_nodes-serves :
      (c : Settings) (nodes : List Node) (region : Option String) (r : Registry) (n : Node)
      → c.fallback_to_global ≡ true
      → In n nodes
      → is_alive n.status ≡ true
      → is_some_node (preferred_nodes t c nodes region r) ≡ true
  unfolding preferred_nodes
  preferred_nodes-serves c nodes region r n f h a =
      let some_alive = everywhere-some n nodes h a in
      rw f (
        if_holds (λ x. is_some_node x ≡ true) (t.is_empty (target_of t c region)) _ _ some_alive
          (or_global-some (everywhere_alive nodes)
            (alive_nodes_for_region t nodes (target_of t c region) r) some_alive))

  or_global-kept :
      (fallback : Bool) (everywhere regional : List Node)
      → is_some_node regional ≡ true
      → or_global fallback everywhere regional ≡ regional
  or_global-kept fallback everywhere [] h = absurd (ground (arith, h))
  or_global-kept true everywhere (n ∷ ns) h = refl
  or_global-kept false everywhere (n ∷ ns) h = refl

  -- A region that has an alive node is served from it alone.
  preferred_nodes-stays :
      (c : Settings) (nodes : List Node) (region : Option String) (r : Registry)
      → t.is_empty (target_of t c region) ≡ false
      → is_some_node (alive_nodes_for_region t nodes (target_of t c region) r) ≡ true
      → preferred_nodes t c nodes region r ≡ alive_nodes_for_region t nodes (target_of t c region) r
  unfolding preferred_nodes
  preferred_nodes-stays c nodes region r e h = rw e (
      or_global-kept c.fallback_to_global (everywhere_alive nodes)
        (alive_nodes_for_region t nodes (target_of t c region) r) h)
