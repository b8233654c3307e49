-- ===== src/Canary/Pools.antt =====
-- The pool of nodes that a canary deployment leaves to the scheduler.
use huddle_cluster.Base.{
  IsWithin, IsWithin-refl, IsWithin-keep, ◌<◌, ◌≡◌, refl, String, not, List, [], ◌∷◌, arith, keep,
  length,
}
use huddle_cluster.Base.Floats.{Floats}
use huddle_cluster.Canary.{
  active, Deployment, Settings, NodeView, abort, record_event, is_canary, choose, pick_pool,
}

module _ (fl : Floats) {A J : Type 0} (view : A → NodeView J) (text : J → String) where
  open fl use {Float, lt}

  choose-IsWithin :
      (draw weight : Float) (nodes canary stable : List A)
      → IsWithin canary nodes
      → IsWithin stable nodes
      → IsWithin (choose fl view text draw weight nodes canary stable) nodes
        × (0 < length nodes → 0 < length (choose fl view text draw weight nodes canary stable))
  choose-IsWithin draw weight nodes [] [] h h' = (IsWithin-refl nodes, λ n. n)
  choose-IsWithin draw weight nodes [] (s ∷ stable) h h' = (h', λ n. omega arith)
  choose-IsWithin draw weight nodes (n ∷ canary) [] h h' = (h, λ n'. omega arith)
  choose-IsWithin draw weight nodes (n ∷ canary) (s ∷ stable) h h' = ground (arith, h, h')

  -- The pool is made of the given nodes, and is not empty unless they are none.
  pub pick_pool-IsWithin :
      (c : Settings Float) (draw : Float) (nodes : List A) (k : Deployment Float)
      → IsWithin (pick_pool fl view text c draw nodes k) nodes
        × (0 < length nodes → 0 < length (pick_pool fl view text c draw nodes k))
  unfolding pick_pool
  pick_pool-IsWithin c draw nodes k = ground (
    arith,
    IsWithin-refl nodes,
    choose-IsWithin draw k.weight nodes (keep (is_canary fl view text c k.canary_ids) nodes)
        (keep (λ n. not (is_canary fl view text c k.canary_ids n)) nodes)
        (IsWithin-keep (is_canary fl view text c k.canary_ids) nodes)
        (IsWithin-keep (λ n. not (is_canary fl view text c k.canary_ids n)) nodes),
  )

  -- After an abort the scheduler draws from all nodes, the canaries with them.
  pick_pool-abort :
      (c : Settings Float) (draw : Float) (nodes : List A) (k : Deployment Float)
      → k.phase ≡ active
      → pick_pool fl view text c draw nodes (abort fl k).0 ≡ nodes
  unfolding pick_pool abort record_event
  pick_pool-abort c draw nodes k h = rw h refl
