-- ===== src/Ring/Promotion.antt =====
-- What the two loops that promote servers keep: whatever each of their moves keeps.
use huddle_cluster.Base.{
  ℕ, zero, suc, ◌≡◌, refl, Bool, true, false, ◌&&◌, List, [], ◌∷◌, length, ltb, Bool-cases, ◌⊎◌,
  inl, inr,
}
use huddle_cluster.Base.Floats.{Floats}
use huddle_cluster.Ring.Outside.{Heap, Remediation}
use huddle_cluster.Ring.{Server, Settings, Cluster, move_to_inner, pull_next, pull_from_outer}
use huddle_cluster.Ring.Rotate.{promote_next, promote_cooled, may_return}

module _ (fl : Floats) {R : Type 0} (heap : Heap (Server fl.Float)) (rem : Remediation fl.Float R)
    (c : Settings fl.Float) where
  open fl use {Float}

  -- The state after one round.
  abbrev pub promotion :
      Float → Server Float → List (Server Float) → Cluster Float R → Cluster Float R
  promotion now s rest k =
      move_to_inner fl heap rem c now s (record k { outer_ring = heap.heappop s rest })

  abbrev pub Keeps :
      (Cluster Float R → Type 0) → Float → (Cluster Float R → Server Float → Bool) → Type 0
  Keeps P now test =
      (k : Cluster Float R) (s : Server Float) (rest : List (Server Float))
      → k.outer_ring ≡ s ∷ rest
      → test k s ≡ true
      → P k
      → P (promotion now s rest k)

  abbrev pub has_room : Float → Cluster Float R → Server Float → Bool
  has_room now k s = ltb (length k.inner_ring) c.max_inner_size && may_return fl heap rem c now k s

  abbrev pub falls_short : Cluster Float R → Server Float → Bool
  falls_short k s = ltb (length k.inner_ring) c.min_inner_size

  promote_next-keeps :
      (P : Cluster Float R → Type 0) (now : Float)
      → Keeps P now (has_room now)
      → (loop : Cluster Float R → Cluster Float R) → ((k : Cluster Float R) → P k → P (loop k))
      → (k : Cluster Float R) (ring : List (Server Float)) → k.outer_ring ≡ ring
      → P k
      → P (promote_next fl heap rem c loop now k ring)
  promote_next-keeps P now move loop looped k [] e h = h
  promote_next-keeps P now move loop looped k (s ∷ rest) e h = split (Bool-cases (has_room now k s))
    where
      split :
          (has_room now k s ≡ true) ⊎ (has_room now k s ≡ false)
          → P (promote_next fl heap rem c loop now k (s ∷ rest))
      split (inl t) = rw t (looped _ (move k s rest e t h))
      split (inr t) = rw t h

  pub promote_cooled-keeps :
      (P : Cluster Float R → Type 0) (now : Float)
      → Keeps P now (has_room now)
      → (n : ℕ) (k : Cluster Float R) → P k
      → P (promote_cooled fl heap rem c n now k)
  unfolding promote_cooled
  promote_cooled-keeps P now move zero k h = h
  promote_cooled-keeps P now move (suc n) k h =
      promote_next-keeps P now move _ (promote_cooled-keeps P now move n) k k.outer_ring refl h

  pull_next-keeps :
      (P : Cluster Float R → Type 0) (now : Float)
      → Keeps P now falls_short
      → (loop : Cluster Float R → Cluster Float R) → ((k : Cluster Float R) → P k → P (loop k))
      → (k : Cluster Float R) (ring : List (Server Float)) → k.outer_ring ≡ ring
      → P k
      → P (pull_next fl heap rem c loop now k ring)
  pull_next-keeps P now move loop looped k [] e h = h
  pull_next-keeps P now move loop looped k (s ∷ rest) e h = split (Bool-cases (falls_short k s))
    where
      split :
          (falls_short k s ≡ true) ⊎ (falls_short k s ≡ false)
          → P (pull_next fl heap rem c loop now k (s ∷ rest))
      split (inl t) = rw t (looped _ (move k s rest e t h))
      split (inr t) = rw t h

  pub pull_from_outer-keeps :
      (P : Cluster Float R → Type 0) (now : Float)
      → Keeps P now falls_short
      → (n : ℕ) (k : Cluster Float R) → P k
      → P (pull_from_outer fl heap rem c n now k)
  unfolding pull_from_outer
  pull_from_outer-keeps P now move zero k h = h
  pull_from_outer-keeps P now move (suc n) k h =
      pull_next-keeps P now move _ (pull_from_outer-keeps P now move n) k k.outer_ring refl h
