-- ===== src/Ring/Refill.antt =====
-- After `_maybe_pull_from_outer` the inner ring has its minimum size if there are servers for it: the
-- fuel of the loop is enough.
use huddle_cluster.Base.{
  ℕ, zero, suc, ◌≤◌, ◌≡◌, ◌⊎◌, ◌∙◌, refl, sym, ap, true, false, List, [], ◌∷◌, arith, inl, inr,
  length, Bool-cases,
}
use huddle_cluster.Base.Floats.{Floats}
use huddle_cluster.Ring.Outside.{Heap, HeapLaws, Remediation, tally}
use huddle_cluster.Ring.{
  Server, Settings, Cluster, move_to_inner, pull_next, pull_from_outer, maybe_pull_from_outer,
}
use huddle_cluster.Ring.Promotion.{promotion, falls_short}

length-tally : {A : Type 0} (xs : List A) → tally (λ x. true) xs ≡ length xs
length-tally [] = refl
length-tally (x ∷ xs) = omega (arith, length-tally xs)

module _ (fl : Floats) {R : Type 0} (heap : Heap (Server fl.Float)) (rem : Remediation fl.Float R)
    (c : Settings fl.Float) (laws : HeapLaws heap) where
  open fl use {Float}

  length-heappop :
      (s : Server Float) (rest : List (Server Float)) → length (heap.heappop s rest) ≡ length rest
  length-heappop s rest =
      sym (length-tally (heap.heappop s rest))
      ∙ laws.heappop-tally (λ x. true) s rest
      ∙ length-tally rest

  abbrev IsRefilled : Cluster Float R → Type 0
  IsRefilled k = (length k.outer_ring ≡ 0) ⊎ (c.min_inner_size ≤ length k.inner_ring)

  outer_ring-promotion :
      (now : Float) (s : Server Float) (rest : List (Server Float)) (k : Cluster Float R)
      → length (promotion fl heap rem c now s rest k).outer_ring ≡ length rest
  unfolding move_to_inner
  outer_ring-promotion now s rest k = length-heappop s rest

  pull_next-IsRefilled :
      (loop : Cluster Float R → Cluster Float R) (n : ℕ) (now : Float)
      → ((k : Cluster Float R) → length k.outer_ring ≤ n → IsRefilled (loop k))
      → (k : Cluster Float R) (ring : List (Server Float)) → k.outer_ring ≡ ring
      → length ring ≤ suc n
      → IsRefilled (pull_next fl heap rem c loop now k ring)
  pull_next-IsRefilled loop n now looped k [] e h = inl (ap length e)
  pull_next-IsRefilled loop n now looped k (s ∷ rest) e h =
      split (Bool-cases (falls_short fl heap rem c k s))
    where
      split :
          (falls_short fl heap rem c k s ≡ true) ⊎ (falls_short fl heap rem c k s ≡ false)
          → IsRefilled (pull_next fl heap rem c loop now k (s ∷ rest))
      split (inl t) = rw t (
          looped (promotion fl heap rem c now s rest k)
            (omega (arith, h, outer_ring-promotion now s rest k)))
      split (inr t) = rw t (inr (ground (arith, t)))

  pull_from_outer-IsRefilled :
      (n : ℕ) (now : Float) (k : Cluster Float R)
      → length k.outer_ring ≤ n
      → IsRefilled (pull_from_outer fl heap rem c n now k)
  unfolding pull_from_outer
  pull_from_outer-IsRefilled zero now k h = inl (omega (arith, h))
  pull_from_outer-IsRefilled (suc n) now k h =
      pull_next-IsRefilled (pull_from_outer fl heap rem c n now) n now
        (pull_from_outer-IsRefilled n now) k k.outer_ring refl h

  -- After the pull the outer ring is empty or the inner ring has its minimum size.
  pub maybe_pull_from_outer-refills :
      (now : Float) (k : Cluster Float R)
      → (length (maybe_pull_from_outer fl heap rem c now k).outer_ring ≡ 0)
        ⊎ (c.min_inner_size ≤ length (maybe_pull_from_outer fl heap rem c now k).inner_ring)
  unfolding maybe_pull_from_outer
  maybe_pull_from_outer-refills now k =
      pull_from_outer-IsRefilled (length k.outer_ring) now k (omega arith)
