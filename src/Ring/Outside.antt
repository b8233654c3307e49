-- ===== src/Ring/Outside.antt =====
-- What the ring uses of code elsewhere: Python's `heapq`, the optional remediator and the optional
-- hardware manager, as records of operations; `HeapLaws` is what the documentation of `heapq` says of
-- the items.
use huddle_cluster.Base.{ℕ, ◌+◌, ◌≡◌, String, Bool, List, [], ◌∷◌, if◌then◌else◌}

-- How many items pass a test.
abbrev pub tally {ℓ} : {A : Type ℓ} → (A → Bool) → List A → ℕ
tally p [] = 0
tally p (x ∷ xs) = (if p x then 1 else 0) + tally p xs

-- `heappop` is called where its result is the first item, which the caller has read already.
pub record Heap (A : Type 0) : Type 0 where
  pub heappush : A → List A → List A
  pub heappop : A → List A → List A
  pub heapify : List A → List A

pub record HeapLaws {A : Type 0} (h : Heap A) : Type 0 where
  pub heappush-tally :
      (p : A → Bool) (x : A) (xs : List A) → tally p (h.heappush x xs) ≡ tally p (x ∷ xs)
  pub heappop-tally : (p : A → Bool) (x : A) (xs : List A) → tally p (h.heappop x xs) ≡ tally p xs
  pub heapify-tally : (p : A → Bool) (xs : List A) → tally p (h.heapify xs) ≡ tally p xs

-- The calls of the remediator, over its state; what it raises is swallowed.
pub record Remediation (F R : Type 0) : Type 0 where
  pub is_quarantined : R → String → Bool
  -- `record_eviction`, and `trigger_remediation` for the policy that it finds.
  pub on_eviction : R → String → R
  pub on_recovery : R → String → R
  pub on_circuit_open : R → String → R
  pub on_stale_check : R → R
