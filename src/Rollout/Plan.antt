-- ===== src/Rollout/Plan.antt =====
-- The plan of a rollout: the eligible nodes in their order, and the batches.
use huddle_cluster.Base.{
  ℕ, zero, suc, ◌≤◌, ◌<◌, ◌≡◌, ◌∙◌, refl, String, Bool, true, false, List, [], ◌∷◌, ◌++◌, arith,
  if◌then◌else◌, ltb, length, take, drop, keep, All, ap, take-drop, length-take-le, length-drop,
  Bool-cases, inl, inr, All-weaken,
}
use huddle_cluster.Ring.Outside.{tally}
use huddle_cluster.Master.{Status, alive, dead, leaving, quarantined}

pub record NodeView : Type 0 where
  pub node_id : String
  pub status : Status
  pub death_count : ℕ

pub data UpdateOrder : Type 0 where
  alive_first stable_first : UpdateOrder

abbrev pub is_eligible : Status → Bool
is_eligible dead = false
is_eligible leaving = false
is_eligible _ = true

unfoldable pub status_rank : Status → ℕ
status_rank alive = 0
status_rank quarantined = 1
status_rank _ = 9

unfoldable pub sort_key : UpdateOrder → NodeView → ℕ
unfolding status_rank
sort_key stable_first n = n.death_count
sort_key alive_first n = status_rank n.status

-- A stable sort: a node goes before the first one whose key is not less.
unfoldable pub place_in : {A : Type 0} → (A → ℕ) → A → List A → List A
place_in key x [] = x ∷ []
place_in key x (y ∷ ys) =
    let later = y ∷ place_in key x ys in if ltb (key y) (key x) then later else x ∷ y ∷ ys

unfoldable pub sort_by : {A : Type 0} → (A → ℕ) → List A → List A
unfolding place_in
sort_by key [] = []
sort_by key (x ∷ xs) = place_in key x (sort_by key xs)

-- `_sorted_nodes`
unfoldable pub sorted_nodes : UpdateOrder → List NodeView → List NodeView
unfolding sort_by sort_key
sorted_nodes order nodes = sort_by (sort_key order) (keep (λ n. is_eligible n.status) nodes)

-- `[nodes[i:i + size] for i in range(0, len(nodes), size)]`; a batch takes at least one node, so the
-- number of nodes is fuel enough.
unfoldable pub split : {A : Type 0} → ℕ → ℕ → List A → List (List A)
split zero size xs = []
split (suc n) size [] = []
split (suc n) size (x ∷ xs) = take size (x ∷ xs) ∷ split n size (drop size (x ∷ xs))

unfoldable pub batches : {A : Type 0} → ℕ → List A → List (List A)
unfolding split
batches size nodes = split (length nodes) size nodes

abbrev pub joined : {A : Type 0} → List (List A) → List A
joined [] = []
joined (b ∷ bs) = b ++ joined bs

split-joined :
    {A : Type 0} (n k : ℕ) (xs : List A)
    → length xs ≤ n
    → (joined (split n (suc k) xs) ≡ xs)
      × All (λ b. (0 < length b) × (length b ≤ suc k)) (split n (suc k) xs)
unfolding split
split-joined zero k [] h = (refl, tt)
split-joined zero k (x ∷ xs) h = absurd (omega arith)
split-joined (suc n) k [] h = (refl, tt)
split-joined (suc n) k (x ∷ xs) h =
    let rest = split-joined n k (drop k xs) (omega (arith, length-drop k xs, h)) in
    (
      ap (λ tail. x ∷ take k xs ++ tail) rest.0 ∙ ap (λ t. x ∷ t) (take-drop k xs),
      ((omega arith, omega (arith, length-take-le k xs)), rest.1),
    )

-- The batches are the nodes in their order, none is empty, and none is larger than the batch size.
pub batches-joined :
    {A : Type 0} (size : ℕ) (nodes : List A)
    → 0 < size
    → (joined (batches size nodes) ≡ nodes)
      × All (λ b. (0 < length b) × (length b ≤ size)) (batches size nodes)
unfolding batches
batches-joined zero nodes h = absurd (omega arith)
batches-joined (suc k) nodes h = split-joined (length nodes) k nodes (omega arith)

abbrev pub ids : List NodeView → List String
ids [] = []
ids (n ∷ rest) = n.node_id ∷ ids rest

pub ids-append : (xs ys : List NodeView) → ids (xs ++ ys) ≡ ids xs ++ ids ys
ids-append [] ys = refl
ids-append (x ∷ xs) ys = cc (ids-append xs ys)

-- Each key is at most the next one.
abbrev pub IsSortedBy : {A : Type 0} → (A → ℕ) → List A → Type 0
IsSortedBy key [] = Unit
IsSortedBy key (x ∷ xs) = All (λ y. key x ≤ key y) xs × IsSortedBy key xs

All-place_in :
    {A : Type 0} (P : A → Type 0) (key : A → ℕ) (x : A) (ys : List A)
    → P x
    → All P ys
    → All P (place_in key x ys)
unfolding place_in
All-place_in P key x [] h k = (h, tt)
All-place_in P key x (y ∷ ys) h k = elim (Bool-cases (ltb (key y) (key x))) [
  | inl e ↦ rw e (k.0, All-place_in P key x ys h k.1)
  | inr e ↦ rw e (h, k)
]

place_in-IsSortedBy :
    {A : Type 0} (key : A → ℕ) (x : A) (ys : List A)
    → IsSortedBy key ys
    → IsSortedBy key (place_in key x ys)
unfolding place_in
place_in-IsSortedBy key x [] h = (tt, tt)
place_in-IsSortedBy key x (y ∷ ys) h = elim (Bool-cases (ltb (key y) (key x))) [
  | inl e ↦ rw e (
    All-place_in (λ z. key y ≤ key z) key x ys (ground (arith, e)) h.0,
    place_in-IsSortedBy key x ys h.1,
  )
  | inr e ↦
      let first : key x ≤ key y = ground (arith, e) in
      rw e (
        (
          first,
          All-weaken (λ z. key y ≤ key z) (λ z. key x ≤ key z) ys (λ z k. omega (arith, k, first))
              h.0,
        ),
        h,
      )
]

tally-place_in :
    {A : Type 0} (p : A → Bool) (key : A → ℕ) (x : A) (ys : List A)
    → tally p (place_in key x ys) ≡ tally p (x ∷ ys)
unfolding place_in
tally-place_in p key x [] = refl
tally-place_in p key x (y ∷ ys) = elim (Bool-cases (ltb (key y) (key x))) [
  | inl e ↦ rw e (omega (arith, tally-place_in p key x ys))
  | inr e ↦ rw e refl
]

sort_by_lem :
    {A : Type 0} (key : A → ℕ) (xs : List A)
    → IsSortedBy key (sort_by key xs) × ((p : A → Bool) → tally p (sort_by key xs) ≡ tally p xs)
unfolding sort_by
sort_by_lem key [] = (tt, λ p. refl)
sort_by_lem key (x ∷ xs) = (
  place_in-IsSortedBy key x (sort_by key xs) (sort_by_lem key xs).0,
  λ p. omega (arith, tally-place_in p key x (sort_by key xs), (sort_by_lem key xs).1 p),
)

-- The plan holds every node that is neither dead nor leaving, as often as the master shows it, and
-- no other, in the order of the chosen key.
sorted_nodes-IsSortedBy :
    (order : UpdateOrder) (nodes : List NodeView)
    → IsSortedBy (sort_key order) (sorted_nodes order nodes)
      × ((p : NodeView → Bool)
          → tally p (sorted_nodes order nodes) ≡ tally p (keep (λ n. is_eligible n.status) nodes))
unfolding sorted_nodes
sorted_nodes-IsSortedBy order nodes =
    sort_by_lem (sort_key order) (keep (λ n. is_eligible n.status) nodes)
