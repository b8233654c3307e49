-- ===== src/Ring/Retries.antt =====
-- The server of a retry: `_get_server_excluding` of `HuddleCluster`, which `request_with_retry` calls
-- with the servers that it has tried.
use huddle_cluster.Base.{
  ℕ, zero, suc, ◌≡◌, ◌∙◌, refl, sym, subst, String, Bool, true, false, not, ◌||◌, Option, none,
  some, List, [], ◌∷◌, ◌++◌, arith, Bool-cases, inl, inr, if◌then◌else◌, has, length,
}
use mathlib.Core.List.{append_assoc, append-nil}
use huddle_cluster.Base.Floats.{Floats}
use huddle_cluster.Ring.Outside.{tally}
use huddle_cluster.Ring.{Server, Cluster}
use huddle_cluster.Ring.Routing.{emergency_server}

-- The rounds that are left: each turns the ring, and the first server that is not excluded is taken;
-- after them it is the next one in turn.
unfoldable pub excluding :
    {F : Type 0} → ℕ → List String → List (Server F) → Option (Server F) × List (Server F)
excluding n excluded [] = (none, [])
excluding zero excluded (s ∷ rest) = (some s, rest ++ s ∷ [])
excluding (suc n) excluded (s ∷ rest) =
    let more = excluding n excluded (rest ++ s ∷ []) in
    if has s.id excluded then more else (some s, rest ++ s ∷ [])

abbrev pub chosen :
    {F R : Type 0} (k : Cluster F R)
    → Option (Server F) × List (Server F)
    → Option (Server F) × Cluster F R
chosen k r = (r.0, record k { inner_ring = r.1 })

module _ (fl : Floats) {R : Type 0} where
  open fl use {Float}

  abbrev pub excluding_from :
      List String → Cluster Float R → List (Server Float) → Option (Server Float) × Cluster Float R
  excluding_from excluded k [] = (emergency_server fl k, k)
  excluding_from excluded k (s ∷ rest) =
      chosen k (excluding (length (s ∷ rest)) excluded (s ∷ rest))

  unfoldable pub get_server_excluding :
      List String → Cluster Float R → Option (Server Float) × Cluster Float R
  unfolding excluding
  get_server_excluding excluded k = excluding_from excluded k k.inner_ring

abbrev pub is_fresh : {F : Type 0} → List String → Option (Server F) → Bool
is_fresh excluded none = false
is_fresh excluded (some s) = not (has s.id excluded)

abbrev pub some_fresh : {F : Type 0} → List String → List (Server F) → Bool
some_fresh excluded [] = false
some_fresh excluded (s ∷ rest) = is_fresh excluded (some s) || some_fresh excluded rest

-- Servers that are turned away come behind those that are still to be seen.
excluding-finds :
    {F : Type 0} (excluded : List String) (ahead behind : List (Server F))
    → some_fresh excluded ahead ≡ true
    → is_fresh excluded (excluding (length ahead) excluded (ahead ++ behind)).0 ≡ true
unfolding excluding
excluding-finds excluded [] behind h = absurd (ground (arith, h))
excluding-finds excluded (s ∷ ahead) behind h = elim (Bool-cases (has s.id excluded)) [
  | inl t ↦ rw t (
      subst (λ ring. is_fresh excluded (excluding (length ahead) excluded ring).0 ≡ true)
        (sym (append_assoc ahead behind (s ∷ [])))
        (excluding-finds excluded ahead (behind ++ s ∷ []) (ground (arith, h, t))))
  | inr t ↦ rw t (ground (arith, t))
]

tally-turned :
    {A : Type 0} (p : A → Bool) (s : A) (rest : List A)
    → tally p (rest ++ s ∷ []) ≡ tally p (s ∷ rest)
tally-turned p s [] = refl
tally-turned p s (x ∷ rest) = omega (arith, tally-turned p s rest)

tally-excluding :
    {F : Type 0} (p : Server F → Bool) (n : ℕ) (excluded : List String) (ring : List (Server F))
    → tally p (excluding n excluded ring).1 ≡ tally p ring
unfolding excluding
tally-excluding p zero excluded [] = refl
tally-excluding p (suc n) excluded [] = refl
tally-excluding p zero excluded (s ∷ rest) = tally-turned p s rest
tally-excluding p (suc n) excluded (s ∷ rest) = elim (Bool-cases (has s.id excluded)) [
  | inl t ↦ rw t (tally-excluding p n excluded (rest ++ s ∷ []) ∙ tally-turned p s rest)
  | inr t ↦ rw t (tally-turned p s rest)
]

module _ (fl : Floats) {R : Type 0} where
  open fl use {Float}

  -- A retry takes a server that was not tried yet, as long as the inner ring has one, and the inner ring
  -- keeps all its servers.
  pub get_server_excluding-is_fresh :
      (excluded : List String) (k : Cluster Float R)
      → some_fresh excluded k.inner_ring ≡ true
      → let r = get_server_excluding fl excluded k in
        (is_fresh excluded r.0 ≡ true)
        × ((p : Server Float → Bool) → tally p r.1.inner_ring ≡ tally p k.inner_ring)
  unfolding get_server_excluding
  get_server_excluding-is_fresh excluded k h = from k.inner_ring h
    where
      from :
          (ring : List (Server Float))
          → some_fresh excluded ring ≡ true
          → (is_fresh excluded (excluding_from fl excluded k ring).0 ≡ true)
            × ((p : Server Float → Bool)
                → tally p (excluding_from fl excluded k ring).1.inner_ring ≡ tally p ring)
      from [] h = absurd (ground (arith, h))
      from (s ∷ rest) h = (
        subst (λ ring. is_fresh excluded (excluding (length (s ∷ rest)) excluded ring).0 ≡ true)
            (append-nil (s ∷ rest)) (excluding-finds excluded (s ∷ rest) [] h),
        λ p. tally-excluding p (length (s ∷ rest)) excluded (s ∷ rest),
      )
