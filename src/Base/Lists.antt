-- ===== src/Base/Lists.antt =====
-- Lists measured by native numbers, and filters by Boolean tests (list comprehensions).
use Prim.Native.Nat.{ℕ, zero, suc, ◌+◌, ◌-◌, ◌≤◌}
use mathlib.Core.Path.{◌≡◌, refl, sym, subst}
use mathlib.Core.Logic.{◌⊎◌, inl, inr}
use mathlib.Core.Bool.{Bool, true, false}
use mathlib.Core.List.{List, [], ◌∷◌, ◌++◌}
use native.Mathlib.Omega.{arith}
use huddle_cluster.Base.Tests.{if◌then◌else◌}

module _ {ℓ} {A : Type ℓ} where
  abbrev pub length : List A → ℕ
  length [] = 0
  length (x ∷ xs) = suc (length xs)

  abbrev pub drop : ℕ → List A → List A
  drop zero xs = xs
  drop (suc n) [] = []
  drop (suc n) (x ∷ xs) = drop n xs

  abbrev pub take : ℕ → List A → List A
  take zero xs = []
  take (suc n) [] = []
  take (suc n) (x ∷ xs) = x ∷ take n xs

  -- `[x for x in xs if p(x)]`
  abbrev pub keep : (A → Bool) → List A → List A
  keep p [] = []
  keep p (x ∷ xs) = if p x then x ∷ keep p xs else keep p xs

  -- A universal statement that computes over the list.
  abbrev pub All {κ} : (A → Type κ) → List A → Type κ
  All P [] = Unit
  All P (x ∷ xs) = P x × All P xs

  pub length-append : (xs ys : List A) → length (xs ++ ys) ≡ length xs + length ys
  length-append [] ys = omega arith
  length-append (x ∷ xs) ys = omega (arith, length-append xs ys)

  pub length-drop : (n : ℕ) (xs : List A) → length (drop n xs) ≡ length xs - n
  length-drop zero xs = omega arith
  length-drop (suc n) [] = omega arith
  length-drop (suc n) (x ∷ xs) = omega (arith, length-drop n xs)

  pub length-take-le : (n : ℕ) (xs : List A) → length (take n xs) ≤ n
  length-take-le zero xs = omega arith
  length-take-le (suc n) [] = omega arith
  length-take-le (suc n) (x ∷ xs) = omega (arith, length-take-le n xs)

  pub take-drop : (n : ℕ) (xs : List A) → take n xs ++ drop n xs ≡ xs
  take-drop zero xs = refl
  take-drop (suc n) [] = refl
  take-drop (suc n) (x ∷ xs) = cc (take-drop n xs)

  pub length-keep-le : (p : A → Bool) (xs : List A) → length (keep p xs) ≤ length xs
  length-keep-le p [] = omega arith
  length-keep-le p (x ∷ xs) = ground (arith, length-keep-le p xs)

-- Membership that computes over the list.
abbrev pub In : {A : Type 0} → A → List A → Type 0
In a [] = ⊥
In a (x ∷ xs) = (a ≡ x) ⊎ In a xs

-- Each of the first list stands in the second.
abbrev pub IsWithin : {A : Type 0} → List A → List A → Type 0
IsWithin xs ys = All (λ x. In x ys) xs

pub All-weaken :
    {A : Type 0} (P Q : A → Type 0) (xs : List A) → ((x : A) → P x → Q x) → All P xs → All Q xs
All-weaken P Q [] f h = tt
All-weaken P Q (x ∷ xs) f h = (f x h.0, All-weaken P Q xs f h.1)

pub IsWithin-refl : {A : Type 0} (xs : List A) → IsWithin xs xs
IsWithin-refl [] = tt
IsWithin-refl (x ∷ xs) =
    (inl refl, All-weaken (λ y. In y xs) (λ y. In y (x ∷ xs)) xs (λ y h. inr h) (IsWithin-refl xs))

IsWithin-kept :
    {A : Type 0} (b : Bool) (x : A) (kept xs : List A)
    → IsWithin kept xs
    → IsWithin (if b then x ∷ kept else kept) (x ∷ xs)
IsWithin-kept true x kept xs h =
    (inl refl, All-weaken (λ y. In y xs) (λ y. In y (x ∷ xs)) kept (λ y h'. inr h') h)
IsWithin-kept false x kept xs h =
    All-weaken (λ y. In y xs) (λ y. In y (x ∷ xs)) kept (λ y h'. inr h') h

pub IsWithin-keep : {A : Type 0} (p : A → Bool) (xs : List A) → IsWithin (keep p xs) xs
IsWithin-keep p [] = tt
IsWithin-keep p (x ∷ xs) = IsWithin-kept (p x) x (keep p xs) xs (IsWithin-keep p xs)

-- What holds of every member holds of each.
pub All-In : {A : Type 0} (P : A → Type 0) (a : A) (xs : List A) → All P xs → In a xs → P a
All-In P a [] h i = absurd i
All-In P a (x ∷ xs) h (inl e) = subst P (sym e) h.0
All-In P a (x ∷ xs) h (inr i) = All-In P a xs h.1 i

-- A filter keeps what held, and its test holds of what it keeps.
pub All-keep :
    {A : Type 0} (P : A → Type 0) (p : A → Bool) (xs : List A) → All P xs → All P (keep p xs)
All-keep P p xs h =
    All-weaken (λ x. In x xs) P (keep p xs) (λ x i. All-In P x xs h i) (IsWithin-keep p xs)

All-kept :
    {A : Type 0} (p : A → Bool) (b : Bool) (x : A) (kept : List A)
    → p x ≡ b
    → All (λ y. p y ≡ true) kept
    → All (λ y. p y ≡ true) (if b then x ∷ kept else kept)
All-kept p true x kept e h = (e, h)
All-kept p false x kept e h = h

pub All-keep_sound : {A : Type 0} (p : A → Bool) (xs : List A) → All (λ x. p x ≡ true) (keep p xs)
All-keep_sound p [] = tt
All-keep_sound p (x ∷ xs) = All-kept p (p x) x (keep p xs) refl (All-keep_sound p xs)

pub All-both :
    {A : Type 0} (P Q : A → Type 0) (xs : List A) → All P xs → All Q xs → All (λ x. P x × Q x) xs
All-both P Q [] h k = tt
All-both P Q (x ∷ xs) h k = ((h.0, k.0), All-both P Q xs h.1 k.1)
