-- ===== src/Base/Sets.antt =====
-- A Python set of strings, as the list of its items.
use Prim.Native.String.{String}
use text.Mathlib.Text.{◌==◌ as str_eq}
use text.Mathlib.TextEquality.{eq_iff}
use mathlib.Core.Path.{◌≡◌}
use mathlib.Core.Bool.{Bool, false, ◌||◌}
use mathlib.Core.List.{List, [], ◌∷◌}
use native.Mathlib.Omega.{arith}
use huddle_cluster.Base.Tests.{if◌then◌else◌}

-- `x in s`, `s.add(x)` and `s.discard(x)`.
unfoldable pub has : String → List String → Bool
has x [] = false
has x (y ∷ ys) = str_eq y x || has x ys

unfoldable pub add_to : String → List String → List String
unfolding has
add_to x ys = if has x ys then ys else x ∷ ys

unfoldable pub discard : String → List String → List String
discard x [] = []
discard x (y ∷ ys) = let rest = discard x ys in if str_eq y x then rest else y ∷ rest

pub has-add_to : (x a : String) (ys : List String) → has a (add_to x ys) ≡ (str_eq x a || has a ys)
unfolding has add_to
has-add_to x a ys = ground (arith, eq_iff x a)

pub has-discard :
    (x a : String) (ys : List String)
    → has a (discard x ys) ≡ (if str_eq x a then false else has a ys)
unfolding has discard
has-discard x a [] = ground arith
has-discard x a (y ∷ ys) = ground (arith, has-discard x a ys, eq_iff y x, eq_iff y a, eq_iff x a)
