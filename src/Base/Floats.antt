-- ===== src/Base/Floats.antt =====
-- Python's floats as a parameter: a carrier with the operations and the comparisons that the
-- program uses. `Laws` names what IEEE 754 comparison guarantees for every value, NaN included:
-- no law says that two values are comparable, and none is about rounding.
use Prim.Native.Nat.{ℕ, ◌+◌, ◌-◌, ◌*◌, ◌/◌}
use mathlib.Core.Path.{◌≡◌}
use mathlib.Core.Bool.{Bool, true, false}
use native.Mathlib.Omega.{arith}
use huddle_cluster.Base.Tests.{ltb, leb, if◌then◌else◌}

pub record Floats : Type 1 where
  pub Float : Type 0
  pub lt : Float → Float → Bool
  pub le : Float → Float → Bool
  pub add : Float → Float → Float
  pub sub : Float → Float → Float
  pub mul : Float → Float → Float
  pub div : Float → Float → Float
  pub of_nat : ℕ → Float

pub record Laws (fl : Floats) : Type 0 where
  pub lt→not_le : (a b : fl.Float) → fl.lt a b ≡ true → fl.le b a ≡ false
  pub lt→le : (a b : fl.Float) → fl.lt a b ≡ true → fl.le a b ≡ true
  pub lt_irrefl : (a : fl.Float) → fl.lt a a ≡ false
  pub lt_trans : (a b c : fl.Float) → fl.lt a b ≡ true → fl.lt b c ≡ true → fl.lt a c ≡ true
  pub le_trans : (a b c : fl.Float) → fl.le a b ≡ true → fl.le b c ≡ true → fl.le a c ≡ true

-- Whole numbers, with subtraction that stops at 0: an instance for examples.
abbrev pub whole : Floats
whole = record {
  Float = ℕ;
  lt = ltb;
  le = leb;
  add = λ a b. a + b;
  sub = λ a b. a - b;
  mul = λ a b. a * b;
  div = λ a b. a / b;
  of_nat = λ n. n;
}

ltb→not_leb : (a b : ℕ) → ltb a b ≡ true → leb b a ≡ false
ltb→not_leb a b h = ground arith

ltb→leb : (a b : ℕ) → ltb a b ≡ true → leb a b ≡ true
ltb→leb a b h = ground arith

leb_trans : (a b c : ℕ) → leb a b ≡ true → leb b c ≡ true → leb a c ≡ true
leb_trans a b c h k = ground arith

ltb_irrefl : (a : ℕ) → ltb a a ≡ false
ltb_irrefl a = ground arith

ltb_trans : (a b c : ℕ) → ltb a b ≡ true → ltb b c ≡ true → ltb a c ≡ true
ltb_trans a b c h k = ground arith

pub whole-Laws : Laws whole
whole-Laws = record {
  lt→not_le = ltb→not_leb;
  lt→le = ltb→leb;
  lt_irrefl = ltb_irrefl;
  lt_trans = ltb_trans;
  le_trans = leb_trans;
}

module _ (fl : Floats) where
  open fl use {Float, lt}

  -- Python's `min(a, b)` and `max(a, b)` keep the first of two equal or incomparable values.
  abbrev pub py_min : Float → Float → Float
  py_min a b = if lt b a then b else a

  abbrev pub py_max : Float → Float → Float
  py_max a b = if lt a b then b else a
