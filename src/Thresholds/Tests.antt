-- ===== src/Thresholds/Tests.antt =====
-- Thresholds in hundredths: whole numbers with the products and quotients of fixed-point arithmetic.
use huddle_cluster.Base.{ℕ, ◌+◌, ◌-◌, ◌*◌, ◌/◌, ◌≡◌, refl, true, List, [], ◌∷◌, arith, ltb, leb}
use huddle_cluster.Base.Floats.{Floats, Laws, whole-Laws}
use huddle_cluster.Thresholds.{Settings, start}
use huddle_cluster.Thresholds.Bounds.{Decimals, IsOrdered, Event, records, asks, run, run-IsOrdered}

abbrev hundred : Floats
hundred = record {
  Float = ℕ;
  lt = ltb;
  le = leb;
  add = λ a b. a + b;
  sub = λ a b. a - b;
  mul = λ a b. a * b / 100;
  div = λ a b. a * 100 / b;
  of_nat = λ n. n * 100;
}

hundred-Laws : Laws hundred
hundred-Laws = record {
  lt→not_le = whole-Laws.lt→not_le;
  lt→le = whole-Laws.lt→le;
  lt_irrefl = whole-Laws.lt_irrefl;
  lt_trans = whole-Laws.lt_trans;
  le_trans = whole-Laws.le_trans;
}

under : (h : ℕ) → leb 35 h ≡ true → leb h 85 ≡ true → ltb (h - 15) h ≡ true
under h k l = ground arith

hundred-Decimals : Decimals hundred
hundred-Decimals = record {
  lt_10_35 = refl;
  le_35_35 = refl;
  lt_35_85 = refl;
  le_85_85 = refl;
  sub_15 = under;
}

abbrev newest : List ℕ → ℕ
newest [] = 0
newest (x ∷ xs) = x

abbrev settings : Settings ℕ
settings = record {
  base_heat = 55;
  base_cool = 30;
  max_delta = 10;
  window_size = 2;
  adaptation_interval = 5;
}

abbrev events : List (Event ℕ)
events = records 1000 ∷ records 9000 ∷ asks 10 ∷ []

run-IsOrdered_example :
    IsOrdered hundred (run hundred newest settings events (start hundred newest settings 0))
unfolding start
run-IsOrdered_example =
    run-IsOrdered hundred newest settings hundred-Laws hundred-Decimals events
      (start hundred newest settings 0) (refl, refl, refl)
