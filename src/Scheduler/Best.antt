-- ===== src/Scheduler/Best.antt =====
-- The first of the best is a member of the pool, and no member has a greater score.
use huddle_cluster.Base.{
  ◌≡◌, refl, Bool, true, false, List, [], ◌∷◌, arith, inl, inr, In, All, Bool-cases, if◌then◌else◌,
}
use huddle_cluster.Base.Floats.{Floats, Laws}
use huddle_cluster.Scheduler.{best}

module _ {A F : Type 0} (lt : F → F → Bool) (score : A → F) where
  In-either :
      (b : Bool) (x y z : A) (rest : List A)
      → In z ((if b then y else x) ∷ rest)
      → In z (x ∷ y ∷ rest)
  In-either true x y z rest (inl e) = inr (inl e)
  In-either true x y z rest (inr i) = inr (inr i)
  In-either false x y z rest (inl e) = inl e
  In-either false x y z rest (inr i) = inr (inr i)

  pub best-In : (x : A) (rest : List A) → In (best lt score x rest) (x ∷ rest)
  unfolding best
  best-In x [] = inl refl
  best-In x (y ∷ rest) =
      In-either (lt (score x) (score y)) x y _ rest
        (best-In (if lt (score x) (score y) then y else x) rest)

module _ {A : Type 0} (fl : Floats) (laws : Laws fl) (score : A → fl.Float) where
  open fl use {lt}

  better :
      (b : Bool) (x y z : A)
      → lt (score x) (score y) ≡ b
      → lt (score x) (score z) ≡ false
      → lt (score (if b then y else x)) (score z) ≡ false
  better false x y z e h = h
  better true x y z e h = elim (Bool-cases (lt (score y) (score z))) [
    | inl k ↦ ground (arith, h, laws.lt_trans (score x) (score y) (score z) e k)
    | inr k ↦ k
  ]

  -- What the best so far is not behind, the best is not behind.
  best-not_lt :
      (x : A) (rest : List A) (z : A)
      → lt (score x) (score z) ≡ false
      → lt (score (best lt score x rest)) (score z) ≡ false
  unfolding best
  best-not_lt x [] z h = h
  best-not_lt x (y ∷ rest) z h =
      best-not_lt (if lt (score x) (score y) then y else x) rest z
        (better (lt (score x) (score y)) x y z refl h)

  caught_up :
      (b : Bool) (x y : A)
      → lt (score x) (score y) ≡ b
      → lt (score (if b then y else x)) (score y) ≡ false
  caught_up true x y e = laws.lt_irrefl (score y)
  caught_up false x y e = e

  best-max :
      (x : A) (rest : List A) → All (λ z. lt (score (best lt score x rest)) (score z) ≡ false) rest
  unfolding best
  best-max x [] = tt
  best-max x (y ∷ rest) = (
    best-not_lt (if lt (score x) (score y) then y else x) rest y
        (caught_up (lt (score x) (score y)) x y refl),
    best-max (if lt (score x) (score y) then y else x) rest,
  )

  pub best-IsMax :
      (x : A) (rest : List A)
      → All (λ z. lt (score (best lt score x rest)) (score z) ≡ false) (x ∷ rest)
  best-IsMax x rest = (best-not_lt x rest x (laws.lt_irrefl (score x)), best-max x rest)
