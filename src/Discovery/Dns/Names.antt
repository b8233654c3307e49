-- ===== src/Discovery/Dns/Names.antt =====
-- The name of a question, written and read.
use huddle_cluster.Base.{
  ℕ, zero, suc, ◌<◌, ◌≡◌, refl, ap, true, false, some, List, [], ◌∷◌, ◌++◌, arith, ◌==◌, length,
  take, drop, All, length-append,
}
use mathlib.Core.List.{append_assoc}
use huddle_cluster.Discovery.Dns.{Bytes, is_ascii, read_labels}

pub take-append : {A : Type 0} (xs ys : List A) → take (length xs) (xs ++ ys) ≡ xs
take-append [] ys = refl
take-append (x ∷ xs) ys = ap (λ t. x ∷ t) (take-append xs ys)

pub drop-append : {A : Type 0} (xs ys : List A) → drop (length xs) (xs ++ ys) ≡ ys
drop-append [] ys = refl
drop-append (x ∷ xs) ys = drop-append xs ys

-- A name as RFC 1035 writes it: each label after its length, and a zero at the end.
abbrev pub encode : List Bytes → Bytes
encode [] = 0 ∷ []
encode (label ∷ labels) = length label ∷ label ++ encode labels

abbrev pub IsLabel : Bytes → Type 0
IsLabel label = (0 < length label) × (is_ascii label ≡ true)

pub not_zero : (n : ℕ) → 0 < n → (n == 0) ≡ false
not_zero n h = ground arith

read_labels-encode_fuel :
    (n : ℕ) (labels : List Bytes) (tail : Bytes)
    → All IsLabel labels
    → length labels < n
    → read_labels n (encode labels ++ tail) ≡ some labels
unfolding read_labels
read_labels-encode_fuel zero labels tail h k = absurd (omega (arith, k))
read_labels-encode_fuel (suc n) [] tail h k = refl
read_labels-encode_fuel (suc n) (label ∷ labels) tail h k = rw (not_zero (length label) h.0.0) (
    rw (append_assoc label (encode labels) tail) (
      rw (take-append label (encode labels ++ tail)) (
        rw (drop-append label (encode labels ++ tail))
          (rw (read_labels-encode_fuel n labels tail h.1 (omega (arith, k))) (rw h.0.1 refl)))))

pub length-encode : (labels : List Bytes) → length labels < length (encode labels)
length-encode [] = omega arith
length-encode (label ∷ labels) =
    omega (arith, length-append label (encode labels), length-encode labels)

-- A name that is written as RFC 1035 has it, with non-empty ASCII labels, is read as its labels,
-- whatever follows it in the question; the length of the question is fuel enough.
pub read_labels-encode :
    (labels : List Bytes) (tail : Bytes)
    → All IsLabel labels
    → read_labels (length (encode labels ++ tail)) (encode labels ++ tail) ≡ some labels
read_labels-encode labels tail h =
    read_labels-encode_fuel (length (encode labels ++ tail)) labels tail h
      (omega (arith, length-append (encode labels) tail, length-encode labels))
