-- ===== src/Webhooks/Attempts.antt =====
-- How often a delivery is tried, and what it reports.
use huddle_cluster.Base.{
  ℕ, zero, suc, ◌+◌, ◌≤◌, ◌<◌, ◌≡◌, ◌∙◌, ◌⊎◌, refl, sym, ap, subst, String, Bool, true, false, not,
  ◌&&◌, Option, none, some, arith, Bool-cases, inl, inr,
}
use huddle_cluster.Webhooks.{
  Reply, answered, http_error, raised, Tried, is_2xx, is_final, judge, try_from, deliver, Settings,
  retries,
}

abbrev pub succeeds : Reply → Bool
succeeds (answered status text) = is_2xx status
succeeds _ = false

-- A reply after which the delivery is not tried again.
abbrev pub ends : Reply → Bool
ends (answered status text) = is_2xx status
ends (http_error status text) = is_final status
ends (raised text) = false

-- The first replies all call for another attempt.
abbrev pub all_retried : (ℕ → Reply) → ℕ → Bool
all_retried replies zero = true
all_retried replies (suc n) = all_retried replies n && not (ends (replies (suc n)))

-- The replies before one all call for another attempt.
abbrev pub retried_before : (ℕ → Reply) → ℕ → Bool
retried_before replies zero = true
retried_before replies (suc n) = all_retried replies n

-- The attempts go on until one ends the delivery or they are all that is allowed.
abbrev pub IsTried : (ℕ → Reply) → ℕ → Tried → Type 0
IsTried replies most r =
    (r.attempts ≤ most)
    × ((r.attempts ≡ most) ⊎ (ends (replies r.attempts) ≡ true))
    × (retried_before replies r.attempts ≡ true)
    × (r.success ≡ succeeds (replies r.attempts))

judge-IsTried :
    (reply : Reply) (replies : ℕ → Reply) (past most : ℕ) (code : Option ℕ) (error : Option String)
    → (later : Option ℕ → Option String → Tried) → replies (suc past) ≡ reply
    → suc past ≤ most
    → all_retried replies past ≡ true
    → ((c : Option ℕ) (e : Option String) → ends reply ≡ false → IsTried replies most (later c e))
    → IsTried replies most (judge reply (suc past) code error later)
judge-IsTried (answered status text) replies past most code error later e k a h =
    elim (Bool-cases (is_2xx status)) [
      | inl t ↦ rw t (k, inr (ap ends e ∙ t), a, sym (ap succeeds e ∙ t))
      | inr t ↦ rw t (h (some status) (some text) t)
    ]
judge-IsTried (http_error status text) replies past most code error later e k a h =
    elim (Bool-cases (is_final status)) [
      | inl t ↦ rw t (k, inr (ap ends e ∙ t), a, sym (ap succeeds e))
      | inr t ↦ rw t (h (some status) (some text) t)
    ]
judge-IsTried (raised text) replies past most code error later e k a h = h code (some text) refl

succeeds-ends : (reply : Reply) → ends reply ≡ false → succeeds reply ≡ false
succeeds-ends (answered status text) h = h
succeeds-ends (http_error status text) h = refl
succeeds-ends (raised text) h = refl

-- After some attempts that all called for another one, of which there was one at least or is one left.
try_from-IsTried :
    (replies : ℕ → Reply) (left past : ℕ) (code : Option ℕ) (error : Option String)
    → all_retried replies past ≡ true
    → 0 < left + past
    → IsTried replies (left + past) (try_from replies left past code error)
unfolding try_from
try_from-IsTried replies zero zero code error a h = absurd (omega (arith, h))
try_from-IsTried replies zero (suc past) code error a h =
    let parts : (all_retried replies past ≡ true) × (ends (replies (suc past)) ≡ false) =
      ground (arith, a) in
    (omega arith, inl (omega arith), parts.0, sym (succeeds-ends (replies (suc past)) parts.1))
try_from-IsTried replies (suc left) past code error a h =
    judge-IsTried (replies (suc past)) replies past (suc left + past) code error
      (try_from replies left (suc past)) refl (omega arith) a
      (λ c e more.
        subst (λ n. IsTried replies n (try_from replies left (suc past) c e)) (omega arith)
          (try_from-IsTried replies left (suc past) c e (ground (arith, a, more)) (omega arith)))

-- A delivery is tried until an attempt is answered with 2xx or with a client error other than 429, or
-- the attempts are as many as allowed; all attempts before the last one failed and called for another;
-- and it counts as a success exactly if the last one was answered with 2xx.
pub deliver-IsTried :
    (replies : ℕ → Reply) (c : Settings) → IsTried replies (retries c) (deliver replies (retries c))
unfolding deliver
deliver-IsTried replies c =
    subst (λ n. IsTried replies n (try_from replies (retries c) 0 none none)) (omega arith)
      (try_from-IsTried replies (retries c) 0 none none refl (ground arith))
