-- ===== src/Bridge/Publish.antt =====
-- backend/app/infrastructure/reasoning_bridge/kafka_io.py, `publish_with_retry`: `attempts i` says
-- whether the i-th send to the broker succeeds. The loop runs on `fuel`; where that runs out it answers
-- nothing, which stands for a loop that is still running.
use odis.Prelude.{
  ℕ, zero, suc, ◌+◌, ◌≤◌, ◌<◌, ◌≡◌, refl, ◌↔◌, Bool, true, false, Option, none, some, arith, ltb,
  if◌then◌else◌, inl, inr, Bool-cases,
}

unfoldable pub publish_loop : ℕ → ℕ → (ℕ → Bool) → ℕ → Option Bool
publish_loop zero max_retries attempts attempt = none
publish_loop (suc fuel) max_retries attempts attempt =
    let again = publish_loop fuel max_retries attempts (suc attempt) in
    if attempts attempt
    then some true
    else if ltb max_retries (suc attempt)
    then some false
    else again

abbrev answer : Option Bool → Bool
answer none = false
answer (some b) = b

-- The loop on enough fuel, which `publish_loop_iff` says it is.
unfoldable pub publish_with_retry : ℕ → (ℕ → Bool) → Bool
unfolding publish_loop
publish_with_retry max_retries attempts =
    answer (publish_loop (suc max_retries) max_retries attempts 0)

-- Whether one of the sends from `attempt` on, up to the last of `max_retries + 1`, succeeds.
abbrev Succeeds : ℕ → (ℕ → Bool) → ℕ → Type 0
Succeeds max_retries attempts attempt =
    (i : ℕ) × (attempt ≤ i) × (i ≤ max_retries) × (attempts i ≡ true)

Answers : ℕ → (ℕ → Bool) → ℕ → Option Bool → Type 0
Answers max_retries attempts attempt r =
    (b : Bool) × (r ≡ some b) × ((b ≡ true) ↔ Succeeds max_retries attempts attempt)

publish_loop-Answers :
    (fuel max_retries : ℕ) (attempts : ℕ → Bool) (attempt : ℕ)
    → max_retries < attempt + fuel
    → attempt ≤ max_retries
    → Answers max_retries attempts attempt (publish_loop fuel max_retries attempts attempt)
unfolding publish_loop Answers
publish_loop-Answers zero max_retries attempts attempt h l = absurd (omega (arith, h, l))
publish_loop-Answers (suc fuel) max_retries attempts attempt h l =
    elim (Bool-cases (attempts attempt)) [
      | inl e ↦ rw e (true, refl, (λ _. (attempt, omega arith, l, e), λ _. refl))
      | inr e ↦ elim (Bool-cases (ltb max_retries (suc attempt))) [
        | inl last ↦
            rw (e, last)
              (
                false,
                refl,
                (
                  λ (x : false ≡ true). cc,
                  λ (i, a, b, s). absurd (ground (arith, e, s, last, a, b)),
                ),
              )
        | inr more ↦
            let (b, same, (there, back)) =
              publish_loop-Answers fuel max_retries attempts (suc attempt) (omega (arith, h))
                (ground (arith, more)) in
            rw (e, more)
              (
                b,
                same,
                (
                  λ x. (let (i, a, b, s) = there x in (i, omega (arith, a), b, s)),
                  λ (i, a, b, s). back (i, grind arith, b, s),
                ),
              )
      ]
    ]

-- On every amount of fuel above `max_retries` the loop ends, and its answer says whether one of the first
-- `max_retries + 1` sends succeeds.
pub publish_loop_iff :
    (max_retries : ℕ) (attempts : ℕ → Bool) (fuel : ℕ)
    → max_retries < fuel
    → (b : Bool) × (publish_loop fuel max_retries attempts 0 ≡ some b)
      × ((b ≡ true) ↔ ((i : ℕ) × (i ≤ max_retries) × (attempts i ≡ true)))
unfolding Answers
publish_loop_iff max_retries attempts fuel h =
    let (b, same, (there, back)) =
      publish_loop-Answers fuel max_retries attempts 0 (omega (arith, h)) (omega arith) in
    (
      b,
      same,
      (λ e. (let (i, _, l, s) = there e in (i, l, s)), λ (i, l, s). back (i, omega arith, l, s)),
    )

-- A result is published exactly where one of the first `max_retries + 1` sends succeeds.
pub publish_with_retry_iff :
    (max_retries : ℕ) (attempts : ℕ → Bool)
    → (publish_with_retry max_retries attempts ≡ true)
      ↔ ((i : ℕ) × (i ≤ max_retries) × (attempts i ≡ true))
unfolding publish_with_retry
publish_with_retry_iff max_retries attempts =
    let (b, same, (there, back)) =
      publish_loop_iff max_retries attempts (suc max_retries) (omega arith) in
    rw same (there, back)
