-- ===== src/Bridge/Service/Fetch.antt =====
-- What the fetch for corroboration reads.
use odis.Bridge.Service.{
  list_by_asset_in_time_range, insert_observation, order_observations, is_selected, precedes,
}
use odis.Engine.Observation.{Observation, check_signal, is_same_signal}
use odis.Prelude.{
  ℕ, zero, suc, ◌≤◌, String, ◌≡◌, inl, inr, Bool, true, List, [], ◌∷◌, Bool-cases, length, keep,
  take, All, refl, sym, ◌∙◌, arith, eq_iff, all, length-take,
}
use odis.Prelude.Result.{ok}

module _ {Value : Type 0} (P : Observation Value → Type 0)
    (id_before : String → String → Bool) where
  All-insert :
      (o : Observation Value) (os : List (Observation Value))
      → P o
      → All P os
      → All P (insert_observation id_before o os)
  All-insert o [] h hs = (h, tt)
  All-insert o (p ∷ ps) h hs =
      elim (Bool-cases (precedes id_before p.timestamp p.id o.timestamp o.id)) [
        | inl e ↦ rw e (hs.0, All-insert o ps h hs.1)
        | inr e ↦ rw e (h, hs)
      ]

  pub All-order :
      (os : List (Observation Value)) → All P os → All P (order_observations id_before os)
  All-order [] hs = tt
  All-order (o ∷ os) hs = All-insert o (order_observations id_before os) hs.0 (All-order os hs.1)

  pub All-take : (n : ℕ) (os : List (Observation Value)) → All P os → All P (take n os)
  All-take zero os hs = tt
  All-take (suc n) [] hs = tt
  All-take (suc n) (o ∷ os) hs = (hs.0, All-take n os hs.1)

  pub All-keep :
      (p : Observation Value → Bool) (os : List (Observation Value))
      → ((o : Observation Value) → p o ≡ true → P o)
      → All P (keep p os)
  All-keep p [] h = tt
  All-keep p (o ∷ os) h = elim (Bool-cases (p o)) [
    | inl e ↦ rw e (h o e, All-keep p os h)
    | inr e ↦ rw e (All-keep p os h)
  ]

-- The observation is of the asset and of the type.
abbrev pub IsOf : {Value : Type 0} → String → String → Observation Value → Type 0
IsOf asset measurement o = (o.asset_id ≡ asset) × (o.measurement_type ≡ measurement)

-- The fetch returns at most `limit` observations, each of the asset, of the type and in the window.
pub fetch-lem :
    {Value : Type 0} (id_before : String → String → Bool) (asset : String) (start end : ℕ)
    (measurement : String) (limit : ℕ) (os : List (Observation Value))
    → let fetched = list_by_asset_in_time_range id_before asset start end measurement limit os in
      (length fetched ≤ limit)
      × All
          (λ (o : Observation Value).
            IsOf asset measurement o × (start ≤ o.timestamp) × (o.timestamp ≤ end))
          fetched
unfolding list_by_asset_in_time_range
fetch-lem id_before asset start end measurement limit os = (
  length-take limit _,
  All-take _ id_before limit _ (
      All-order _ id_before _ (
        All-keep _ id_before (is_selected id_before asset start end measurement) os (λ o h.
          ground (arith, h, eq_iff o.asset_id asset, eq_iff o.measurement_type measurement)))),
)

all-same :
    {Value : Type 0} (asset measurement : String) (o : Observation Value)
    (os : List (Observation Value))
    → IsOf asset measurement o
    → All (IsOf asset measurement) os
    → all (is_same_signal o) os ≡ true
all-same asset measurement o [] h hs = refl
all-same asset measurement o (p ∷ ps) h hs =
    let same_asset = (eq_iff p.asset_id o.asset_id).1 (hs.0.0 ∙ sym h.0) in
    let same_type = (eq_iff p.measurement_type o.measurement_type).1 (hs.0.1 ∙ sym h.1) in
    rw (same_asset, same_type) (all-same asset measurement o ps h hs.1)

-- Two observations or more of one asset and type pass the detectors' checks.
pub check_signal-ok :
    {Value : Type 0} (asset measurement : String) (os : List (Observation Value))
    → All (IsOf asset measurement) os
    → 2 ≤ length os
    → (o : Observation Value) × (check_signal os ≡ ok o)
unfolding check_signal
check_signal-ok asset measurement [] hs h = absurd (omega arith)
check_signal-ok asset measurement (o ∷ []) hs h = absurd (omega arith)
check_signal-ok asset measurement (o ∷ p ∷ ps) hs h =
    (o, rw (all-same asset measurement o (p ∷ ps) hs.0 hs.1) refl)
