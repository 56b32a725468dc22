-- ===== src/Bridge/Service/Totality.antt =====
-- Where the corroboration cannot raise.
use odis.Bridge.Service.{
  corroborate, list_by_asset_in_time_range, ValidatedAlertTransition, corroboration_window_seconds,
  corroboration_sample_limit, assess_transition,
}
use odis.Bridge.Service.Fetch.{IsOf, fetch-lem, check_signal-ok}
use odis.Bridge.Corroboration.{
  trend, corroborate_cooling_degradation, corroborate_hydrogen_supply_issue,
  corroborate_sensor_anomaly, related_trends,
}
use odis.Bridge.Mapping.{
  FaultClassMapping, is_supported_fault_class, supported-mapping, lookup_mapping,
}
use odis.Engine.Trend
use odis.Engine.Observation.{Floats, Observation}
use odis.Prelude.{
  Option, some, String, ◌≡◌, refl, none, List, arith, ltb, length, All, ap, ◌∙◌, Bool, true, false,
  [], if◌then◌else◌, ◌-◌, ◌==◌, All-map,
}
use odis.Bridge.Corroboration.Notes.{
  HasNotes, cooling_rules-HasNotes, hydrogen_rules-HasNotes, sensor_rules-HasNotes,
}
use odis.Bridge.Recommendation.{build_recommendation-returns}
use odis.Bridge.Types.{CorroborationOutcome, FaultRecommendation}
use odis.Prelude.Text.{concat, concat-given}
use odis.Prelude.Result.{Result, ok, ◌>>=◌, Gives, Gives-if, Gives->>=}
use odis.Bridge.Lifecycle.{InvestigationDecision, is_clearing}

-- The computation returns.
abbrev pub Returns {ℓ} : {A : Type ℓ} → Result A → Type ℓ
Returns {A} m = (a : A) × (m ≡ ok a)

pub Returns->>= {ℓ κ} :
    {A : Type ℓ} {B : Type κ} {m : Result A} {f : A → Result B}
    → Returns m
    → ((a : A) → Returns (f a))
    → Returns (m >>= f)
Returns->>= {f} (a, e) g = let (b, d) = g a in (b, ap (λ x. x >>= f) e ∙ d)

-- A recommendation has a summary.
abbrev pub HasSummary : Option FaultRecommendation → Type 0
HasSummary none = Unit
HasSummary (some r) = (r.action_summary == "") ≡ false

-- The outcome has notes, and the recommendation, where there is one, a summary.
abbrev pub IsTold : CorroborationOutcome × Option FaultRecommendation → Type 0
IsTold (corroboration, recommendation) = HasNotes corroboration × HasSummary recommendation

-- `m` is a value returned, by each of the branches.
Returns-if {ℓ} :
    {A : Type ℓ} (b : Bool) {m n : Result A}
    → (b ≡ true → Returns m)
    → (b ≡ false → Returns n)
    → Returns (if b then m else n)
Returns-if true f g = f refl
Returns-if false f g = g refl

-- A chain behind a call that gives a value with `P` returns where the rest does.
pub Gives-Returns {ℓ} :
    {A : Type 0} {B : Type ℓ} {m : Result A} {f : A → Result B} (P : A → Type 0)
    → Gives P m
    → ((a : A) → P a → Returns (f a))
    → Returns (m >>= f)
Gives-Returns {f} P (a, e, p) g = let (b, d) = g a p in (b, ap (λ x. x >>= f) e ∙ d)

-- A chain behind a call that returns gives what the rest gives.
behind {ℓ} :
    {A : Type ℓ} {B : Type 0} {m : Result A} {f : A → Result B} (P : B → Type 0)
    → Returns m
    → ((a : A) → Gives P (f a))
    → Gives P (m >>= f)
behind {f} P (a, e) g = let (b, d, p) = g a in (b, ap (λ x. x >>= f) e ∙ d, p)

module _ (floats : Floats) where
  open floats use {Value}

  trend-Returns :
      (asset measurement : String) (os : List (Observation Value))
      → All (IsOf asset measurement) os
      → Returns (trend floats os)
  unfolding trend Trend.detect
  trend-Returns asset measurement os hs =
      Returns-if (ltb (length os) 4) (λ e. (none, refl))
        (λ long.
          Returns->>=
            (Returns->>= (check_signal-ok asset measurement os hs (ground (arith, long)))
              (λ o. (_, refl)))
            (λ t. (_, refl)))

  sensor-Gives :
      (asset : String) (a b c d : List (Observation Value))
      → All (IsOf asset "stack_temperature") a
      → All (IsOf asset "current") b
      → All (IsOf asset "voltage") c
      → All (IsOf asset "fuel_flow") d
      → Gives HasNotes (corroborate_sensor_anomaly floats a b c d)
  unfolding corroborate_sensor_anomaly related_trends
  sensor-Gives asset a b c d ha hb hc hd =
      behind HasNotes (trend-Returns asset "stack_temperature" a ha)
        (λ t. behind HasNotes (related _) (λ r. (_, refl, sensor_rules-HasNotes t r _)))
    where
      related : (x : Bool) → Returns (related_trends floats x b c d)
      related false = ([], refl)
      related true = Returns->>= (trend-Returns asset "current" b hb) (λ t1.
          Returns->>= (trend-Returns asset "voltage" c hc)
            (λ t2. Returns->>= (trend-Returns asset "fuel_flow" d hd) (λ t3. (_, refl))))

  -- The corroboration of a supported class returns, with notes, whatever has been observed.
  pub corroborate-Gives :
      (id_before : String → String → Bool) (observations : List (Observation Value))
      (event : ValidatedAlertTransition) (mapping : FaultClassMapping)
      → is_supported_fault_class mapping.fault_class ≡ true
      → Gives HasNotes (corroborate floats id_before observations event mapping)
  unfolding corroborate corroborate_cooling_degradation corroborate_hydrogen_supply_issue
      is_supported_fault_class lookup_mapping
  corroborate-Gives id_before observations event mapping supported =
      let a = event.asset_id in
      let rows = λ (m : String). fetched m in
      Gives-if HasNotes (c == "cooling_degradation")
        (λ _.
          behind HasNotes (trend-Returns a "stack_temperature" _ (rows "stack_temperature")) (λ t1.
            behind HasNotes (trend-Returns a "coolant_flow" _ (rows "coolant_flow"))
              (λ t2. (_, refl, cooling_rules-HasNotes t1 t2 _))))
        (λ e1.
          Gives-if HasNotes (c == "hydrogen_supply_issue")
            (λ _. behind HasNotes (trend-Returns a "fuel_flow" _ (rows "fuel_flow")) (λ t1.
              behind HasNotes (trend-Returns a "voltage" _ (rows "voltage"))
                (λ t2. (_, refl, hydrogen_rules-HasNotes t1 t2 _))))
            (λ e2.
              Gives-if HasNotes (c == "sensor_anomaly")
                (λ _.
                  sensor-Gives a _ _ _ _ (rows "stack_temperature") (rows "current")
                    (rows "voltage") (rows "fuel_flow"))
                (λ e3. absurd (ground (arith, supported, e1, e2, e3)))))
    where
      c : String
      c = mapping.fault_class

      fetched :
          (m : String)
          → All (IsOf event.asset_id m) (
              list_by_asset_in_time_range id_before event.asset_id
                (event.source_timestamp - corroboration_window_seconds)
                event.source_timestamp
                m
                corroboration_sample_limit
                observations)
      fetched m =
          All-map (λ o h. h.0) _
            (fetch-lem id_before event.asset_id
              (event.source_timestamp - corroboration_window_seconds) event.source_timestamp m
              corroboration_sample_limit observations).1

  pub assess_transition-Gives :
      (id_before : String → String → Bool) (observations : List (Observation Value))
      (event : ValidatedAlertTransition) (decision : InvestigationDecision)
      → is_supported_fault_class event.fault_class ≡ true
      → Gives IsTold (assess_transition floats id_before observations event decision)
  unfolding assess_transition
  assess_transition-Gives id_before observations event decision supported =
      let (mapping, found, same) = supported-mapping event.fault_class supported in
      Gives-if IsTold (is_clearing event.transition_type) (λ _. (_, refl, (refl, tt)))
        (λ _. rw found (
          Gives->>= HasNotes IsTold _
            (corroborate-Gives id_before observations event mapping
              (ap is_supported_fault_class same ∙ supported))
            (λ o noted.
              let (built, summary) =
                build_recommendation-returns
                  (concat "ai-fault-rec-"
                    (concat decision.investigation_id (concat "-" event.event_id)))
                  mapping event.transition_type o (concat-given "ai-fault-rec-" _ refl) noted in
              Gives->>= (λ r. (r.action_summary == "") ≡ false) IsTold _ (_, built, summary)
                (λ r told. (_, refl, (noted, told))))))
