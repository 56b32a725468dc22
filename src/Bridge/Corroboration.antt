-- ===== src/Bridge/Corroboration.antt =====
-- backend/app/application/reasoning_bridge/corroboration.py: the deterministic rules. `_trend`
-- returns the trend of the application's `TrendDetector`, or none below four observations.
pub mod Notes
use odis.Bridge.Types.{
  CorroborationOutcome, CorroborationResult, corroborated, partially_corroborated, not_corroborated,
  insufficient_evidence,
}
use odis.Engine.Trend
use odis.Engine.Observation.{Floats, Observation, TrendDirection, increasing, stable, decreasing}
use odis.Prelude.{
  ℕ, String, Bool, true, false, not, Option, none, some, List, [], ◌∷◌, ◌++◌, ◌==◌, ltb, eqb,
  if◌then◌else◌, length, keep, any, is_empty,
}
use odis.Prelude.Result.{Result, ok, ◌>>=◌}
use odis.Prelude.Text.{concat}

abbrev pub min_observations_for_trend : ℕ
min_observations_for_trend = 4

abbrev pub direction_value : TrendDirection → String
direction_value increasing = "increasing"
direction_value stable = "stable"
direction_value decreasing = "decreasing"

abbrev outcome : CorroborationResult → List String → String → List String → CorroborationOutcome
outcome result rule_ids notes ids = record {
  result = result;
  rule_ids = rule_ids;
  notes = notes;
  supporting_observation_ids = ids;
}

abbrev member : String → List String → Bool
member id seen = any (λ (s : String). s == id) seen

-- `_ids`: the ids of all the groups in order, each once.
unfoldable pub ids_after : {Value : Type 0} → List String → List (Observation Value) → List String
ids_after seen [] = seen
ids_after seen (o ∷ os) = ids_after (if member o.id seen then seen else seen ++ (o.id ∷ [])) os

abbrev is_increasing_trend : TrendDirection → Bool
is_increasing_trend increasing = true
is_increasing_trend _ = false

abbrev is_decreasing_trend : TrendDirection → Bool
is_decreasing_trend decreasing = true
is_decreasing_trend _ = false

abbrev pub has_moved : TrendDirection → Bool
has_moved stable = false
has_moved _ = true

abbrev no_history : String → String → List String → CorroborationOutcome
no_history rule_id measurement ids =
    outcome insufficient_evidence (rule_id ∷ [])
      (concat "Not enough " (concat measurement " history to corroborate or refute.")) ids

-- The rules of `corroborate_cooling_degradation`, from the two trends and the ids.
unfoldable pub cooling_rules :
    Option TrendDirection → Option TrendDirection → List String → CorroborationOutcome
cooling_rules none coolant ids =
    no_history "cooling_degradation.insufficient_stack_temperature_history" "stack_temperature" ids
cooling_rules (some temperature) coolant ids =
    if not (is_increasing_trend temperature)
    then outcome not_corroborated ("cooling_degradation.stack_temperature_not_increasing" ∷ [])
        (concat "stack_temperature trend is "
          (concat (direction_value temperature) ", not increasing."))
        ids
    else elim coolant [
      | none ↦
          outcome partially_corroborated
            ("cooling_degradation.stack_temperature_increasing"
              ∷ "cooling_degradation.insufficient_coolant_flow_history" ∷ [])
            "stack_temperature is increasing, but coolant_flow history is insufficient to assess whether cooling is compensating."
            ids
      | some increasing ↦
          outcome not_corroborated
            ("cooling_degradation.stack_temperature_increasing"
              ∷ "cooling_degradation.coolant_flow_increasing_contradicts" ∷ [])
            "coolant_flow is increasing alongside stack_temperature, consistent with active compensation rather than degradation."
            ids
      | some stable ↦
          outcome partially_corroborated
            ("cooling_degradation.stack_temperature_increasing"
              ∷ "cooling_degradation.coolant_flow_stable" ∷ [])
            "stack_temperature is increasing while coolant_flow is stable — consistent with, but not conclusive for, cooling degradation."
            ids
      | some decreasing ↦
          outcome corroborated
            ("cooling_degradation.stack_temperature_increasing"
              ∷ "cooling_degradation.coolant_flow_decreasing" ∷ [])
            "stack_temperature is increasing while coolant_flow is decreasing — cooling capacity is not compensating for the rising temperature."
            ids
    ]

-- The rules of `corroborate_hydrogen_supply_issue`.
unfoldable pub hydrogen_rules :
    Option TrendDirection → Option TrendDirection → List String → CorroborationOutcome
hydrogen_rules none voltage ids =
    no_history "hydrogen_supply_issue.insufficient_fuel_flow_history" "fuel_flow" ids
hydrogen_rules (some fuel_flow) voltage ids =
    if not (is_decreasing_trend fuel_flow)
    then outcome not_corroborated ("hydrogen_supply_issue.fuel_flow_not_decreasing" ∷ [])
        (concat "fuel_flow trend is " (concat (direction_value fuel_flow) ", not decreasing.")) ids
    else elim voltage [
      | none ↦
          outcome partially_corroborated
            ("hydrogen_supply_issue.fuel_flow_decreasing"
              ∷ "hydrogen_supply_issue.insufficient_voltage_history" ∷ [])
            "fuel_flow is decreasing, but voltage history is insufficient to assess whether the response is consistent with starvation."
            ids
      | some v ↦
          if not (is_decreasing_trend v)
          then outcome partially_corroborated
              ("hydrogen_supply_issue.fuel_flow_decreasing"
                ∷ "hydrogen_supply_issue.voltage_not_decreasing" ∷ [])
              "fuel_flow is decreasing but voltage is not — consistent with a commanded load reduction rather than a supply issue alone."
              ids
          else outcome corroborated
              ("hydrogen_supply_issue.fuel_flow_decreasing"
                ∷ "hydrogen_supply_issue.voltage_decreasing" ∷ [])
              "fuel_flow and voltage are both decreasing, consistent with hydrogen starvation rather than a load change alone."
              ids
    ]

abbrev has_shifted : Option TrendDirection → Bool
has_shifted none = false
has_shifted (some t) = has_moved t

-- `[t for t in related_trends if t is not None]`
abbrev pub known : List (Option TrendDirection) → List TrendDirection
known [] = []
known (none ∷ ts) = known ts
known (some t ∷ ts) = t ∷ known ts

-- `sum(1 for t in known_related_trends if t is not TrendDirection.STABLE)`
abbrev pub moved : List TrendDirection → ℕ
moved ts = length (keep has_moved ts)

-- The rules of `corroborate_sensor_anomaly`.
unfoldable pub sensor_rules :
    Option TrendDirection → List (Option TrendDirection) → List String → CorroborationOutcome
sensor_rules none related ids =
    no_history "sensor_anomaly.insufficient_stack_temperature_history" "stack_temperature" ids
sensor_rules (some temperature) related ids =
    let known_related = known related in
    if not (has_moved temperature)
    then outcome not_corroborated ("sensor_anomaly.stack_temperature_stable" ∷ [])
        "stack_temperature shows no shift, so there is nothing for a sensor anomaly to explain." ids
    else if is_empty known_related
    then outcome partially_corroborated ("sensor_anomaly.stack_temperature_shifted" ∷ [])
        "stack_temperature shows a shift, but there is not enough history on the related signals to confirm physical inconsistency."
        ids
    else if eqb (moved known_related) 0
    then outcome corroborated
        ("sensor_anomaly.stack_temperature_shifted" ∷ "sensor_anomaly.related_signals_stable" ∷ [])
        "stack_temperature shifted while current, voltage, and fuel_flow all remained stable — physically inconsistent with a real thermal event."
        ids
    else if eqb (moved known_related) (length known_related)
    then outcome not_corroborated
        ("sensor_anomaly.stack_temperature_shifted" ∷ "sensor_anomaly.related_signals_also_shifted"
          ∷ [])
        "stack_temperature shifted alongside every related signal — physically consistent with a real event, not a sensor anomaly."
        ids
    else outcome partially_corroborated
        ("sensor_anomaly.stack_temperature_shifted"
          ∷ "sensor_anomaly.related_signals_partially_shifted" ∷ [])
        "stack_temperature shifted while only some related signals moved — ambiguous between a sensor anomaly and a real event."
        ids

module _ (floats : Floats) where
  open floats use {Value}

  -- `_trend`
  unfoldable pub trend : List (Observation Value) → Result (Option TrendDirection)
  trend observations =
      if ltb (length observations) min_observations_for_trend
      then ok none
      else (do t ← Trend.detect floats observations; ok (some t.direction))

  unfoldable pub corroborate_cooling_degradation :
      List (Observation Value) → List (Observation Value) → Result CorroborationOutcome
  unfolding trend cooling_rules ids_after
  corroborate_cooling_degradation stack_temperature coolant_flow = do
    temperature_trend ← trend stack_temperature
    coolant_trend ← trend coolant_flow
    ok (
        cooling_rules temperature_trend coolant_trend
          (ids_after (ids_after [] stack_temperature) coolant_flow))

  unfoldable pub corroborate_hydrogen_supply_issue :
      List (Observation Value) → List (Observation Value) → Result CorroborationOutcome
  unfolding trend hydrogen_rules ids_after
  corroborate_hydrogen_supply_issue fuel_flow voltage = do
    fuel_flow_trend ← trend fuel_flow
    voltage_trend ← trend voltage
    ok (hydrogen_rules fuel_flow_trend voltage_trend (ids_after (ids_after [] fuel_flow) voltage))

  -- The trends of the related signals, which are read only after a shift of the temperature.
  unfoldable pub related_trends :
      Bool
      → List (Observation Value)
      → List (Observation Value)
      → List (Observation Value)
      → Result (List (Option TrendDirection))
  unfolding trend
  related_trends false current voltage fuel_flow = ok []
  related_trends true current voltage fuel_flow = do
    current_trend ← trend current
    voltage_trend ← trend voltage
    fuel_flow_trend ← trend fuel_flow
    ok (current_trend ∷ voltage_trend ∷ fuel_flow_trend ∷ [])

  unfoldable pub corroborate_sensor_anomaly :
      List (Observation Value)
      → List (Observation Value)
      → List (Observation Value)
      → List (Observation Value)
      → Result CorroborationOutcome
  unfolding trend sensor_rules ids_after related_trends
  corroborate_sensor_anomaly stack_temperature current voltage fuel_flow = do
    temperature_trend ← trend stack_temperature
    related ← related_trends (has_shifted temperature_trend) current voltage fuel_flow
    ok (
        sensor_rules temperature_trend related (
          ids_after (ids_after (ids_after (ids_after [] stack_temperature) current) voltage)
            fuel_flow))
