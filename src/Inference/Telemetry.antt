-- ===== src/Inference/Telemetry.antt =====
-- backend/simulator/inference/telemetry.py: the canonical measurements and the check of one sample, over
-- the checks of domain/entities/observation.py. `Readings` stands for doubles, with `math.isfinite` and
-- equality.
pub mod Totality
use odis.Engine.Observation.{Observation}
use odis.Prelude.Dict.{lookup, has_key}
use odis.Prelude.{
  ℕ, String, Bool, not, ◌||◌, List, [], ◌∷◌, ◌++◌, ◌==◌, eqb, if◌then◌else◌, keep, all, is_empty,
}
use odis.Prelude.Result.{
  Result, err, ok, value_error, ◌>>=◌, or_raise, ◌>>◌, raise_if, unsupported_measurement,
  duplicate_measurement, inconsistent_sample, unit_mismatch, missing_measurement, non_finite_value,
}

pub record Readings : Type 1 where
  pub Value : Type 0
  pub isfinite : Value → Bool
  pub equal : Value → Value → Bool

abbrev pub canonical_units : List (String × String)
canonical_units =
    ("stack_temperature", "celsius")
    ∷ ("stack_pressure", "kPa")
    ∷ ("current", "A")
    ∷ ("voltage", "V")
    ∷ ("fuel_flow", "SLPM")
    ∷ ("power_output", "kW")
    ∷ ("efficiency", "percent")
    ∷ ("coolant_flow", "L/min")
    ∷ []

abbrev pub required_measurements : List String
required_measurements =
    "stack_temperature" ∷ "stack_pressure" ∷ "current" ∷ "voltage" ∷ "fuel_flow" ∷ "power_output"
    ∷ "coolant_flow" ∷ []

pub record TelemetrySample (Value : Type 0) : Type 0 where
  pub asset_id : String
  pub timestamp : ℕ
  pub values : List (String × Value)
  pub units : List (String × String)

-- The names of `names` that a dictionary lacks.
abbrev pub missing_of {ℓ} : {V : Type ℓ} → List String → List (String × V) → List String
missing_of names values = keep (λ name. not (has_key ◌==◌ name values)) names

module _ (readings : Readings) where
  open readings use {Value, isfinite}

  -- `Observation(...)` with the checks of `__post_init__`
  unfoldable pub observation :
      String → String → ℕ → String → Value → String → Result (Observation Value)
  observation id asset_id timestamp name value unit =
      if (id == "") || (asset_id == "") || (name == "") || (unit == "")
      then err value_error
      else ok (record {
        id = id;
        asset_id = asset_id;
        timestamp = timestamp;
        measurement_type = name;
        value = value;
        unit = unit;
      })

  -- The loop of `from_observations`.
  unfoldable pub collect :
      List (Observation Value)
      → List (String × Value)
      → List (String × String)
      → Result (List (String × Value) × List (String × String))
  collect [] values units = ok (values, units)
  collect (o ∷ os) values units = do
    expected_unit ←
        or_raise (lookup ◌==◌ o.measurement_type canonical_units) unsupported_measurement
    raise_if (has_key ◌==◌ o.measurement_type values) duplicate_measurement
    raise_if (not (o.unit == expected_unit)) unit_mismatch
    raise_if (not (isfinite o.value)) non_finite_value
    collect os (values ++ ((o.measurement_type, o.value) ∷ []))
        (units ++ ((o.measurement_type, o.unit) ∷ []))

  unfoldable pub from_observations : List (Observation Value) → Result (TelemetrySample Value)
  unfolding collect
  from_observations [] = err value_error
  from_observations (o ∷ os) = do
    raise_if (not (all (λ p. p.asset_id == o.asset_id) os)) inconsistent_sample
    raise_if (not (all (λ p. eqb p.timestamp o.timestamp) os)) inconsistent_sample
    (values, units) ← collect (o ∷ os) [] []
    raise_if (not (is_empty (missing_of required_measurements values))) missing_measurement
    ok (record { asset_id = o.asset_id; timestamp = o.timestamp; values = values; units = units })
