-- ===== src/Bridge/Mapping.antt =====
-- backend/app/application/reasoning_bridge/fault_class_mapping.py: what the bridge knows about each
-- fault class.
use odis.Prelude.{
  String, Option, none, some, List, [], ◌∷◌, ◌==◌, if◌then◌else◌, ◌≡◌, Bool, true, false, refl, inl,
  inr, arith, eq_iff, Option-cases,
}
use odis.Prelude.Result.{Result, key_error, or_raise, ok}

pub record FaultClassMapping : Type 0 where
  pub fault_class : String
  pub situation_type : String
  pub relevant_measurements : List String
  pub operator_impact : String
  pub allowed_categories : List String
  pub recommended_steps : List String
  pub verification_steps : List String

abbrev pub cooling_degradation_mapping : FaultClassMapping
cooling_degradation_mapping = record {
  fault_class = "cooling_degradation";
  situation_type = "cooling_system_degradation";
  relevant_measurements = "stack_temperature" ∷ "coolant_flow" ∷ "current" ∷ [];
  operator_impact =
      "Reduced cooling capacity risks accelerated stack degradation and an eventual forced load reduction or shutdown if unaddressed.";
  allowed_categories = "investigate" ∷ "monitor" ∷ [];
  recommended_steps =
      "Inspect the coolant loop for restrictions, leaks, or pump issues."
      ∷ "Verify the coolant-flow sensor against a manual or redundant reading."
      ∷ "Schedule a maintenance inspection of the cooling subsystem."
      ∷ "Reduce load only if deterministic operating thresholds support it." ∷ [];
  verification_steps =
      "Cross-check stack temperature against a secondary sensor if available."
      ∷ "Confirm coolant-flow readings are physically plausible before acting." ∷ [];
}

abbrev pub hydrogen_supply_issue_mapping : FaultClassMapping
hydrogen_supply_issue_mapping = record {
  fault_class = "hydrogen_supply_issue";
  situation_type = "hydrogen_supply_degradation";
  relevant_measurements = "fuel_flow" ∷ "voltage" ∷ "current" ∷ "power_output" ∷ [];
  operator_impact =
      "Reduced hydrogen supply risks stack starvation, voltage instability, and lost power output if unaddressed.";
  allowed_categories = "investigate" ∷ "monitor" ∷ [];
  recommended_steps =
      "Inspect the hydrogen supply path for restrictions or leaks."
      ∷ "Check regulator/valve pressure against the expected setpoint."
      ∷ "Verify fuel-flow instrumentation against a redundant reading."
      ∷ "Reduce load or isolate the stack only if deterministic rules support it." ∷ [];
  verification_steps =
      "Confirm the fuel-flow drop is not attributable to a commanded load reduction before treating it as a supply issue."
      ∷ [];
}

abbrev pub sensor_anomaly_mapping : FaultClassMapping
sensor_anomaly_mapping = record {
  fault_class = "sensor_anomaly";
  situation_type = "sensor_reading_anomaly";
  relevant_measurements = "stack_temperature" ∷ "current" ∷ "voltage" ∷ "fuel_flow" ∷ [];
  operator_impact =
      "A faulty sensor risks masking a real fault or triggering false alarms; it is not itself an operational safety event.";
  allowed_categories = "investigate" ∷ "monitor" ∷ [];
  recommended_steps =
      "Compare the suspect measurement against a redundant or manual reading before taking any other action."
      ∷ "Inspect sensor wiring, connections, and calibration." ∷ [];
  verification_steps =
      "Do not intervene in the plant based solely on the suspect sensor's own reading." ∷ [];
}

-- `FAULT_CLASS_MAPPINGS.get(fault_class)`
unfoldable pub lookup_mapping : String → Option FaultClassMapping
lookup_mapping fault_class =
    if fault_class == "cooling_degradation"
    then some cooling_degradation_mapping
    else if fault_class == "hydrogen_supply_issue"
    then some hydrogen_supply_issue_mapping
    else if fault_class == "sensor_anomaly"
    then some sensor_anomaly_mapping
    else none

unfoldable pub is_supported_fault_class : String → Bool
unfolding lookup_mapping
is_supported_fault_class fault_class = elim (lookup_mapping fault_class) [
  | none ↦ false
  | some _ ↦ true
]

unfoldable pub get_fault_class_mapping : String → Result FaultClassMapping
unfolding lookup_mapping
get_fault_class_mapping fault_class = or_raise (lookup_mapping fault_class) key_error

pub lookup_mapping-class :
    (c : String) (m : FaultClassMapping) → lookup_mapping c ≡ some m → m.fault_class ≡ c
unfolding lookup_mapping
lookup_mapping-class c m h = grind (
  arith,
  eq_iff c "cooling_degradation",
  eq_iff c "hydrogen_supply_issue",
  eq_iff c "sensor_anomaly",
)

-- A supported class has a mapping, which is the mapping of that class.
pub supported-mapping :
    (c : String)
    → is_supported_fault_class c ≡ true
    → (m : FaultClassMapping) × (get_fault_class_mapping c ≡ ok m) × (m.fault_class ≡ c)
unfolding is_supported_fault_class get_fault_class_mapping
supported-mapping c h = elim (Option-cases (lookup_mapping c)) [
  | inl e ↦ cc
  | inr (m, e) ↦ (m, rw e refl, lookup_mapping-class c m e)
]
