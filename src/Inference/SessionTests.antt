-- ===== src/Inference/SessionTests.antt =====
-- A session at its twelfth sample, with scores in hundredths.
use odis.AlertPolicy.State.{Scores, StateMachineConfig, fresh}
use odis.Inference.Telemetry.{TelemetrySample}
use odis.Inference.Session.{FaultInferenceSession, History, PromotedFaultSystem}
use odis.Prelude.{ℕ, ◌-◌, String, some, List, [], ◌∷◌, ltb, leb, if◌then◌else◌, replicate}
use odis.Prelude.Result.{ok}

-- The position of the greater of two scores.
abbrev pub top : List ℕ → ℕ
top (x ∷ y ∷ scores) = if ltb x y then 1 else 0
top _ = 0

abbrev pub hundredths : Scores
hundredths = record { Score = ℕ; ge = λ a b. leb b a; argmax = top }

abbrev pub policy : StateMachineConfig ℕ
policy = record {
  entry_probability = 70;
  entry_persistence = 1;
  healthy_exit_probability = 60;
  exit_persistence = 1;
}

abbrev pub classes : List String
classes = "healthy" ∷ "cooling_degradation" ∷ []

-- Every feature row is sufficient, and its temperature decides.
abbrev pub promoted : PromotedFaultSystem ℕ ℕ
promoted = record {
  Features = ℕ;
  compute_feature_row = λ current previous history i. ok (some 90);
  predict_proba = λ features. (100 - features) ∷ (features ∷ []);
  class_order = classes;
  alert_policy_config = policy;
  zero_score = 0;
}

abbrev eleven : List (ℕ × ℕ)
eleven = replicate 11 (10, 5)

abbrev history : History ℕ
history =
    ("stack_temperature", eleven)
    ∷ ("stack_pressure", eleven)
    ∷ ("current", eleven)
    ∷ ("voltage", eleven)
    ∷ ("fuel_flow", eleven)
    ∷ ("power_output", eleven)
    ∷ ("coolant_flow", eleven)
    ∷ []

abbrev session : FaultInferenceSession ℕ
session = record {
  asset_id = "a1";
  history = history;
  sample_count = 11;
  last_timestamp = some 110;
  machine_state = fresh;
}

abbrev twelfth : TelemetrySample ℕ
twelfth = record {
  asset_id = "a1";
  timestamp = 120;
  values =
      ("stack_temperature", 60)
      ∷ ("stack_pressure", 90)
      ∷ ("current", 1)
      ∷ ("voltage", 2)
      ∷ ("fuel_flow", 3)
      ∷ ("power_output", 4)
      ∷ ("coolant_flow", 9)
      ∷ [];
  units = [];
}
