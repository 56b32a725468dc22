-- ===== src/Inference/Session/Totality.antt =====
-- A session takes every sample that follows, whatever the classifier says of it.
use odis.AlertPolicy.State.{Scores, healthy_state, index}
use odis.AlertPolicy.Machine.Invariant.{IsPositive, IsValid}
use odis.AlertPolicy.Machine.Totality.{ArgmaxLaw}
use odis.Inference.Telemetry.{TelemetrySample, required_measurements}
use odis.Inference.Session.{
  FaultInferenceSession, History, PromotedFaultSystem, InferenceResult, first_length,
  longest_window_samples,
}
use odis.Prelude.Result.{ok, err, Result, Error}
use odis.Prelude.Dict.{has_key}
use odis.Prelude.{ℕ, min, String, ◌≡◌, true, List, ◌==◌, length, any, All, ◌-◌, some, ◌≤◌}

module _ {Value : Type 0} where
  -- Each series is one of a required measurement, with the last `n` values, and twelve at most.
  abbrev pub IsSeries : ℕ → String × List (ℕ × Value) → Type 0
  IsSeries n (m, series) =
      (any (λ name. name == m) required_measurements ≡ true)
      × (length series ≡ min n longest_window_samples)

  -- The sample has a value for each required measurement.
  abbrev pub IsComplete : TelemetrySample Value → Type 0
  IsComplete sample = All (λ name. has_key ◌==◌ name sample.values ≡ true) required_measurements

module _ (scores : Scores) {Value : Type 0} (system : PromotedFaultSystem Value scores.Score) where
  open scores use {Score}
  open system use {Features, compute_feature_row, predict_proba, class_order, alert_policy_config}

  -- What is asked of the promoted system: persistences that are positive, `healthy` among the classes and a
  -- score for each class.
  pub record IsReady : Type 0 where
    pub argmax_law : ArgmaxLaw scores
    pub positive : IsPositive alert_policy_config
    pub healthy_index : ℕ
    pub has_healthy : index class_order healthy_state ≡ ok healthy_index
    pub wide : (features : Features) → length (predict_proba features) ≡ length class_order

  -- The series are those of its samples, and the machine is in a valid state.
  pub record IsValidSession (s : FaultInferenceSession Value) : Type 0 where
    pub series : All (IsSeries s.sample_count) s.history
    pub machine : IsValid alert_policy_config s.machine_state

  -- The session behind a sample of this time has seen one more and is valid.
  pub record IsNext (n timestamp : ℕ)
      (outcome : FaultInferenceSession Value × InferenceResult Score) : Type 0 where
    pub valid : IsValidSession outcome.0
    pub counted : outcome.0.sample_count ≡ n
    pub last : outcome.0.last_timestamp ≡ some timestamp

  -- The features of the series of `n` samples, twelve at least, raise this exception.
  pub FeaturesRaise : ℕ → Error → Type 0
  FeaturesRaise n raised =
      (history : History Value) × All (IsSeries n) history
      × (longest_window_samples ≤ n)
      × (current : List (String × Value)) × (previous : List (String × Value))
      × (compute_feature_row current previous history (first_length history - 1) ≡ err raised)
