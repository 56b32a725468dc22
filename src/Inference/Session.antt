-- ===== src/Inference/Session.antt =====
-- backend/simulator/inference/session.py: `FaultInferenceSession` and `FaultInferenceManager` over the step
-- of the alert policy's machine. The feature row (features/row.py) and the classifier are parameters of the
-- promoted system: `compute_feature_row` gives the features, nothing where they are insufficient, or an
-- exception. Names and hashes of the system are left out, and so are the evidence and the reason codes. A
-- call that raises ends the worker, so what it leaves behind is not kept.
pub mod Totality
use odis.AlertPolicy.State.{Scores, StateMachineConfig, AlertMachineState, AlertEvent, Step, fresh}
use odis.AlertPolicy.Machine.{step_state_machine}
use odis.Inference.Telemetry.{Readings, TelemetrySample, required_measurements}
use odis.Prelude.Dict.{lookup, set_key}
use odis.Prelude.{
  ℕ, ◌+◌, ◌-◌, ◌*◌, String, Bool, true, false, not, Option, none, some, List, [], ◌∷◌, ◌++◌, ◌==◌,
  ltb, leb, if◌then◌else◌, length, get_elem?, replicate, drop,
}
use odis.Prelude.Result.{
  Result, ok, ◌>>◌, ◌>>=◌, raise_if, err, or_raise, value_error, index_error, key_error,
  non_monotonic_timestamp,
}

-- `DT_SECONDS` and `LONGEST_WINDOW_SAMPLES`
abbrev pub dt_seconds : ℕ
dt_seconds = 10

abbrev pub longest_window_samples : ℕ
longest_window_samples = 12

pub data InferenceStatus : Type 0 where
  warming_up valid_prediction insufficient_data : InferenceStatus

pub record InferenceResult (Score : Type 0) : Type 0 where
  pub status : InferenceStatus
  pub asset_id : String
  pub timestamp : ℕ
  pub diagnosed_class : Option String
  pub class_probabilities : Option (List (String × Score))
  pub maximum_probability : Option Score
  pub alert_state : Option String
  pub alert_event : Option (AlertEvent ℕ)
  pub samples_available : Option ℕ

-- The series of each measurement: its times and values, oldest first.
abbrev pub History : Type 0 → Type 0
History Value = List (String × List (ℕ × Value))

pub record FaultInferenceSession (Value : Type 0) : Type 0 where
  pub asset_id : String
  pub history : History Value
  pub sample_count : ℕ
  pub last_timestamp : Option ℕ
  pub machine_state : AlertMachineState

-- `last is not None and timestamp <= last`
abbrev pub is_behind : Option ℕ → ℕ → Bool
is_behind none timestamp = false
is_behind (some last) timestamp = leb timestamp last

module _ {Value : Type 0} where
  abbrev pub empty_history : List String → History Value
  empty_history [] = []
  empty_history (m ∷ ms) = (m, []) ∷ empty_history ms

  -- `_reset_state`
  abbrev pub new_session : String → FaultInferenceSession Value
  new_session asset_id = record {
    asset_id = asset_id;
    history = empty_history required_measurements;
    sample_count = 0;
    last_timestamp = none;
    machine_state = fresh;
  }

  -- `del series[: len(series) - LONGEST_WINDOW_SAMPLES]` where the series is longer
  abbrev pub trim : List (ℕ × Value) → List (ℕ × Value)
  trim series =
      if ltb longest_window_samples (length series)
      then drop (length series - longest_window_samples) series
      else series

  unfoldable pub append_sample : ℕ → List (String × Value) → History Value → Result (History Value)
  append_sample elapsed values [] = ok []
  append_sample elapsed values ((m, series) ∷ history) = do
    value ← or_raise (lookup ◌==◌ m values) key_error
    rest ← append_sample elapsed values history
    ok ((m, trim (series ++ ((elapsed, value) ∷ []))) ∷ rest)

  -- `len(self._history[_HISTORY_MEASUREMENTS[0]])`
  abbrev pub first_length : History Value → ℕ
  first_length [] = 0
  first_length ((m, series) ∷ history) = length series

  -- The value of each series at an index.
  unfoldable pub values_at : ℕ → History Value → Result (List (String × Value))
  values_at index [] = ok []
  values_at index ((m, series) ∷ history) = do
    (elapsed, value) ← or_raise (get_elem? series index) index_error
    rest ← values_at index history
    ok ((m, value) ∷ rest)

-- The promoted system, with what it takes from the feature pipeline and the classifier.
pub record PromotedFaultSystem (Value Score : Type 0) : Type 1 where
  pub Features : Type 0
  pub compute_feature_row :
      List (String × Value) → List (String × Value) → History Value → ℕ → Result (Option Features)
  pub predict_proba : Features → List Score
  pub class_order : List String
  pub alert_policy_config : StateMachineConfig Score
  pub zero_score : Score

-- `zip(..., strict=True)`
unfoldable pub zip_strict : {A B : Type 0} → List A → List B → Result (List (A × B))
zip_strict [] [] = ok []
zip_strict (x ∷ xs) (y ∷ ys) = do rest ← zip_strict xs ys; ok ((x, y) ∷ rest)
zip_strict _ _ = err value_error

module _ (scores : Scores) {Value : Type 0} (system : PromotedFaultSystem Value scores.Score) where
  open scores use {Score, argmax}
  open system use {
    Features, compute_feature_row, predict_proba, class_order, alert_policy_config, zero_score,
  }

  abbrev Outcome : Type 0
  Outcome = FaultInferenceSession Value × InferenceResult Score

  -- The step of the machine at the session's time.
  abbrev pub step_session : FaultInferenceSession Value → List Score → Bool → Result (Step ℕ)
  step_session s proba valid =
      step_state_machine scores alert_policy_config class_order s.machine_state
        (s.sample_count * dt_seconds) proba valid

  abbrev pub with_machine :
      FaultInferenceSession Value → AlertMachineState → FaultInferenceSession Value
  with_machine s machine = record {
    asset_id = s.asset_id;
    history = s.history;
    sample_count = s.sample_count;
    last_timestamp = s.last_timestamp;
    machine_state = machine;
  }

  abbrev pub warming : FaultInferenceSession Value → ℕ → InferenceResult Score
  warming s timestamp = record {
    status = warming_up;
    asset_id = s.asset_id;
    timestamp = timestamp;
    diagnosed_class = none;
    class_probabilities = none;
    maximum_probability = none;
    alert_state = none;
    alert_event = none;
    samples_available = some s.sample_count;
  }

  -- `ingest` behind the feature row.
  abbrev pub score_row : FaultInferenceSession Value → ℕ → Option Features → Result Outcome
  score_row s timestamp none = do
    (machine, row_state, event) ← step_session s (replicate (length class_order) zero_score) false
    ok (
      with_machine s machine,
      record (warming s timestamp) {
        status = insufficient_data;
        alert_state = some machine.state;
        samples_available = none;
      },
    )
  score_row s timestamp (some features) = do
    let proba = predict_proba features
    diagnosed_class ← or_raise (get_elem? class_order (argmax proba)) index_error
    class_probabilities ← zip_strict class_order proba
    maximum_probability ← or_raise (get_elem? proba (argmax proba)) index_error
    (machine, row_state, event) ← step_session s proba true
    ok (
      with_machine s machine,
      record {
        status = valid_prediction;
        asset_id = s.asset_id;
        timestamp = timestamp;
        diagnosed_class = some diagnosed_class;
        class_probabilities = some class_probabilities;
        maximum_probability = some maximum_probability;
        alert_state = some machine.state;
        alert_event = event;
        samples_available = none;
      },
    )

  -- `ingest` behind the recording of the sample. Every series has twelve values there, so no index is
  -- below 0.
  abbrev pub infer : FaultInferenceSession Value → ℕ → Result Outcome
  infer s timestamp =
      if ltb s.sample_count longest_window_samples then ok (s, warming s timestamp) else (do
        let index = first_length s.history - 1
        current_values ← values_at index s.history
        previous_values ← values_at (index - 1) s.history
        row ← compute_feature_row current_values previous_values s.history index
        score_row s timestamp row)

  unfoldable pub ingest_sample :
      FaultInferenceSession Value → TelemetrySample Value → Result Outcome
  unfolding append_sample values_at
  ingest_sample s sample = do
    raise_if (not (sample.asset_id == s.asset_id)) value_error
    raise_if (is_behind s.last_timestamp sample.timestamp) non_monotonic_timestamp
    history ← append_sample ((s.sample_count + 1) * dt_seconds) sample.values s.history
    infer
        (record {
          asset_id = s.asset_id;
          history = history;
          sample_count = s.sample_count + 1;
          last_timestamp = some sample.timestamp;
          machine_state = s.machine_state;
        })
        sample.timestamp

  -- `session_for`: the constructor raises on an empty identifier.
  abbrev pub session_or_new :
      String → Option (FaultInferenceSession Value) → Result (FaultInferenceSession Value)
  session_or_new asset_id (some s) = ok s
  session_or_new asset_id none =
      if asset_id == "" then err value_error else ok (new_session asset_id)

  unfoldable pub manager_ingest :
      List (String × FaultInferenceSession Value)
      → TelemetrySample Value
      → Result (List (String × FaultInferenceSession Value) × InferenceResult Score)
  unfolding ingest_sample
  manager_ingest sessions sample = do
    s ← session_or_new sample.asset_id (lookup ◌==◌ sample.asset_id sessions)
    (after, result) ← ingest_sample s sample
    ok (set_key ◌==◌ sample.asset_id after sessions, result)
