-- ===== src/Bridge/Tests.antt =====
-- The reasoning bridge at concrete inputs.
use odis.Engine.Observation.{Floats, Observation}
use odis.Bridge.Types.{
  CorroborationOutcome, confirmed, class_changed, cleared, insufficient_evidence,
  FaultRecommendation,
}
use odis.Bridge.Mapping.{cooling_degradation_mapping}
use odis.Bridge.Recommendation.{
  recommendation_of, Recommends, build_recommendation, build_recommendation-lem,
}
use odis.Bridge.Lifecycle.{AiFaultEvidence}
use odis.Bridge.Service.{
  ValidatedAlertTransition, Store, ProcessingOutcome, evidence_of, list_by_asset_in_time_range,
  get_evidence,
}
use odis.Bridge.Service.Fetch.{fetch-lem, IsOf}
use odis.Bridge.Process.{process_alert_transition, decision_for, duplicate_outcome}
use odis.Bridge.Process.Replay.{process-replay}
use odis.Bridge.Process.Occurrence.{process-next_open, open_investigation, next_open}
use odis.Bridge.Input.{extract_fault_class, extract-confirmed_state}
use odis.Bridge.Publish.{publish_loop, publish_loop_iff}
use odis.Prelude.{
  ℕ, zero, suc, ◌-◌, ◌*◌, ◌/◌, String, ◌≡◌, refl, Bool, true, false, not, some, [], ◌∷◌, ◌==◌, ltb,
  leb, ◌≤◌, ◌↔◌, eqb, length, All, arith,
}
use odis.Prelude.Result.{ok}

-- Values in thousandths.
abbrev pub thousandths : Floats
thousandths = record {
  Value = ℕ;
  of_decimal = λ m e. elim e [ zero ↦ m * 1000 | suc zero ↦ m * 100 | _ ↦ 0 ];
  sub = λ a b. a - b;
  div = λ a b. (a * 1000) / b;
  abs = λ a. a;
  lt = ltb;
  le = leb;
  fmean = λ xs. 0;
  pstdev = λ xs. 0;
  greatest = λ xs. 0;
  least = λ xs. 0;
}

abbrev pub by_length : String → String → Bool
by_length s t = not (s == t)

abbrev pub alert : ValidatedAlertTransition
alert = record {
  event_id = "e1";
  event_version = "v1";
  asset_id = "stack-1";
  source_timestamp = 1000;
  transition_type = confirmed;
  from_state = "healthy";
  to_state = "confirmed_cooling_degradation";
  fault_class = "cooling_degradation";
  diagnosed_class = "cooling_degradation";
  model_system_version = "m1";
  model_hash = "h1";
  policy_hash = "p1";
  feature_schema_version = "f1";
  maximum_score_in_range = true;
}

abbrev pub empty : Store ℕ
empty = record { evidence = []; timeline = []; outbox = []; observations = [] }

abbrev no_history_outcome : CorroborationOutcome
no_history_outcome = record {
  result = insufficient_evidence;
  rule_ids = "cooling_degradation.insufficient_stack_temperature_history" ∷ [];
  notes = "Not enough stack_temperature history to corroborate or refute.";
  supporting_observation_ids = [];
}

abbrev pub recorded : AiFaultEvidence
recorded =
    evidence_of alert (decision_for thousandths by_length "u1" alert empty) no_history_outcome
      (some (recommendation_of "ai-fault-rec-u1-e1" cooling_degradation_mapping no_history_outcome))

abbrev pub outcome : ProcessingOutcome
outcome = record { evidence = recorded; is_duplicate = false; is_new_investigation = true }

abbrev pub once : Store ℕ
once = (process_alert_transition thousandths by_length "u1" 1001 true (ok tt) alert empty).0

pub processed_once :
    process_alert_transition thousandths by_length "u1" 1001 true (ok tt) alert empty
    ≡ (once, ok outcome)
unfolding process_alert_transition odis.Bridge.Corroboration.corroborate_cooling_degradation
    list_by_asset_in_time_range
processed_once = refl

process-replay_example :
    process_alert_transition thousandths by_length "u2" 2000 true (ok tt) alert once
    ≡ (once, ok (duplicate_outcome recorded))
process-replay_example =
    process-replay thousandths by_length "u1" 1001 true (ok tt) alert empty once outcome
      processed_once "u2" 2000 true (ok tt)

process-next_open_example :
    (open_investigation by_length "stack-1" once.evidence
      ≡ next_open "u1" confirmed (open_investigation by_length "stack-1" []))
    × (open_investigation by_length "stack-2" once.evidence
        ≡ open_investigation by_length "stack-2" [])
unfolding get_evidence
process-next_open_example =
    process-next_open thousandths by_length "u1" 1001 true (ok tt) alert empty once outcome
      processed_once refl tt "stack-2" refl

abbrev reading : ℕ → Observation ℕ
reading t = record {
  id = "o1";
  asset_id = "stack-1";
  timestamp = t;
  measurement_type = "voltage";
  value = 700;
  unit = "V";
}

fetch-lem_example :
    let fetched =
      list_by_asset_in_time_range by_length "stack-1" 100 1000 "voltage" 1
        (reading 900 ∷ reading 50 ∷ reading 200 ∷ []) in
    (length fetched ≤ 1)
    × All
        (λ (o : Observation ℕ).
          IsOf "stack-1" "voltage" o × (100 ≤ o.timestamp) × (o.timestamp ≤ 1000))
        fetched
fetch-lem_example =
    fetch-lem by_length "stack-1" 100 1000 "voltage" 1 (reading 900 ∷ reading 50 ∷ reading 200 ∷ [])

build_recommendation-lem_example :
    (r : FaultRecommendation) × (build_recommendation "r1" cooling_degradation_mapping confirmed
        no_history_outcome
      ≡ ok r)
    × Recommends no_history_outcome r
build_recommendation-lem_example =
    build_recommendation-lem "r1" cooling_degradation_mapping confirmed no_history_outcome refl refl

extract-confirmed_state_example :
    (extract_fault_class confirmed "healthy" "confirmed_sensor_anomaly" ≡ ok "sensor_anomaly")
    × (extract_fault_class class_changed "healthy" "confirmed_sensor_anomaly" ≡ ok "sensor_anomaly")
    × (extract_fault_class cleared "confirmed_sensor_anomaly" "healthy" ≡ ok "sensor_anomaly")
extract-confirmed_state_example = extract-confirmed_state "sensor_anomaly" "healthy" refl

publish_loop_iff_example :
    (b : Bool) × (publish_loop 9 2 (λ i. eqb i 2) 0 ≡ some b)
    × ((b ≡ true) ↔ ((i : ℕ) × (i ≤ 2) × (eqb i 2 ≡ true)))
publish_loop_iff_example = publish_loop_iff 2 (λ i. eqb i 2) 9 (omega arith)
