-- ===== src/Bridge/WorkerTests.antt =====
-- The worker of the reasoning bridge at a concrete message.
use odis.Bridge.Tests.{
  thousandths, by_length, alert, empty, once, outcome, recorded, processed_once,
}
use odis.Bridge.Input.{
  JsonValues, Json, Fields, validate_alert_transition, string, array, object, number, field,
  no_fields, no_items,
}
use odis.Bridge.Input.Accepted.{IsConsistent, validate-IsConsistent}
use odis.Bridge.Worker.{handle_message, handle_message-new, Delivered}
use odis.Prelude.{ℕ, String, ◌≡◌, refl, true, some, [], leb, eqb}
use odis.Prelude.Result.{ok}
use odis.Bridge.Service.{get_evidence}

abbrev plain_text : Json ℕ → String
plain_text (string s) = s
plain_text _ = ""

abbrev json : JsonValues
json = record {
  Number = ℕ;
  has_double = λ n. true;
  is_finite = λ n. true;
  is_in_unit_interval = λ n. leb n 1;
  text = plain_text;
  parse_timestamp = λ s. some 1000;
}

abbrev message : Fields ℕ
message = field "event_id" (string "e1") (
    field "event_version" (string "v1") (
      field "asset_id" (string "stack-1") (
        field "source_timestamp" (string "1970-01-01T00:16:40Z") (
          field "transition_type" (string "confirmed") (
            field "from_state" (string "healthy") (
              field "to_state" (string "confirmed_cooling_degradation") (
                field "diagnosed_class" (string "cooling_degradation") (
                  field "evidence" (array no_items) (
                    field "model_system_version" (string "m1") (
                      field "model_hash" (string "h1") (
                        field "policy_hash" (string "p1") (
                          field "feature_schema_version" (string "f1") (
                            field "class_scores" (object (field "healthy" (number 1) no_fields))
                              (field "maximum_score" (number 1) no_fields))))))))))))))

validates : validate_alert_transition json message ≡ ok alert
unfolding validate_alert_transition
validates = refl

handle_message-new_example :
    Delivered thousandths by_length json
      (λ s. s)
      2
      1001
      (λ i. eqb i 1)
      []
      once
      recorded
      (handle_message thousandths by_length json
        (λ s. s)
        2
        "u1"
        1001
        true
        (ok tt)
        (λ i. eqb i 1)
        (some (object message))
        empty
        [])
unfolding get_evidence
handle_message-new_example =
    handle_message-new thousandths by_length json (λ s. s) 2 "u1" 1001 true (ok tt) (λ i. eqb i 1)
      message alert empty once outcome [] validates processed_once refl

validate-IsConsistent_example : IsConsistent alert
validate-IsConsistent_example = validate-IsConsistent json message alert validates
