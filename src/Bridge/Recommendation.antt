-- ===== src/Bridge/Recommendation.antt =====
-- backend/app/application/reasoning_bridge/recommendation_policy.py
use odis.Bridge.Types.{
  AlertTransitionType, CorroborationOutcome, CorroborationResult, FaultRecommendation, corroborated,
  partially_corroborated, not_corroborated, insufficient_evidence, not_applicable, produced,
  withheld, investigate, monitor, informational, inspection_required, elevated, urgent,
}
use odis.Bridge.Mapping.{FaultClassMapping}
use odis.Prelude.Result.{Result, ok, raise_if, value_error, ◌>>◌}
use odis.Prelude.{String, false, refl, ◌==◌, ◌||◌, [], ◌∷◌, ◌≡◌, ◌≢◌, ◌↔◌, ◌⊎◌, arith}
use odis.Prelude.Text.{concat, concat-given}

-- The last case of the source serves every other result.
abbrev insufficient : String → FaultClassMapping → CorroborationOutcome → FaultRecommendation
insufficient id mapping corroboration = record {
  id = id;
  status = withheld;
  category = monitor;
  urgency = informational;
  action_summary =
      concat "Insufficient observable telemetry to corroborate or refute the AI-diagnosed "
        (concat mapping.fault_class "; more data is needed.");
  reason = corroboration.notes;
  supporting_rule_ids = corroboration.rule_ids;
  supporting_observation_ids = corroboration.supporting_observation_ids;
  recommended_steps =
      "Gather additional telemetry or perform a manual inspection before drawing a conclusion."
      ∷ [];
  limitations =
      "This is not a healthy-operation determination — evidence is simply insufficient to corroborate or refute the alert.";
}

-- What is passed to the constructor of `FaultRecommendation`.
unfoldable pub recommendation_of :
    String → FaultClassMapping → CorroborationOutcome → FaultRecommendation
recommendation_of id mapping corroboration = elim corroboration.result [
  | corroborated ↦ record {
    id = id;
    status = produced;
    category = investigate;
    urgency = elevated;
    action_summary =
        concat "Deterministic evidence corroborates the AI-diagnosed "
          (concat mapping.fault_class ".");
    reason = corroboration.notes;
    supporting_rule_ids = corroboration.rule_ids;
    supporting_observation_ids = corroboration.supporting_observation_ids;
    recommended_steps = mapping.recommended_steps;
    limitations =
        "Model scores are diagnostic ranking scores, not calibrated probabilities; this recommendation is based on the alert policy's own confirmed diagnosis plus deterministic corroboration, not a model-score threshold.";
  }
  | partially_corroborated ↦ record {
    id = id;
    status = produced;
    category = investigate;
    urgency = inspection_required;
    action_summary =
        concat "Deterministic evidence partially supports the AI-diagnosed " (
          concat mapping.fault_class
            "; verification is recommended before any operational action.");
    reason = corroboration.notes;
    supporting_rule_ids = corroboration.rule_ids;
    supporting_observation_ids = corroboration.supporting_observation_ids;
    recommended_steps = mapping.verification_steps;
    limitations =
        "Evidence is ambiguous — this recommends verification, not a confirmed-fault response.";
  }
  | not_corroborated ↦ record {
    id = id;
    status = withheld;
    category = monitor;
    urgency = informational;
    action_summary =
        concat "Deterministic evidence does not corroborate the AI-diagnosed "
          (concat mapping.fault_class "; no fault-action recommendation is made.");
    reason = corroboration.notes;
    supporting_rule_ids = corroboration.rule_ids;
    supporting_observation_ids = corroboration.supporting_observation_ids;
    recommended_steps =
        "Continue monitoring; no deterministic evidence currently supports operator action for this alert."
        ∷ [];
    limitations =
        "The AI alert and deterministic evidence disagree; this disagreement is recorded, not discarded, but does not by itself justify a fault-action recommendation.";
  }
  | insufficient_evidence ↦ insufficient id mapping corroboration
  | not_applicable ↦ insufficient id mapping corroboration
]

-- `FaultRecommendation.__post_init__`, of the fields that its types do not decide.
unfoldable pub check_recommendation : FaultRecommendation → Result (Unit {0})
check_recommendation r =
    raise_if ((r.id == "") || (r.action_summary == "") || (r.reason == "") || (r.limitations == ""))
      value_error

unfoldable pub build_recommendation :
    String
    → FaultClassMapping
    → AlertTransitionType
    → CorroborationOutcome
    → Result FaultRecommendation
unfolding recommendation_of check_recommendation
build_recommendation id mapping transition corroboration =
    let r = recommendation_of id mapping corroboration in check_recommendation r >> ok r

-- Its texts of its own are never empty.
recommendation_of-texts :
    (id : String) (mapping : FaultClassMapping) (c : CorroborationOutcome)
    → let r = recommendation_of id mapping c in
      (r.id ≡ id)
      × ((r.action_summary == "") ≡ false)
      × (r.reason ≡ c.notes)
      × ((r.limitations == "") ≡ false)
unfolding recommendation_of
recommendation_of-texts id mapping c = split c.result refl
  where
    split :
        (result : CorroborationResult)
        → c.result ≡ result
        → let r = recommendation_of id mapping c in
          (r.id ≡ id)
          × ((r.action_summary == "") ≡ false)
          × (r.reason ≡ c.notes)
          × ((r.limitations == "") ≡ false)
    split corroborated e = rw e (
      refl,
      concat-given "Deterministic evidence corroborates the AI-diagnosed " _ refl,
      refl,
      refl,
    )
    split partially_corroborated e = rw e (
      refl,
      concat-given "Deterministic evidence partially supports the AI-diagnosed " _ refl,
      refl,
      refl,
    )
    split not_corroborated e = rw e (
      refl,
      concat-given "Deterministic evidence does not corroborate the AI-diagnosed " _ refl,
      refl,
      refl,
    )
    split insufficient_evidence e = rw e (
      refl,
      concat-given "Insufficient observable telemetry to corroborate or refute the AI-diagnosed " _
          refl,
      refl,
      refl,
    )
    split not_applicable e = rw e (
      refl,
      concat-given "Insufficient observable telemetry to corroborate or refute the AI-diagnosed " _
          refl,
      refl,
      refl,
    )

-- With an identifier and a reason there is a recommendation.
pub build_recommendation-returns :
    (id : String) (mapping : FaultClassMapping) (transition : AlertTransitionType)
    (c : CorroborationOutcome)
    → (id == "") ≡ false
    → (c.notes == "") ≡ false
    → (build_recommendation id mapping transition c ≡ ok (recommendation_of id mapping c))
      × (((recommendation_of id mapping c).action_summary == "") ≡ false)
unfolding build_recommendation check_recommendation
build_recommendation-returns id mapping transition c given noted =
    let (same, summary, reason, limits) = recommendation_of-texts id mapping c in
    (rw (same, summary, reason, limits, given, noted) refl, summary)

described :
    (id : String) (mapping : FaultClassMapping) (c : CorroborationOutcome)
    → let r = recommendation_of id mapping c in
      ((r.status ≡ produced) ↔ ((c.result ≡ corroborated) ⊎ (c.result ≡ partially_corroborated)))
      × ((r.status ≡ produced) ↔ (r.category ≡ investigate))
      × (r.supporting_rule_ids ≡ c.rule_ids)
      × (r.reason ≡ c.notes)
      × (r.urgency ≢ urgent)
unfolding recommendation_of
described id mapping c = ground arith

-- What a recommendation says of its outcome.
abbrev pub Recommends : CorroborationOutcome → FaultRecommendation → Type 0
Recommends c r =
    ((r.status ≡ produced) ↔ ((c.result ≡ corroborated) ⊎ (c.result ≡ partially_corroborated)))
    × ((r.status ≡ produced) ↔ (r.category ≡ investigate))
    × (r.supporting_rule_ids ≡ c.rule_ids)
    × (r.reason ≡ c.notes)
    × (r.urgency ≢ urgent)

-- For an outcome with notes and an identifier there is a recommendation. It is produced exactly for a
-- result that is corroborated or partially so, it says to investigate exactly where it is produced, it
-- repeats the outcome's rules and reason, and it is never urgent.
pub build_recommendation-lem :
    (id : String) (mapping : FaultClassMapping) (transition : AlertTransitionType)
    (c : CorroborationOutcome)
    → (id == "") ≡ false
    → (c.notes == "") ≡ false
    → (r : FaultRecommendation) × (build_recommendation id mapping transition c ≡ ok r)
      × Recommends c r
build_recommendation-lem id mapping transition c given noted = (
  recommendation_of id mapping c,
  (build_recommendation-returns id mapping transition c given noted).0,
  described id mapping c,
)
