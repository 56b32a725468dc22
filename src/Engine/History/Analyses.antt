-- ===== src/Engine/History/Analyses.antt =====
-- src/application: recurrence_analysis.py, escalation_analysis.py, stability_analysis.py,
-- reasoning_comparison.py and operational_summary.py. A run is compared with those before it in the registry.
use odis.Engine.History.{
  PersistedReasoningRun, Repositories, ReplayResult, runs_of, list_runs, replay,
}
use odis.Engine.Planner.{Priority, low_priority, medium_priority, high_priority, critical_priority}
use odis.Prelude.Text.{is_infix}
use odis.Prelude.{
  ℕ, String, Bool, false, not, ◌&&◌, Option, none, some, List, [], ◌∷◌, ◌==◌, eqb, ltb, length,
  if◌then◌else◌,
}
use odis.Prelude.Result.{Result, ok, ◌>>=◌}

-- `_PRIORITY_RANK`
abbrev pub priority_rank : Priority → ℕ
priority_rank low_priority = 0
priority_rank medium_priority = 1
priority_rank high_priority = 2
priority_rank critical_priority = 3

-- `_is_recurrence`
abbrev pub is_recurrence : {O C : Type 0} → ReplayResult O C → ReplayResult O C → Bool
is_recurrence current earlier =
    (current.situation.assessment == earlier.situation.assessment)
    && eqb (priority_rank current.plan.priority) (priority_rank earlier.plan.priority)

pub record RecurrenceAnalysis : Type 0 where
  pub current_run_id : String
  pub previous_matching_run_ids : List String
  pub is_recurring : Bool
  pub recurrence_count : ℕ

pub record EscalationAnalysis : Type 0 where
  pub previous_run_id : String
  pub current_run_id : String
  pub priority_escalated : Bool
  pub priority_deescalated : Bool
  pub priority_unchanged : Bool

pub record StabilityAnalysis : Type 0 where
  pub previous_run_id : String
  pub current_run_id : String
  pub became_more_stable : Bool
  pub became_less_stable : Bool
  pub stability_unchanged : Bool

pub record ReasoningComparison : Type 0 where
  pub left_run_id : String
  pub right_run_id : String
  pub observation_count_changed : Bool
  pub assessment_changed : Bool
  pub priority_changed : Bool
  pub recommendation_changed : Bool

-- What `summarize` reads of the two analyses; without a previous run all of it is false.
pub record Changes : Type 0 where
  pub priority_escalated : Bool
  pub priority_deescalated : Bool
  pub became_more_stable : Bool
  pub became_less_stable : Bool

pub record OperationalSummary : Type 0 where
  pub run_id : String
  pub assessment : String
  pub priority : Priority
  pub recommendation : String
  pub is_recurring : Bool
  pub recurrence_count : ℕ
  pub priority_escalated : Bool
  pub priority_deescalated : Bool
  pub became_more_stable : Bool
  pub became_less_stable : Bool

-- `_find_previous_run_id`, with the run before the list where there is one.
unfoldable pub find_previous : Option String → List PersistedReasoningRun → String → Option String
find_previous previous [] run_id = none
find_previous previous (run ∷ runs) run_id =
    let rest = find_previous (some run.id) runs run_id in
    if run.id == run_id then previous else rest

module _ {Observation Context : Type 0} (repositories : Repositories Observation Context) where
  -- The runs before the current one that it repeats.
  unfoldable pub matching_runs :
      String → ReplayResult Observation Context → List PersistedReasoningRun → Result (List String)
  unfolding replay
  matching_runs current_run_id current [] = ok []
  matching_runs current_run_id current (run ∷ runs) =
      let rest = matching_runs current_run_id current runs in
      if run.id == current_run_id then ok [] else (do
        earlier ← replay repositories run.id
        matching ← rest
        ok (if is_recurrence current earlier then run.id ∷ matching else matching))

  unfoldable pub analyze_recurrence : String → Result RecurrenceAnalysis
  unfolding runs_of matching_runs
  analyze_recurrence current_run_id = do
    runs ← list_runs repositories
    current ← replay repositories current_run_id
    matching ← matching_runs current_run_id current runs
    ok (record {
      current_run_id = current_run_id;
      previous_matching_run_ids = matching;
      is_recurring = ltb 0 (length matching);
      recurrence_count = length matching;
    })

  unfoldable pub analyze_escalation : String → String → Result EscalationAnalysis
  unfolding replay
  analyze_escalation previous_run_id current_run_id = do
    previous ← replay repositories previous_run_id
    current ← replay repositories current_run_id
    (let before = priority_rank previous.plan.priority in
        let now = priority_rank current.plan.priority in
        ok (record {
          previous_run_id = previous_run_id;
          current_run_id = current_run_id;
          priority_escalated = ltb before now;
          priority_deescalated = ltb now before;
          priority_unchanged = eqb now before;
        }))

  unfoldable pub analyze_stability : String → String → Result StabilityAnalysis
  unfolding replay
  analyze_stability previous_run_id current_run_id = do
    previous ← replay repositories previous_run_id
    current ← replay repositories current_run_id
    (let before = is_infix "unstable" previous.situation.assessment in
        let now = is_infix "unstable" current.situation.assessment in
        ok (record {
          previous_run_id = previous_run_id;
          current_run_id = current_run_id;
          became_more_stable = before && not now;
          became_less_stable = not before && now;
          stability_unchanged = if before then now else not now;
        }))

  unfoldable compare : String → String → Result ReasoningComparison
  unfolding replay
  compare left_run_id right_run_id = do
    left ← replay repositories left_run_id
    right ← replay repositories right_run_id
    ok (record {
      left_run_id = left_run_id;
      right_run_id = right_run_id;
      observation_count_changed = not (eqb (length left.observations) (length right.observations));
      assessment_changed = not (left.situation.assessment == right.situation.assessment);
      priority_changed =
          not (eqb (priority_rank left.plan.priority) (priority_rank right.plan.priority));
      recommendation_changed = not (left.plan.recommendation == right.plan.recommendation);
    })

  unfoldable pub changes_since : Option String → String → Result Changes
  unfolding analyze_escalation analyze_stability
  changes_since none run_id = ok (record {
    priority_escalated = false;
    priority_deescalated = false;
    became_more_stable = false;
    became_less_stable = false;
  })
  changes_since (some previous_run_id) run_id = do
    escalation ← analyze_escalation previous_run_id run_id
    stability ← analyze_stability previous_run_id run_id
    ok (record {
      priority_escalated = escalation.priority_escalated;
      priority_deescalated = escalation.priority_deescalated;
      became_more_stable = stability.became_more_stable;
      became_less_stable = stability.became_less_stable;
    })

  unfoldable pub summarize : String → Result OperationalSummary
  unfolding replay analyze_recurrence runs_of find_previous changes_since
  summarize run_id = do
    replayed ← replay repositories run_id
    recurrence ← analyze_recurrence run_id
    runs ← list_runs repositories
    changes ← changes_since (find_previous none runs run_id) run_id
    ok (record {
      run_id = run_id;
      assessment = replayed.situation.assessment;
      priority = replayed.plan.priority;
      recommendation = replayed.plan.recommendation;
      is_recurring = recurrence.is_recurring;
      recurrence_count = recurrence.recurrence_count;
      priority_escalated = changes.priority_escalated;
      priority_deescalated = changes.priority_deescalated;
      became_more_stable = changes.became_more_stable;
      became_less_stable = changes.became_less_stable;
    })
