-- ===== src/Engine/HistoryTests.antt =====
-- A history of two runs that make the same plan.
use odis.Engine.Assessment.{OperationalSituation}
use odis.Engine.Planner.{low_priority}
use odis.Engine.History.{
  Repositories, DecisionPlan, ReasoningRunIndex, runs_of, load_observations, replay,
}
use odis.Engine.History.Analyses.{
  matching_runs, analyze_recurrence, analyze_escalation, analyze_stability, find_previous,
  changes_since, summarize,
}
use odis.Engine.History.Attention.{AttentionItem, insert_ranked, sort_ranked, indexed_items, rank}
use odis.Engine.History.Attention.Ranking.{IsQueue, rank-IsQueue}
use odis.Prelude.{ℕ, String, ◌≡◌, refl, true, false, some, List, [], ◌∷◌}
use odis.Prelude.Result.{ok}

abbrev situation : OperationalSituation
situation = record {
  id = "s";
  goal_id = "g";
  observation_ids = "o" ∷ [];
  assessment = "signal stable";
}

abbrev plan : DecisionPlan
plan = record {
  id = "p";
  context_id = "c";
  created_at = 0;
  priority = low_priority;
  recommendation = "Continue monitoring";
  justification = "Operational conditions remain stable.";
}

abbrev index_of : String → ReasoningRunIndex
index_of run_id = record {
  run_id = run_id;
  observation_ids = "o" ∷ [];
  situation_id = "s";
  context_id = "c";
  plan_id = "p";
  action_id = "a";
  outcome_id = "e";
  asset_id = "stack-1";
}

abbrev two_runs : Repositories ℕ ℕ
two_runs = record {
  registry =
      record { run_id = "r1"; started_at = 0 } ∷ (record { run_id = "r2"; started_at = 1 } ∷ []);
  get_run = λ i. some (record { id = i; started_at = 0 });
  get_index = λ i. some (index_of i);
  get_observation = λ i. some 0;
  get_situation = λ i. some situation;
  get_context = λ i. some 0;
  get_plan = λ i. some plan;
}

abbrev queue : List AttentionItem
queue =
    record {
      run_id = "r2";
      priority = low_priority;
      is_recurring = true;
      recurrence_count = 1;
      priority_escalated = false;
      attention_score = 2;
    }
    ∷ (record {
      run_id = "r1";
      priority = low_priority;
      is_recurring = false;
      recurrence_count = 0;
      priority_escalated = false;
      attention_score = 1;
    }
        ∷ [])

rank-two : rank two_runs ≡ ok queue
unfolding rank indexed_items sort_ranked insert_ranked summarize replay load_observations runs_of
    analyze_recurrence matching_runs find_previous changes_since analyze_escalation
    analyze_stability
rank-two = refl

rank-IsQueue_example : IsQueue two_runs queue
rank-IsQueue_example = rank-IsQueue two_runs queue rank-two
