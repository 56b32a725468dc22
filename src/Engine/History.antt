-- ===== src/Engine/History.antt =====
-- src/application: reasoning_history.py and reasoning_replayer.py, over the repositories that they read. A
-- missing row raises.
pub mod Analyses
pub mod Attention
use Prim.Native.Char.{code}
use odis.Engine.Assessment.{OperationalSituation}
use odis.Engine.Planner.{Priority, low_priority, medium_priority, high_priority, critical_priority}
use odis.Prelude.{
  ℕ, String, Bool, true, false, not, ◌&&◌, Option, none, some, List, [], ◌∷◌, ◌==◌, eqb, ltb,
  length, if◌then◌else◌,
}
use odis.Prelude.Result.{Result, ok, err, ◌>>=◌, or_raise, value_error}

pub record PersistedReasoningRun : Type 0 where
  pub id : String
  pub started_at : ℕ

pub record ReasoningRunRegistryEntry : Type 0 where
  pub run_id : String
  pub started_at : ℕ

pub record ReasoningRunIndex : Type 0 where
  pub run_id : String
  pub observation_ids : List String
  pub situation_id : String
  pub context_id : String
  pub plan_id : String
  pub action_id : String
  pub outcome_id : String
  pub asset_id : String

pub record DecisionPlan : Type 0 where
  pub id : String
  pub context_id : String
  pub created_at : ℕ
  pub priority : Priority
  pub recommendation : String
  pub justification : String

-- The repositories, by what their `get` and `list` answer. Observations and contexts are only passed on.
pub record Repositories (Observation Context : Type 0) : Type 0 where
  pub registry : List ReasoningRunRegistryEntry
  pub get_run : String → Option PersistedReasoningRun
  pub get_index : String → Option ReasoningRunIndex
  pub get_observation : String → Option Observation
  pub get_situation : String → Option OperationalSituation
  pub get_context : String → Option Context
  pub get_plan : String → Option DecisionPlan

pub record ReplayResult (Observation Context : Type 0) : Type 0 where
  pub run : PersistedReasoningRun
  pub observations : List Observation
  pub situation : OperationalSituation
  pub context : Context
  pub plan : DecisionPlan

module _ {Observation Context : Type 0} (repositories : Repositories Observation Context) where
  unfoldable pub runs_of : List ReasoningRunRegistryEntry → Result (List PersistedReasoningRun)
  runs_of [] = ok []
  runs_of (entry ∷ entries) = do
    run ← or_raise (repositories.get_run entry.run_id) value_error
    rest ← runs_of entries
    ok (run ∷ rest)

  abbrev pub list_runs : Result (List PersistedReasoningRun)
  list_runs = runs_of repositories.registry

  unfoldable pub load_observations : List String → Result (List Observation)
  load_observations [] = ok []
  load_observations (i ∷ is) = do
    observation ← or_raise (repositories.get_observation i) value_error
    rest ← load_observations is
    ok (observation ∷ rest)

  unfoldable pub replay : String → Result (ReplayResult Observation Context)
  unfolding load_observations
  replay run_id = do
    run ← or_raise (repositories.get_run run_id) value_error
    index ← or_raise (repositories.get_index run_id) value_error
    observations ← load_observations index.observation_ids
    situation ← or_raise (repositories.get_situation index.situation_id) value_error
    context ← or_raise (repositories.get_context index.context_id) value_error
    plan ← or_raise (repositories.get_plan index.plan_id) value_error
    ok (record {
      run = run;
      observations = observations;
      situation = situation;
      context = context;
      plan = plan;
    })
