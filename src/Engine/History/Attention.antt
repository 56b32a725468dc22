-- ===== src/Engine/History/Attention.antt =====
-- src/application/attention_queue.py: the runs of the history by the attention that they ask for.
pub mod Ranking
use odis.Engine.Planner.{Priority, low_priority, medium_priority, high_priority, critical_priority}
use odis.Engine.History.{PersistedReasoningRun, Repositories, list_runs}
use odis.Engine.History.Analyses.{OperationalSummary, summarize}
use odis.Prelude.{
  ℕ, suc, ◌+◌, String, Bool, ◌&&◌, ◌||◌, List, [], ◌∷◌, map, eqb, ltb, if◌then◌else◌,
}
use odis.Prelude.Result.{Result, ok, ◌>>=◌}

pub record AttentionItem : Type 0 where
  pub run_id : String
  pub priority : Priority
  pub is_recurring : Bool
  pub recurrence_count : ℕ
  pub priority_escalated : Bool
  pub attention_score : ℕ

-- `_PRIORITY_ATTENTION_SCORE`
abbrev pub priority_score : Priority → ℕ
priority_score low_priority = 1
priority_score medium_priority = 2
priority_score high_priority = 3
priority_score critical_priority = 4

-- `_attention_score`
abbrev pub attention_score_of : OperationalSummary → ℕ
attention_score_of summary =
    priority_score summary.priority
    + (if summary.is_recurring then 1 else 0)
    + (if summary.priority_escalated then 1 else 0)

abbrev pub item_of : OperationalSummary → AttentionItem
item_of summary = record {
  run_id = summary.run_id;
  priority = summary.priority;
  is_recurring = summary.is_recurring;
  recurrence_count = summary.recurrence_count;
  priority_escalated = summary.priority_escalated;
  attention_score = attention_score_of summary;
}

-- The order of the keys `(-attention_score, -index)`
abbrev pub outranks : ℕ × AttentionItem → ℕ × AttentionItem → Bool
outranks (i, a) (j, b) =
    ltb b.attention_score a.attention_score || (eqb a.attention_score b.attention_score && ltb j i)

unfoldable pub insert_ranked :
    ℕ × AttentionItem → List (ℕ × AttentionItem) → List (ℕ × AttentionItem)
insert_ranked a [] = a ∷ []
insert_ranked a (b ∷ bs) =
    let rest = insert_ranked a bs in if outranks a b then a ∷ b ∷ bs else b ∷ rest

unfoldable pub sort_ranked : List (ℕ × AttentionItem) → List (ℕ × AttentionItem)
unfolding insert_ranked
sort_ranked [] = []
sort_ranked (a ∷ bs) = insert_ranked a (sort_ranked bs)

module _ {Observation Context : Type 0} (repositories : Repositories Observation Context) where
  unfoldable pub indexed_items : ℕ → List PersistedReasoningRun → Result (List (ℕ × AttentionItem))
  unfolding summarize
  indexed_items index [] = ok []
  indexed_items index (run ∷ runs) = do
    summary ← summarize repositories run.id
    rest ← indexed_items (suc index) runs
    ok ((index, item_of summary) ∷ rest)

  unfoldable pub rank : Result (List AttentionItem)
  unfolding indexed_items sort_ranked
  rank = do
    runs ← list_runs repositories
    items ← indexed_items 0 runs
    ok (map (λ (pair : ℕ × AttentionItem). pair.1) (sort_ranked items))
