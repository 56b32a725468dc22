-- ===== src/Inference/Polling.antt =====
-- backend/simulator/inference_worker/worker.py: one poll, with the commits and the sweep behind them. The
-- messages are those of the poll in their order, each with the time at which it is handled. The client of
-- Kafka is no part of it: a commit is counted, and what it does to the offsets is the client's.
pub mod Committed
use odis.AlertPolicy.State.{Scores}
use odis.Bridge.Input.{JsonValues, Json}
use odis.Inference.Telemetry.{Readings}
use odis.Inference.Assembly.{AssemblyOutcome, sweep_timeouts}
use odis.Inference.Session.{PromotedFaultSystem}
use odis.Inference.Worker.{Message, WorkerState, Handled, handle_outcome, handle_message}
use odis.Prelude.{ℕ, suc, Bool, true, false, Option, List, [], ◌∷◌, ◌++◌}
use odis.Prelude.Result.{Result, Error, ok, err, ◌>>=◌}

-- What a poll leaves behind: the state, unless it raised; what was published for the messages that were
-- handled to their end, and by the sweep; and how often it committed.
pub record Polled (Value Score : Type 0) : Type 0 where
  pub state : Result (WorkerState Value)
  pub published : List (Message Score)
  pub committed : ℕ

-- A poll that ends at a message, which it commits nothing of.
abbrev pub ends : {Value Score : Type 0} → Handled Value Score → Polled Value Score
ends h = record { state = ok h.state; published = h.published; committed = 0 }

abbrev pub raises : {Value Score : Type 0} → Error → Polled Value Score
raises raised = record { state = err raised; published = []; committed = 0 }

-- A commit, and the rest of the poll behind it.
abbrev pub commits :
    {Value Score : Type 0} → Handled Value Score → Polled Value Score → Polled Value Score
commits h rest = record {
  state = rest.state;
  published = h.published ++ rest.published;
  committed = suc rest.committed;
}

-- A message that is not handled to its end stops the poll.
abbrev pub after_message :
    {Value Score : Type 0} → Handled Value Score → Bool → Polled Value Score → Polled Value Score
after_message h false rest = ends h
after_message h true rest = commits h rest

abbrev pub poll_message :
    {Value Score : Type 0}
    → Result (Handled Value Score)
    → (WorkerState Value → Polled Value Score)
    → Polled Value Score
poll_message (err raised) rest = raises raised
poll_message (ok h) rest = after_message h h.delivered (rest h.state)

abbrev pub swept :
    {Value Score : Type 0} → Result (WorkerState Value × List (Message Score)) → Polled Value Score
swept (err raised) = raises raised
swept (ok (w, published)) = record { state = ok w; published = published; committed = 0 }

module _ (scores : Scores) (readings : Readings)
    (system : PromotedFaultSystem readings.Value scores.Score) (max_retries : ℕ)
    (broker : Message scores.Score → ℕ → Bool) where
  open scores use {Score}
  open readings use {Value}

  -- The outcomes of the sweep one behind another, whether they are delivered or not.
  unfoldable pub report_each :
      WorkerState Value
      → List (AssemblyOutcome Value)
      → Result (WorkerState Value × List (Message Score))
  report_each w [] = ok (w, [])
  report_each w (outcome ∷ outcomes) = do
    first ← handle_outcome scores readings system max_retries broker w outcome
    (last, published) ← report_each first.state outcomes
    ok (last, first.published ++ published)

  -- `_sweep_timeouts`
  abbrev pub sweep : WorkerState Value → ℕ → Result (WorkerState Value × List (Message Score))
  sweep w now =
      let (assembler, outcomes) = sweep_timeouts readings w.assembler now in
      report_each (record { assembler = assembler; sessions = w.sessions }) outcomes

  module _ (values : JsonValues) (float : values.Number → Result Value)
      (is_zero : values.Number → Bool) where
    open values use {Number}

    -- `poll_once`, with the time of the sweep
    unfoldable pub poll_once :
        WorkerState Value → List (ℕ × Option (Json Number)) → ℕ → Polled Value Score
    unfolding report_each
    poll_once w [] end = swept (sweep w end)
    poll_once w ((now, message) ∷ messages) end =
        poll_message
          (handle_message scores readings system max_retries broker values float is_zero w now
            message)
          (λ after. poll_once after messages end)
