-- ===== src/Lib.antt =====
-- Odis watches fuel-cell stacks. A promoted classifier scores each row of telemetry, an alert policy
-- turns the scores into confirmed alerts, the reasoning bridge turns each alert into evidence, an
-- investigation and a recommendation, and a reasoning engine assesses the observations of an asset
-- in runs that a queue of jobs schedules. These files model that path.
--
--   AlertPolicy  backend/simulator/dataset/alert_policy/state_machine.py. State has the records,
--     Machine the step and the run: one function for each block of `step_state_machine`. A score is
--     a value of `Scores`, which stands for doubles and numpy's argmax.
--   Bridge  backend/app/application/reasoning_bridge. Input is `validate_alert_transition` on JSON
--     values, Mapping, Corroboration, Recommendation and Lifecycle the modules of those names, Service
--     the tables and what `process_alert_transition` reads, Process the call itself with its commit
--     and rollback, Publish the retry loop of infrastructure/reasoning_bridge/kafka_io.py, Worker the
--     handling of one message, which joins Input, Process and Publish. The states that Input takes
--     apart are those that AlertPolicy names.
--   Engine  src/application and src/domain: Observation, Trend, Variation, Relationships, Assessment,
--     Planner, Evidence, Hypotheses and Confidence, History the replay of past runs, with their
--     comparison in Analyses and attention_queue.py in Attention. A measured value is one of a `Floats`,
--     which stands for doubles and Python's statistics. Corroboration calls the same Trend.
--   Jobs  Table is backend/app/infrastructure/repositories/reasoning_job_repository.py over the rows
--     in the order of insertion, with the primary key and the partial unique index; Worker is
--     `process_next` of application/reasoning_worker.py.
--   Investigations  backend/app/application/investigation_service.py: what an operator records about
--     a recommendation.
--   Guidance  backend/app/application: Condition is operational_state_engine.py, the rest
--     recommendation_engine.py (`recommend`) and notification_policy_engine.py (`notify`).
--   Outbox  backend/app/application: Events is events/domain_events.py with the payloads that the
--     services write and the reader of outbox_dispatcher.py, Integration integration_event_mapping.py,
--     Dispatcher the dispatch over the rows in the order of insertion, with the handlers of
--     events/event_bus.py and the publisher as parameters that may fail.
--   Inference  backend/simulator: Telemetry is inference/telemetry.py, Assembly the `SampleAssembler` of
--     inference_worker/assembly.py with the buffers as lists in the order of insertion, Events the
--     validation of inference_worker/events.py over the JSON values of Bridge.Input, Session the sessions of
--     inference/session.py over AlertPolicy.Machine, Worker the handling of one message in
--     inference_worker/worker.py, which joins Events, Assembly, Session and Bridge.Publish, Polling
--     its poll with the commits and the sweep. A value is one of `Readings`, which stands for doubles.
--   Prelude  tests on numbers, lists, sorting, membership, counts, texts, and Python's exceptions as a
--     result type.
--
-- Code that changes state takes and returns it: a store or a table. An exception is an `err`, and a
-- transaction that raises before its commit returns the store it began with. Times are numbers of
-- seconds, counts are natural numbers, confidence and weights are hundredths. The clock, fresh
-- identifiers, the order of identifiers in the database, `str`, the parsing of times, the broker, the
-- work of a job and the dispatch of the outbox are parameters. The loop of the publisher runs on fuel
-- and answers nothing where it runs out; every amount above `max_retries` is enough, and gives the same
-- answer. Times count from an origin far enough back that no window of corroboration begins before it. Of
-- a maximum score what is kept is whether it is between 0 and 1. The feature row (features/row.py) is a
-- parameter that may raise.
--
-- Not modelled: the offsets that the client of Kafka keeps, the poll loop of the reasoning bridge, the
-- computation of features, the explainable decision, the stages that write explanations, the API, the
-- database mappers, metrics and logs, the simulator's studies on numpy and pandas, the frontend.
pub mod Prelude
pub mod AlertPolicy
pub mod Engine
pub mod Bridge
pub mod Jobs
pub mod Investigations
pub mod Guidance
pub mod Outbox
pub mod Inference
