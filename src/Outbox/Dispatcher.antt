-- ===== src/Outbox/Dispatcher.antt =====
-- backend/app/application/outbox_dispatcher.py, `OutboxDispatcher`, over the rows of domain/outbox.py in
-- the order they were inserted, and the handlers of events/event_bus.py. A unit of work that raises is
-- rolled back. Rows created at the same time are read in the order they were inserted. `new_id` gives
-- the identifier that `uuid4` returns for a row.
pub mod Safety
pub mod Advance
pub mod Completion
pub mod Outcome
pub mod Order
use odis.Outbox.Events.{Formats, DomainEvent, deserialize_domain_event}
use odis.Outbox.Events.RoundTrip.{event_name}
use odis.Outbox.Integration.{IntegrationEvent, map_domain_event_to_integration_event}
use odis.Bridge.Input.{Fields}
use odis.Prelude.Sort.{sort_on}
use odis.Prelude.{
  ℕ, String, Bool, true, false, Option, none, some, List, [], ◌∷◌, ◌++◌, ◌==◌, if◌then◌else◌, keep,
  any,
}
use odis.Prelude.Result.{Result, err, Error, ok, ◌>>◌}

pub record OutboxEvent (Number : Type 0) : Type 0 where
  pub id : String
  pub event_type : String
  pub payload : Fields Number
  pub created_at : ℕ
  pub dispatched_at : Option ℕ

-- What a publisher's call does: it says whether the delivery is confirmed, or it raises.
pub data Delivery : Type 0 where
  confirmed_delivery failed_delivery raised_delivery : Delivery

abbrev pub is_confirmed : Delivery → Bool
is_confirmed confirmed_delivery = true
is_confirmed _ = false

module _ {Number : Type 0} where
  abbrev pub is_undispatched : OutboxEvent Number → Bool
  is_undispatched row = elim row.dispatched_at [ none ↦ true | some _ ↦ false ]

  -- `SELECT ... WHERE dispatched_at IS NULL ORDER BY created_at`
  unfoldable pub undispatched : List (OutboxEvent Number) → List (OutboxEvent Number)
  undispatched table = sort_on (λ row. row.created_at) (keep is_undispatched table)

  abbrev pub dispatched : ℕ → OutboxEvent Number → OutboxEvent Number
  dispatched now row = record {
    id = row.id;
    event_type = row.event_type;
    payload = row.payload;
    created_at = row.created_at;
    dispatched_at = some now;
  }

  abbrev pub is_named : List String → OutboxEvent Number → Bool
  is_named ids row = any (λ id. id == row.id) ids

  -- `row.dispatched_at = now` for the rows with these identifiers
  unfoldable pub mark : List String → ℕ → List (OutboxEvent Number) → List (OutboxEvent Number)
  mark ids now [] = []
  mark ids now (row ∷ rows) =
      (if is_named ids row then dispatched now row else row) ∷ mark ids now rows

-- A handler of the event bus: the name of the type of event that it is registered for, and its call.
pub record Handler (Number : Type 0) : Type 0 where
  pub subscribed_to : String
  pub handle : DomainEvent Number → Result (Unit {0})

-- `DomainEventBus.publish`: the handlers of the event's type in the order of their registration.
unfoldable pub publish :
    {Number : Type 0} → List (Handler Number) → DomainEvent Number → Result (Unit {0})
publish [] event = ok tt
publish (handler ∷ handlers) event =
    let rest = publish handlers event in
    if handler.subscribed_to == event_name event then handler.handle event >> rest else rest

-- What one cycle did: the events handed to the bus, the integration events handed to the publisher, and
-- the identifiers of the rows that it marks.
pub record Cycle (Number : Type 0) : Type 0 where
  pub published : List (DomainEvent Number)
  pub sent : List (IntegrationEvent Number)
  pub done : List String

module _ (formats : Formats) where
  open formats use {Number}

  pub record Deployment : Type 0 where
    pub handlers : List (Handler Number)
    pub publisher : Option (IntegrationEvent Number → Delivery)
    pub new_id : OutboxEvent Number → String

  -- What the loop did so far, with the exception that ended it, where one did.
  pub record Progress : Type 0 where
    pub cycle : Cycle Number
    pub raised : Option Error

  abbrev pub progress :
      List (DomainEvent Number)
      → List (IntegrationEvent Number)
      → List String
      → Option Error
      → Progress
  progress published sent done raised = record {
    cycle = record { published = published; sent = sent; done = done };
    raised = raised;
  }

  -- The two early returns of `_publish_integration_event`, and its call of the publisher.
  abbrev pub send_made :
      Option (IntegrationEvent Number → Delivery)
      → Option (IntegrationEvent Number)
      → List (IntegrationEvent Number) × Bool
  send_made none made = ([], true)
  send_made (some send) none = ([], true)
  send_made (some send) (some made) = (made ∷ [], is_confirmed (send made))

  -- `_publish_integration_event`, with what it sent: a publisher that raises has not delivered.
  abbrev pub publish_integration_event :
      Deployment → OutboxEvent Number → DomainEvent Number → List (IntegrationEvent Number) × Bool
  publish_integration_event deployment row event =
      send_made deployment.publisher
        (map_domain_event_to_integration_event formats (deployment.new_id row) event)

  -- The turn of the loop behind the event bus.
  abbrev pub after_bus :
      OutboxEvent Number
      → DomainEvent Number
      → List (IntegrationEvent Number) × Bool
      → Result (Unit {0})
      → Progress
  after_bus row event leg (err raised) = progress (event ∷ []) [] [] (some raised)
  after_bus row event (sent, delivered) (ok _) =
      progress (event ∷ []) sent (if delivered then row.id ∷ [] else []) none

  -- The turn of the loop behind the reading of the payload.
  abbrev pub after_reading :
      Deployment → OutboxEvent Number → Result (Option (DomainEvent Number)) → Progress
  after_reading deployment row (err raised) = progress [] [] [] (some raised)
  after_reading deployment row (ok none) = progress [] [] [] none
  after_reading deployment row (ok (some event)) =
      after_bus row event (publish_integration_event deployment row event)
        (publish deployment.handlers event)

  -- One turn of the loop of `dispatch`.
  unfoldable pub dispatch_row : Deployment → OutboxEvent Number → Progress
  dispatch_row deployment row =
      after_reading deployment row (deserialize_domain_event formats row.event_type row.payload)

  -- The exception that a turn raised ends the loop.
  abbrev pub join : Progress → Option Error → Progress → Progress
  join first (some raised) rest = first
  join first none rest =
      progress (first.cycle.published ++ rest.cycle.published) (first.cycle.sent ++ rest.cycle.sent)
        (first.cycle.done ++ rest.cycle.done) rest.raised

  unfoldable pub dispatch_rows : Deployment → List (OutboxEvent Number) → Progress
  unfolding dispatch_row
  dispatch_rows deployment [] = progress [] [] [] none
  dispatch_rows deployment (row ∷ rows) =
      let first = dispatch_row deployment row in
      join first first.raised (dispatch_rows deployment rows)

  -- What is committed at the end of the loop, where none raised.
  abbrev pub commit_marks :
      ℕ → List (OutboxEvent Number) → List String → Option Error → List (OutboxEvent Number)
  commit_marks now table done (some raised) = table
  commit_marks now table done none = mark done now table

  -- `dispatch`: the rows behind it, and what it did.
  unfoldable pub dispatch :
      Deployment → ℕ → List (OutboxEvent Number) → List (OutboxEvent Number) × Progress
  dispatch deployment now table =
      let run = dispatch_rows deployment (undispatched table) in
      (commit_marks now table run.cycle.done run.raised, run)
