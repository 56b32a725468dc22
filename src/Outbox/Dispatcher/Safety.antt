-- ===== src/Outbox/Dispatcher/Safety.antt =====
-- What a dispatch does to the rows: each stays, and is marked only behind its delivery.
use odis.Outbox.Events.{Formats, DomainEvent, deserialize_domain_event}
use odis.Outbox.Integration.{IntegrationEvent, map_domain_event_to_integration_event}
use odis.Outbox.Dispatcher.{
  OutboxEvent, Deployment, Progress, publish, publish_integration_event, dispatch_row,
  dispatch_rows, confirmed_delivery, failed_delivery, raised_delivery, join, Delivery, is_confirmed,
  after_reading, send_made, after_bus,
}
use mathlib.Core.List.{Memᴰ}
use mathlib.Core.Path.{ap₂}
use mathlib.Core.List.Memᴰ.{head, tail}
use odis.Prelude.Membership.{Mem-append}
use odis.Prelude.{
  ◌≡◌, refl, true, some, String, Bool, false, Option, none, List, [], ◌∷◌, if◌then◌else◌, sym, ◌∙◌,
  ◌⊎◌, inl, inr,
}
use odis.Prelude.Result.{ok, Result, err, Error}

module _ (formats : Formats) (deployment : Deployment formats) where
  open formats use {Number}

  -- The row's payload was read as an event, each handler of its type returned, and the publisher, where
  -- there is one and the event has an integration event, confirmed its delivery.
  pub record IsDelivered (row : OutboxEvent Number) : Type 0 where
    pub event : DomainEvent Number
    pub reads : deserialize_domain_event formats row.event_type row.payload ≡ ok (some event)
    pub handled : publish deployment.handlers event ≡ ok tt
    pub confirms :
        (send : _) (made : IntegrationEvent Number)
        → deployment.publisher ≡ some send
        → map_domain_event_to_integration_event formats (deployment.new_id row) event ≡ some made
        → send made ≡ confirmed_delivery

  confirmed-true : (d : Delivery) → is_confirmed d ≡ true → d ≡ confirmed_delivery
  confirmed-true confirmed_delivery h = refl
  confirmed-true failed_delivery h = cc
  confirmed-true raised_delivery h = cc

  -- What one turn of the loop marks.
  Marks : OutboxEvent Number → List String → Type 0
  Marks row ids = (id : String) → Memᴰ id ids → (id ≡ row.id) × IsDelivered row

  sent-Marks :
      (row : OutboxEvent Number) (event : DomainEvent Number)
      → deserialize_domain_event formats row.event_type row.payload ≡ ok (some event)
      → publish deployment.handlers event ≡ ok tt
      → (delivered : Bool) → (publish_integration_event formats deployment row event).1 ≡ delivered
      → Marks row (if delivered then row.id ∷ [] else [])
  unfolding Marks
  sent-Marks row event reads handled false h id m = elim m [ ]
  sent-Marks row event reads handled true h id (tail m) = elim m [ ]
  sent-Marks row event reads handled true h id (head e) = (
    e,
    record {
      event = event;
      reads = reads;
      handled = handled;
      confirms = λ send made s m.
          confirmed-true (send made) (sym (ap₂ (λ a b. (send_made formats a b).1) s m) ∙ h);
    },
  )

  after_bus-Marks :
      (row : OutboxEvent Number) (event : DomainEvent Number)
      → deserialize_domain_event formats row.event_type row.payload ≡ ok (some event)
      → (r : Result (Unit {0})) → publish deployment.handlers event ≡ r
      → Marks row
          (after_bus formats row event
            (publish_integration_event formats deployment row event)
            r).cycle.done
  unfolding Marks
  after_bus-Marks row event reads (err raised) h id m = elim m [ ]
  after_bus-Marks row event reads (ok _) h id m = sent-Marks row event reads h _ refl id m

  after_reading-Marks :
      (row : OutboxEvent Number) (r : Result (Option (DomainEvent Number)))
      → deserialize_domain_event formats row.event_type row.payload ≡ r
      → Marks row (after_reading formats deployment row r).cycle.done
  unfolding Marks
  after_reading-Marks row (err raised) h id m = elim m [ ]
  after_reading-Marks row (ok none) h id m = elim m [ ]
  after_reading-Marks row (ok (some event)) h id m =
      after_bus-Marks row event h (publish deployment.handlers event) refl id m

  dispatch_row-done :
      (row : OutboxEvent Number) → Marks row (dispatch_row formats deployment row).cycle.done
  unfolding dispatch_row
  dispatch_row-done row = after_reading-Marks row _ refl

  join-done :
      (first : Progress formats) (r : Option Error) (rest : Progress formats) (id : String)
      → Memᴰ id (join formats first r rest).cycle.done
      → Memᴰ id first.cycle.done ⊎ Memᴰ id rest.cycle.done
  join-done first (some raised) rest id m = inl m
  join-done first none rest id m = Mem-append first.cycle.done rest.cycle.done m

  -- Each identifier that the loop marks is that of a row of it that was delivered.
  pub dispatch_rows-done :
      (rows : List (OutboxEvent Number)) (id : String)
      → Memᴰ id (dispatch_rows formats deployment rows).cycle.done
      → (row : OutboxEvent Number) × Memᴰ row rows × (id ≡ row.id) × IsDelivered row
  unfolding dispatch_rows Marks
  dispatch_rows-done [] id m = elim m [ ]
  dispatch_rows-done (row ∷ rows) id m =
      elim (join-done (dispatch_row formats deployment row) _
        (dispatch_rows formats deployment rows) id m) [
          | inl a ↦ let (e, d) = dispatch_row-done row id a in (row, head refl, e, d)
          | inr b ↦ let (other, n, e, d) = dispatch_rows-done rows id b in (other, tail n, e, d)
        ]
