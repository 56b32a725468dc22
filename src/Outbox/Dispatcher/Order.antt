-- ===== src/Outbox/Dispatcher/Order.antt =====
-- In which order a dispatch hands events to the event bus.
use odis.Outbox.Events.{Formats, DomainEvent, deserialize_domain_event}
use odis.Outbox.Dispatcher.{
  OutboxEvent, Deployment, Progress, after_bus, after_reading, dispatch_row, join, dispatch_rows,
  dispatch, undispatched,
}
use odis.Outbox.Dispatcher.Completion.{IsSome}
use mathlib.Core.Path.{subst}
use odis.Prelude.Sort.{IsOrdered, sort_on-IsOrdered}
use odis.Prelude.{
  ℕ, ◌≡◌, refl, ap, ◌∙◌, ◌⊎◌, inl, inr, Option, none, some, List, [], ◌∷◌, ◌++◌, all, append_assoc,
}
use odis.Prelude.Result.{Result, Error, err, ok}

module _ {A : Type 0} where
  abbrev event_of : Result (Option A) → List A
  event_of (ok (some event)) = event ∷ []
  event_of _ = []

  append_nil : (xs : List A) → xs ++ [] ≡ xs
  append_nil [] = refl
  append_nil (x ∷ xs) = ap (◌∷◌ x) (append_nil xs)

module _ (formats : Formats) where
  open formats use {Number}

  -- The events of the rows that are read as one, in the order of the rows.
  abbrev pub events_in : List (OutboxEvent Number) → List (DomainEvent Number)
  events_in [] = []
  events_in (row ∷ rows) =
      event_of (deserialize_domain_event formats row.event_type row.payload) ++ events_in rows

  module _ (deployment : Deployment formats) where
    after_bus-published :
        (row : OutboxEvent Number) (event : DomainEvent Number) (leg : _) (r : Result (Unit {0}))
        → (after_bus formats row event leg r).cycle.published ≡ event ∷ []
    after_bus-published row event leg (err _) = refl
    after_bus-published row event leg (ok _) = refl

    after_reading-published :
        (row : OutboxEvent Number) (r : Result (Option (DomainEvent Number)))
        → (after_reading formats deployment row r).cycle.published ≡ event_of r
    after_reading-published row (err _) = refl
    after_reading-published row (ok none) = refl
    after_reading-published row (ok (some event)) = after_bus-published row event _ _

    -- `published` comes first in `all`, and is all of it unless the run raised.
    Leads : Progress formats → List (DomainEvent Number) → Type 0
    Leads run all =
        (rest : List (DomainEvent Number)) × (run.cycle.published ++ rest ≡ all)
        × ((rest ≡ []) ⊎ IsSome run.raised)

    join-Leads :
        (first : Progress formats) (r : Option Error) (rest : Progress formats)
        (events : List (DomainEvent Number))
        → first.raised ≡ r
        → Leads rest events
        → Leads (join formats first r rest) (first.cycle.published ++ events)
    unfolding Leads
    join-Leads first (some raised) rest events e l = (events, refl, inr (raised, e))
    join-Leads first none rest events e (more, h, q) =
        (more, append_assoc first.cycle.published _ more ∙ ap (◌++◌ first.cycle.published) h, q)

    dispatch_rows-Leads :
        (rows : List (OutboxEvent Number))
        → Leads (dispatch_rows formats deployment rows) (events_in rows)
    unfolding Leads dispatch_rows dispatch_row
    dispatch_rows-Leads [] = ([], refl, inl refl)
    dispatch_rows-Leads (row ∷ rows) =
        subst (λ l. Leads (dispatch_rows formats deployment (row ∷ rows)) (l ++ events_in rows))
          (after_reading-published row _)
          (join-Leads (dispatch_row formats deployment row) _
            (dispatch_rows formats deployment rows) (events_in rows) refl
            (dispatch_rows-Leads rows))

-- A dispatch reads the rows that are not dispatched in the order in which they were created, and hands
-- the events of those rows to the bus in that order: all of them, or as many as come before it raises.
pub dispatch-order :
    (formats : Formats) (deployment : Deployment formats) (now : ℕ)
    (table : List (OutboxEvent formats.Number))
    → IsOrdered (λ row. row.created_at) (undispatched table)
      × (rest : List (DomainEvent formats.Number)) × ((dispatch formats deployment now
              table).1.cycle.published
            ++ rest
          ≡ events_in formats (undispatched table))
      × ((rest ≡ []) ⊎ IsSome (dispatch formats deployment now table).1.raised)
unfolding dispatch Leads undispatched
dispatch-order formats deployment now table =
    let (rest, before, ends) = dispatch_rows-Leads formats deployment (undispatched table) in
    (sort_on-IsOrdered _ _, rest, before, ends)
