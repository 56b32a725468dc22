-- ===== src/Outbox/Dispatcher/Outcome.antt =====
-- What a dispatch comes to: an exception, or no known row left; and the order of what it publishes.
use odis.Outbox.Events.{Formats, DomainEvent, deserialize_domain_event}
use odis.Outbox.Events.RoundTrip.{
  event_name, payload_of, IsFaithful, in_utc, deserialize-payload_of,
}
use odis.Outbox.Dispatcher.{
  OutboxEvent, Deployment, Progress, dispatch_rows, dispatch, commit_marks, mark, is_undispatched,
  undispatched, dispatched, is_named,
}
use odis.Outbox.Dispatcher.Advance.{undispatched-Mem}
use odis.Outbox.Dispatcher.Completion.{
  Works, IsReadable, IsSettled, IsSome, Mem-undispatched, raises, commit_marks-raised, quiet,
  dispatch_rows-Completes, mark-IsSettled, Completes, Reads,
}
use mathlib.Core.List.{Memᴰ}
use mathlib.Core.Path.{subst, ap₂}
use odis.Prelude.Membership.{All-Mem, Mem-All, Mem-any}
use odis.Prelude.{
  ℕ, ◌≡◌, refl, sym, ◌⊎◌, inl, inr, true, Option, none, some, List, ◌==◌, All, String, ◌∙◌, Bool,
  false, [], ◌∷◌, if◌then◌else◌, All-map,
}
use odis.Prelude.Text.{eq_refl}
use odis.Prelude.Result.{Error, err, ok}

-- Where a row that is not dispatched has a payload that cannot be read, the dispatch raises and no row
-- changes.
pub dispatch-unreadable :
    (formats : Formats) (deployment : Deployment formats) (now : ℕ)
    (table : List (OutboxEvent formats.Number)) (row : OutboxEvent formats.Number) (raised : Error)
    → Memᴰ row table
    → is_undispatched row ≡ true
    → deserialize_domain_event formats row.event_type row.payload ≡ err raised
    → IsSome (dispatch formats deployment now table).1.raised
      × ((dispatch formats deployment now table).0 ≡ table)
unfolding dispatch Reads
dispatch-unreadable formats deployment now table row raised m waits h =
    let ended =
      raises formats deployment (undispatched table) row raised (Mem-undispatched table m waits)
        h in
    (ended, commit_marks-raised formats deployment now table _ _ ended)

module _ (formats : Formats) (deployment : Deployment formats) (now : ℕ)
    (table : List (OutboxEvent formats.Number)) where
  open formats use {Number}

  abbrev run : Progress formats
  run = dispatch_rows formats deployment (undispatched table)

  readable : All (IsReadable formats) table → All (IsReadable formats) (undispatched table)
  readable hs =
      Mem-All (IsReadable formats) (undispatched table)
        λ row m. All-Mem (IsReadable formats) table hs (undispatched-Mem table m).0

  becomes-IsSettled :
      Works formats deployment
      → All (IsReadable formats) table
      → (row : OutboxEvent Number) → Memᴰ row table
      → (o : Option ℕ) → row.dispatched_at ≡ o
      → IsSettled formats row ⊎ (is_named run.cycle.done row ≡ true)
  unfolding Completes Reads
  becomes-IsSettled works hs row m (some t) e = inl (inl (t, e))
  becomes-IsSettled works hs row m none e =
      elim (dispatch_rows-Completes formats deployment works (undispatched table) (readable hs) row
        (Mem-undispatched table m (rw e refl))).1 [
          | inl unknown ↦ inl (inr unknown)
          | inr done ↦ inr (Mem-any (λ id. id == row.id) run.cycle.done done (eq_refl row.id))
        ]

-- Where no handler raises, the publisher confirms each integration event, where there is one, and each
-- row can be read, a dispatch raises nothing and leaves only rows that are dispatched or of a type that it does not know.
pub dispatch-IsSettled :
    (formats : Formats) (deployment : Deployment formats) (now : ℕ)
    (table : List (OutboxEvent formats.Number))
    → Works formats deployment
    → All (IsReadable formats) table
    → ((dispatch formats deployment now table).1.raised ≡ none)
      × All (IsSettled formats) (dispatch formats deployment now table).0
unfolding dispatch
dispatch-IsSettled formats deployment now table works hs =
    let still =
      quiet formats deployment works (undispatched table)
        (readable formats deployment now table hs) in
    (
      still,
      subst
          (λ r.
            All (IsSettled formats)
              (commit_marks formats now table (run formats deployment now table).cycle.done r))
          (sym still)
          (mark-IsSettled formats deployment now (run formats deployment now table).cycle.done table
            (Mem-All _ table λ row m.
              becomes-IsSettled formats deployment now table works hs row m row.dispatched_at
                refl)),
    )

-- A row that one of the services wrote, which is not dispatched yet or is.
abbrev pub IsWritten : (formats : Formats) → OutboxEvent formats.Number → Type 0
IsWritten formats row =
    (event : DomainEvent formats.Number) × (row.event_type ≡ event_name event)
    × (row.payload ≡ payload_of formats event)

written-reads :
    (formats : Formats)
    → IsFaithful formats
    → (row : OutboxEvent formats.Number) (w : IsWritten formats row)
    → deserialize_domain_event formats row.event_type row.payload ≡ ok (some (in_utc w.0))
written-reads formats laws row (event, e, d) =
    ap₂ (deserialize_domain_event formats) e d ∙ deserialize-payload_of formats laws event

is_dispatched :
    (formats : Formats)
    → IsFaithful formats
    → (row : OutboxEvent formats.Number) → IsWritten formats row
    → IsSettled formats row
    → IsSome row.dispatched_at
is_dispatched formats laws row w (inl done) = done
is_dispatched formats laws row w (inr unknown) =
    absurd (cc (unknown, written-reads formats laws row w))

mark-IsWritten :
    (formats : Formats) (ids : List String) (now : ℕ) (rows : List (OutboxEvent formats.Number))
    → All (IsWritten formats) rows
    → All (IsWritten formats) (mark ids now rows)
unfolding mark
mark-IsWritten formats ids now [] hs = tt
mark-IsWritten formats ids now (row ∷ rows) hs =
    (choose (is_named ids row), mark-IsWritten formats ids now rows hs.1)
  where
    choose : (b : Bool) → IsWritten formats (if b then dispatched now row else row)
    choose true = hs.0
    choose false = hs.0

commit_marks-IsWritten :
    (formats : Formats) (ids : List String) (now : ℕ) (rows : List (OutboxEvent formats.Number))
    (raised : Option Error)
    → All (IsWritten formats) rows
    → All (IsWritten formats) (commit_marks formats now rows ids raised)
commit_marks-IsWritten formats ids now rows none hs = mark-IsWritten formats ids now rows hs
commit_marks-IsWritten formats ids now rows (some _) hs = hs

-- Where no handler raises and the publisher, where there is one, confirms each integration event, a
-- dispatch leaves no row undispatched of those that the services wrote.
pub dispatch_complete :
    (formats : Formats) (deployment : Deployment formats) (now : ℕ)
    (table : List (OutboxEvent formats.Number))
    → IsFaithful formats
    → Works formats deployment
    → All (IsWritten formats) table
    → All (λ row. IsSome row.dispatched_at) (dispatch formats deployment now table).0
unfolding dispatch
dispatch_complete formats deployment now table laws works written = Mem-All _ after λ row m.
    is_dispatched formats laws row (All-Mem (IsWritten formats) after kept m)
      (All-Mem (IsSettled formats) after settled m)
  where
    after : List (OutboxEvent formats.Number)
    after = (dispatch formats deployment now table).0

    kept : All (IsWritten formats) after
    kept = commit_marks-IsWritten formats _ now table _ written

    settled : All (IsSettled formats) after
    settled =
        (dispatch-IsSettled formats deployment now table works (
          All-map (λ row w. (some (in_utc w.0), written-reads formats laws row w)) table written)).1
