-- ===== src/Outbox/Dispatcher/Completion.antt =====
-- When a dispatch raises, and when it leaves only rows of types that it does not know.
use odis.Outbox.Events.{Formats, DomainEvent, deserialize_domain_event}
use odis.Outbox.Integration.{IntegrationEvent}
use odis.Outbox.Dispatcher.{
  OutboxEvent, Deployment, Progress, Delivery, confirmed_delivery, send_made, after_bus,
  after_reading, dispatch_row, join, dispatch_rows, commit_marks, mark, is_undispatched,
  undispatched, dispatched, is_named, publish,
}
use mathlib.Core.Path.{subst}
use mathlib.Core.List.{Memᴰ}
use mathlib.Core.List.Memᴰ.{head, tail}
use odis.Prelude.Membership.{Mem-keep, append-Mem}
use odis.Prelude.Sort.{Mem-sort_on}
use odis.Prelude.{
  ◌≡◌, refl, ◌⊎◌, inl, inr, true, Option, some, List, [], ◌∷◌, ℕ, String, ap, none, sym, Bool, All,
  false, if◌then◌else◌,
}
use odis.Prelude.Result.{Error, Result, err, ok}

-- A row that waits is read.
pub Mem-undispatched :
    {Number : Type 0} {row : OutboxEvent Number} (table : List (OutboxEvent Number))
    → Memᴰ row table
    → is_undispatched row ≡ true
    → Memᴰ row (undispatched table)
unfolding undispatched
Mem-undispatched table m h = Mem-sort_on _ _ _ (Mem-keep is_undispatched table m h)

-- A value is there.
abbrev pub IsSome : {A : Type 0} → Option A → Type 0
IsSome {A} o = (a : A) × (o ≡ some a)

module _ (formats : Formats) where
  open formats use {Number}

  -- The row can be read: as an event, or as one of a type that is not known.
  abbrev pub IsReadable : OutboxEvent Number → Type 0
  IsReadable row =
      (o : Option (DomainEvent Number)) × (deserialize_domain_event formats row.event_type
          row.payload
        ≡ ok o)

  -- The row is dispatched, or its type is not known.
  abbrev pub IsSettled : OutboxEvent Number → Type 0
  IsSettled row =
      IsSome row.dispatched_at
      ⊎ (deserialize_domain_event formats row.event_type row.payload ≡ ok none)

module _ (formats : Formats) (deployment : Deployment formats) where
  open formats use {Number}

  unfoldable pub Reads : OutboxEvent Number → Result (Option (DomainEvent Number)) → Type 0
  Reads row r = deserialize_domain_event formats row.event_type row.payload ≡ r

  join-raised :
      (first : Progress formats) (r : Option Error) (rest : Progress formats)
      → first.raised ≡ r
      → IsSome r ⊎ IsSome rest.raised
      → IsSome (join formats first r rest).raised
  join-raised first (some raised) rest e h = (raised, e)
  join-raised first none rest e (inl (a, d)) = cc
  join-raised first none rest e (inr h) = h

  dispatch_row-raised :
      (row : OutboxEvent Number) (raised : Error)
      → Reads row (err raised)
      → IsSome (dispatch_row formats deployment row).raised
  unfolding dispatch_row Reads
  dispatch_row-raised row raised h =
      (raised, ap (λ r. (after_reading formats deployment row r).raised) h)

  pub raises :
      (rows : List (OutboxEvent Number)) (row : OutboxEvent Number) (raised : Error)
      → Memᴰ row rows
      → Reads row (err raised)
      → IsSome (dispatch_rows formats deployment rows).raised
  unfolding dispatch_rows
  raises [] row raised m h = elim m [ ]
  raises (other ∷ rows) row raised (head e) h =
      join-raised (dispatch_row formats deployment other) _ (dispatch_rows formats deployment rows)
        refl (inl (dispatch_row-raised other raised (subst (λ r. Reads r (err raised)) e h)))
  raises (other ∷ rows) row raised (tail m) h =
      join-raised (dispatch_row formats deployment other) _ (dispatch_rows formats deployment rows)
        refl (inr (raises rows row raised m h))

  pub commit_marks-raised :
      (now : ℕ) (table : List (OutboxEvent Number)) (done : List String) (raised : Option Error)
      → IsSome raised
      → commit_marks formats now table done raised ≡ table
  commit_marks-raised now table done (some _) h = refl
  commit_marks-raised now table done none (a, e) = cc

  -- What the deployment promises of every event: no handler raises, and the publisher, where there is
  -- one, confirms.
  pub record Works : Type 0 where
    pub handles : (event : DomainEvent Number) → publish deployment.handlers event ≡ ok tt
    pub confirms :
        (send : IntegrationEvent Number → Delivery) (made : IntegrationEvent Number)
        → deployment.publisher ≡ some send
        → send made ≡ confirmed_delivery

  send_made-true :
      (publisher : Option (IntegrationEvent Number → Delivery))
      (made : Option (IntegrationEvent Number))
      → ((send : IntegrationEvent Number → Delivery) (m : IntegrationEvent Number)
          → publisher ≡ some send
          → send m ≡ confirmed_delivery)
      → (send_made formats publisher made).1 ≡ true
  send_made-true none made h = refl
  send_made-true (some send) none h = refl
  send_made-true (some send) (some made) h = rw (h send made refl) refl

  -- What a turn over a row does where all works: it raises nothing, and it marks the row, unless its
  -- type is not known.
  unfoldable pub Completes : OutboxEvent Number → Progress formats → Type 0
  Completes row run = (run.raised ≡ none) × (Reads row (ok none) ⊎ Memᴰ row.id run.cycle.done)

  after_bus-Completes :
      (row : OutboxEvent Number) (event : DomainEvent Number)
      (leg : List (IntegrationEvent Number) × Bool)
      → leg.1 ≡ true
      → (r : Result (Unit {0})) → r ≡ ok tt
      → Completes row (after_bus formats row event leg r)
  unfolding Completes
  after_bus-Completes row event leg h (err raised) e = cc
  after_bus-Completes row event leg h (ok _) e = (refl, inr (rw h (head refl)))

  after_reading-Completes :
      Works
      → (row : OutboxEvent Number) (o : Option (DomainEvent Number)) → Reads row (ok o)
      → Completes row (after_reading formats deployment row (ok o))
  unfolding Completes
  after_reading-Completes works row none h = (refl, inl h)
  after_reading-Completes works row (some event) h =
      after_bus-Completes row event _
        (send_made-true deployment.publisher _ λ send m e. works.confirms send m e) _
        (works.handles event)

  dispatch_row-Completes :
      Works
      → (row : OutboxEvent Number) → (IsReadable formats) row
      → Completes row (dispatch_row formats deployment row)
  unfolding dispatch_row Reads
  dispatch_row-Completes works row (o, h) =
      subst (λ r. Completes row (after_reading formats deployment row r)) (sym h)
        (after_reading-Completes works row o h)

  weaken :
      (row : OutboxEvent Number) (some_done all_done : List String)
      → (Memᴰ row.id some_done → Memᴰ row.id all_done)
      → Reads row (ok none) ⊎ Memᴰ row.id some_done
      → Reads row (ok none) ⊎ Memᴰ row.id all_done
  weaken row some_done all_done f (inl h) = inl h
  weaken row some_done all_done f (inr m) = inr (f m)

  join-Completes :
      (row : OutboxEvent Number) (first : Progress formats) (r : Option Error)
      (rest : Progress formats)
      → r ≡ none
      → rest.raised ≡ none
      → Completes row first ⊎ Completes row rest
      → Completes row (join formats first r rest)
  unfolding Completes
  join-Completes row first (some _) rest e h c = cc
  join-Completes row first none rest e h (inl c) =
      (h, weaken row _ _ (λ m. append-Mem first.cycle.done rest.cycle.done (inl m)) c.1)
  join-Completes row first none rest e h (inr c) =
      (h, weaken row _ _ (λ m. append-Mem first.cycle.done rest.cycle.done (inr m)) c.1)

  join-quiet :
      (first : Progress formats) (r : Option Error) (rest : Progress formats)
      → r ≡ none
      → rest.raised ≡ none
      → (join formats first r rest).raised ≡ none
  join-quiet first (some _) rest e h = cc
  join-quiet first none rest e h = h

  pub quiet :
      Works
      → (rows : List (OutboxEvent Number)) → All (IsReadable formats) rows
      → (dispatch_rows formats deployment rows).raised ≡ none
  unfolding dispatch_rows Completes
  quiet works [] hs = refl
  quiet works (row ∷ rows) hs =
      join-quiet (dispatch_row formats deployment row) _ (dispatch_rows formats deployment rows)
        (dispatch_row-Completes works row hs.0).0 (quiet works rows hs.1)

  pub dispatch_rows-Completes :
      Works
      → (rows : List (OutboxEvent Number)) → All (IsReadable formats) rows
      → (row : OutboxEvent Number) → Memᴰ row rows
      → Completes row (dispatch_rows formats deployment rows)
  unfolding dispatch_rows Completes
  dispatch_rows-Completes works [] hs row m = elim m [ ]
  dispatch_rows-Completes works (other ∷ rows) hs row (head e) =
      join-Completes row (dispatch_row formats deployment other) _
        (dispatch_rows formats deployment rows) (dispatch_row-Completes works other hs.0).0
        (quiet works rows hs.1)
        (inl (
          subst (λ r. Completes r (dispatch_row formats deployment other)) (sym e)
            (dispatch_row-Completes works other hs.0)))
  dispatch_rows-Completes works (other ∷ rows) hs row (tail m) =
      join-Completes row (dispatch_row formats deployment other) _
        (dispatch_rows formats deployment rows) (dispatch_row-Completes works other hs.0).0
        (quiet works rows hs.1) (inr (dispatch_rows-Completes works rows hs.1 row m))

  settle :
      (now : ℕ) (row : OutboxEvent Number) (b : Bool)
      → (IsSettled formats) row ⊎ (b ≡ true)
      → (IsSettled formats) (if b then dispatched now row else row)
  settle now row true h = inl (now, refl)
  settle now row false (inl h) = h
  settle now row false (inr e) = cc

  pub mark-IsSettled :
      (now : ℕ) (ids : List String) (rows : List (OutboxEvent Number))
      → All (λ row. (IsSettled formats) row ⊎ (is_named ids row ≡ true)) rows
      → All (IsSettled formats) (mark ids now rows)
  unfolding mark
  mark-IsSettled now ids [] hs = tt
  mark-IsSettled now ids (row ∷ rows) hs =
      (settle now row (is_named ids row) hs.0, mark-IsSettled now ids rows hs.1)
