-- ===== src/Outbox/Dispatcher/Advance.antt =====
-- The rows behind a dispatch beside the rows before it.
use odis.Outbox.Events.{Formats}
use odis.Outbox.Dispatcher.{
  OutboxEvent, Deployment, dispatch_rows, dispatch, commit_marks, mark, is_undispatched,
  undispatched, dispatched, is_named,
}
use odis.Outbox.Dispatcher.Safety.{IsDelivered, dispatch_rows-done}
use mathlib.Core.List.{Memᴰ}
use mathlib.Core.List.Memᴰ.{head, tail}
use mathlib.Core.Path.{subst}
use odis.Prelude.Membership.{All-Mem, Mem-All, any-Mem, keep-Mem, Mem-unique}
use odis.Prelude.Sort.{All-sort_on}
use odis.Prelude.Count.{count}
use odis.Prelude.{
  ℕ, ◌≤◌, String, ◌≡◌, refl, ◌⊎◌, inl, inr, Bool, true, false, Option, none, some, List, [], ◌∷◌,
  ◌==◌, if◌then◌else◌, keep,
}
use odis.Prelude.Result.{Error}
use odis.Prelude.Text.{eq_refl}

-- A relation between the elements of two lists of one length, place by place.
abbrev pub Pairwise : {A : Type 0} → (A → A → Type 0) → List A → List A → Type 0
Pairwise R [] [] = Unit
Pairwise R (x ∷ xs) (y ∷ ys) = R x y × Pairwise R xs ys
Pairwise R _ _ = ⊥

-- The primary key: no two rows share an identifier.
abbrev pub IsKeyed : {Number : Type 0} → List (OutboxEvent Number) → Type 0
IsKeyed {Number} table =
    (row : OutboxEvent Number) → Memᴰ row table → count (λ r. r.id == row.id) table ≤ 1

-- The rows read are undispatched rows of the table.
pub undispatched-Mem :
    {Number : Type 0} {row : OutboxEvent Number} (table : List (OutboxEvent Number))
    → Memᴰ row (undispatched table)
    → Memᴰ row table × (is_undispatched row ≡ true)
unfolding undispatched
undispatched-Mem table m =
    All-Mem (λ r. Memᴰ r table × (is_undispatched r ≡ true)) (undispatched table)
      (All-sort_on _ _ (keep is_undispatched table)
        (Mem-All _ _ λ r n. keep-Mem is_undispatched table n))
      m

module _ (formats : Formats) (deployment : Deployment formats) (now : ℕ) where
  open formats use {Number}

  -- A row stays as it is, or it was undispatched and delivered, and is marked with the time.
  abbrev pub Advances : OutboxEvent Number → OutboxEvent Number → Type 0
  Advances row next =
      (next ≡ row)
      ⊎ ((is_undispatched row ≡ true)
          × IsDelivered formats deployment row
          × (next ≡ dispatched now row))

  module _ (table : List (OutboxEvent Number)) (keyed : IsKeyed table) where
    abbrev ids : List String
    ids = (dispatch_rows formats deployment (undispatched table)).cycle.done

    marked :
        (row : OutboxEvent Number)
        → Memᴰ row table
        → (b : Bool) → is_named ids row ≡ b
        → Advances row (if b then dispatched now row else row)
    marked row m false e = inl refl
    marked row m true e =
        let (id, n, same) = any-Mem (λ id. id == row.id) ids e in
        let (other, read, named, delivered) = dispatch_rows-done formats deployment _ id n in
        let (there, waits) = undispatched-Mem table read in
        let found =
          Mem-unique (λ r. r.id == row.id) table (keyed row m) there (rw named at same) m
            (eq_refl row.id) in
        inr (
          subst (λ r. is_undispatched r ≡ true) found waits,
          subst (IsDelivered formats deployment) found delivered,
          refl,
        )

    mark-Advances :
        (rows : List (OutboxEvent Number))
        → ((row : OutboxEvent Number) → Memᴰ row rows → Memᴰ row table)
        → Pairwise Advances rows (mark ids now rows)
    unfolding mark
    mark-Advances [] within = tt
    mark-Advances (row ∷ rows) within = (
      marked row (within row (head refl)) (is_named ids row) refl,
      mark-Advances rows λ r m. within r (tail m),
    )

    same-Advances : (rows : List (OutboxEvent Number)) → Pairwise Advances rows rows
    same-Advances [] = tt
    same-Advances (row ∷ rows) = (inl refl, same-Advances rows)

    commit_marks-Advances :
        (raised : Option Error)
        → Pairwise Advances table (commit_marks formats now table ids raised)
    commit_marks-Advances (some raised) = same-Advances table
    commit_marks-Advances none = mark-Advances table λ r m. m

-- In a table without two rows of one identifier a dispatch keeps every row in its place. It changes only
-- undispatched rows, each to be marked with the time, and only where the row was delivered: its payload
-- was read, each handler of its type returned, and the publisher, where there is one and the event has an
-- integration event, confirmed it.
pub dispatch-Advances :
    (formats : Formats) (deployment : Deployment formats) (now : ℕ)
    (table : List (OutboxEvent formats.Number))
    → IsKeyed table
    → Pairwise (Advances formats deployment now) table (dispatch formats deployment now table).0
unfolding dispatch
dispatch-Advances formats deployment now table keyed =
    commit_marks-Advances formats deployment now table keyed
      (dispatch_rows formats deployment (undispatched table)).raised
