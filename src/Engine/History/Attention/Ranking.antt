-- ===== src/Engine/History/Attention/Ranking.antt =====
-- The order of the attention queue, and the run that each of its items tells of.
use odis.Engine.History.{PersistedReasoningRun, Repositories, list_runs}
use odis.Engine.History.Analyses.{OperationalSummary, summarize}
use odis.Engine.History.Attention.{
  AttentionItem, item_of, outranks, insert_ranked, sort_ranked, indexed_items, rank,
}
use odis.Prelude.{
  ℕ, suc, ◌+◌, ◌≡◌, ◌<◌, refl, sym, ◌⊎◌, inl, inr, Bool-cases, true, false, some, List, [], ◌∷◌,
  map, length, All, get_elem?, arith, ltb, ◌∙◌,
}
use odis.Prelude.Result.{ok, >>=-eq-ok, ok-injective}

abbrev Ranked : Type 0
Ranked = ℕ × AttentionItem

-- A greater score, or the same score and a later run.
abbrev pub Ahead : Ranked → Ranked → Type 0
Ahead (i, a) (j, b) =
    (b.attention_score < a.attention_score) ⊎ ((a.attention_score ≡ b.attention_score) × (j < i))

-- Each item is ahead of all behind it.
abbrev pub IsRanked : List Ranked → Type 0
IsRanked [] = Unit
IsRanked (a ∷ bs) = All (Ahead a) bs × IsRanked bs

Ahead-trans : (a b c : Ranked) → Ahead a b → Ahead b c → Ahead a c
Ahead-trans (i, a) (j, b) (k, c) (inl g) (inl h) = inl (omega (arith, g, h))
Ahead-trans (i, a) (j, b) (k, c) (inl g) (inr (e, h)) = inl (omega (arith, g, e))
Ahead-trans (i, a) (j, b) (k, c) (inr (d, g)) (inl h) = inl (omega (arith, d, h))
Ahead-trans (i, a) (j, b) (k, c) (inr (d, g)) (inr (e, h)) =
    inr (omega (arith, d, e), omega (arith, g, h))

All-Ahead : (a b : Ranked) (cs : List Ranked) → Ahead a b → All (Ahead b) cs → All (Ahead a) cs
All-Ahead a b [] h hs = tt
All-Ahead a b (c ∷ cs) h hs = (Ahead-trans a b c h hs.0, All-Ahead a b cs h hs.1)

outranks-Ahead : (a b : Ranked) → outranks a b ≡ true → Ahead a b
outranks-Ahead (i, a) (j, b) h = elim (Bool-cases (ltb b.attention_score a.attention_score)) [
  | inl e ↦ inl (ground (arith, e))
  | inr e ↦ inr (ground (arith, e, h), ground (arith, e, h))
]

-- An earlier run that does not outrank a later one is behind it.
outranked-Ahead : (a b : Ranked) → a.0 < b.0 → outranks a b ≡ false → Ahead b a
outranked-Ahead (i, a) (j, b) l h = elim (Bool-cases (ltb a.attention_score b.attention_score)) [
  | inl e ↦ inl (ground (arith, e))
  | inr e ↦ inr (ground (arith, e, l, h), l)
]

All-insert_ranked {κ} :
    (P : Ranked → Type κ) (a : Ranked) (bs : List Ranked)
    → P a
    → All P bs
    → All P (insert_ranked a bs)
unfolding insert_ranked
All-insert_ranked P a [] p ps = (p, tt)
All-insert_ranked P a (b ∷ bs) p ps = elim (Bool-cases (outranks a b)) [
  | inl e ↦ rw e (p, ps)
  | inr e ↦ rw e (ps.0, All-insert_ranked P a bs p ps.1)
]

All-sort_ranked {κ} : (P : Ranked → Type κ) (bs : List Ranked) → All P bs → All P (sort_ranked bs)
unfolding sort_ranked
All-sort_ranked P [] ps = tt
All-sort_ranked P (b ∷ bs) ps =
    All-insert_ranked P b (sort_ranked bs) ps.0 (All-sort_ranked P bs ps.1)

length-insert_ranked :
    (a : Ranked) (bs : List Ranked) → length (insert_ranked a bs) ≡ suc (length bs)
unfolding insert_ranked
length-insert_ranked a [] = refl
length-insert_ranked a (b ∷ bs) = elim (Bool-cases (outranks a b)) [
  | inl e ↦ rw e refl
  | inr e ↦ rw e (omega (arith, length-insert_ranked a bs))
]

length-sort_ranked : (bs : List Ranked) → length (sort_ranked bs) ≡ length bs
unfolding sort_ranked
length-sort_ranked [] = refl
length-sort_ranked (b ∷ bs) =
    omega (arith, length-insert_ranked b (sort_ranked bs), length-sort_ranked bs)

insert_ranked-IsRanked :
    (a : Ranked) (bs : List Ranked)
    → All (λ (b : Ranked). a.0 < b.0) bs
    → IsRanked bs
    → IsRanked (insert_ranked a bs)
unfolding insert_ranked
insert_ranked-IsRanked a [] l o = (tt, tt)
insert_ranked-IsRanked a (b ∷ bs) l o = elim (Bool-cases (outranks a b)) [
  | inl e ↦ let h = outranks-Ahead a b e in rw e ((h, All-Ahead a b bs h o.0), o)
  | inr e ↦ rw e (
    All-insert_ranked (Ahead b) a bs (outranked-Ahead a b l.0 e) o.0,
    insert_ranked-IsRanked a bs l.1 o.1,
  )
]

-- The runs come with increasing indices.
abbrev Increases : List Ranked → Type 0
Increases [] = Unit
Increases (a ∷ bs) = All (λ (b : Ranked). a.0 < b.0) bs × Increases bs

sort_ranked-IsRanked : (bs : List Ranked) → Increases bs → IsRanked (sort_ranked bs)
unfolding sort_ranked
sort_ranked-IsRanked [] l = tt
sort_ranked-IsRanked (b ∷ bs) l =
    insert_ranked-IsRanked b (sort_ranked bs) (All-sort_ranked (λ (c : Ranked). b.0 < c.0) bs l.0)
      (sort_ranked-IsRanked bs l.1)

module _ {Observation Context : Type 0} (repositories : Repositories Observation Context) where
  -- The item with index `first + j` is that of the run with index `j`.
  abbrev pub Tells : ℕ → List PersistedReasoningRun → Ranked → Type 0
  Tells first runs (i, item) =
      (j : ℕ) × (i ≡ j + first)
      × (run : PersistedReasoningRun) × (get_elem? runs j ≡ some run)
      × (summary : OperationalSummary) × (summarize repositories run.id ≡ ok summary)
      × (item ≡ item_of summary)

  later-Tells :
      (first : ℕ) (run : PersistedReasoningRun) (runs : List PersistedReasoningRun)
      (items : List Ranked)
      → All (Tells (suc first) runs) items
      → All (Tells first (run ∷ runs)) items × All (λ (b : Ranked). first < b.0) items
  later-Tells first run runs [] ts = (tt, tt)
  later-Tells first run runs ((i, item) ∷ items)
        ((j, e, run_of, found, summary, summarized, told_of), ts) =
      let (told, later) = later-Tells first run runs items ts in
      (
        ((suc j, omega (arith, e), run_of, found, summary, summarized, told_of), told),
        (omega (arith, e), later),
      )

  IsListed : ℕ → List PersistedReasoningRun → List Ranked → Type 0
  IsListed first runs items =
      All (Tells first runs) items × Increases items × (length items ≡ length runs)

  indexed_items-IsListed :
      (first : ℕ) (runs : List PersistedReasoningRun) (items : List Ranked)
      → indexed_items repositories first runs ≡ ok items
      → IsListed first runs items
  unfolding indexed_items IsListed
  indexed_items-IsListed first [] items h = rw (sym (ok-injective h)) (tt, tt, refl)
  indexed_items-IsListed first (run ∷ runs) items h =
      let (summary, summarized, more) = >>=-eq-ok (summarize repositories run.id) _ h in
      let (rest, listed, same) = >>=-eq-ok (indexed_items repositories (suc first) runs) _ more in
      let (tells, increases, counted) = indexed_items-IsListed (suc first) runs rest listed in
      let (told, later) = later-Tells first run runs rest tells in
      rw (sym (ok-injective same)) (
        ((0, omega arith, run, refl, summary, summarized, refl), told),
        (later, increases),
        omega (arith, counted),
      )

  -- The items are those of all runs of the history, each ahead of the items behind it.
  pub IsQueue : List AttentionItem → Type 0
  IsQueue items =
      (runs : List PersistedReasoningRun) × (list_runs repositories ≡ ok runs)
      × (ranked : List Ranked) × (items ≡ map (λ (pair : Ranked). pair.1) ranked)
      × IsRanked ranked
      × All (Tells 0 runs) ranked
      × (length ranked ≡ length runs)

  -- A queue that is returned has the item of each run of the history, a greater score first and, at equal
  -- scores, a later run first.
  pub rank-IsQueue : (items : List AttentionItem) → rank repositories ≡ ok items → IsQueue items
  unfolding rank IsListed IsQueue
  rank-IsQueue items h =
      let (runs, listed, more) = >>=-eq-ok (list_runs repositories) _ h in
      let (indexed, found, same) = >>=-eq-ok (indexed_items repositories 0 runs) _ more in
      let (tells, increases, counted) = indexed_items-IsListed 0 runs indexed found in
      (
        runs,
        listed,
        sort_ranked indexed,
        sym (ok-injective same),
        sort_ranked-IsRanked indexed increases,
        All-sort_ranked (Tells 0 runs) indexed tells,
        length-sort_ranked indexed ∙ counted,
      )
