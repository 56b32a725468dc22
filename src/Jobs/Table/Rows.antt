-- ===== src/Jobs/Table/Rows.antt =====
-- What an update of one row does to the number of rows that pass a test.
use odis.Jobs.Table.{
  ReasoningJob, Table, find_row, update_rows, oldest_pending, is_pending, older, has_id,
}
use mathlib.Core.List.{Memᴰ}
use mathlib.Core.List.Memᴰ.{head, tail}
use odis.Prelude.Membership.{Mem-count}
use odis.Prelude.Count.{count, bit}
use odis.Prelude.{
  ◌+◌, ◌≤◌, String, ◌≡◌, refl, Bool, true, some, [], ◌∷◌, arith, ◌==◌, ap, inl, inr, sym,
  if-eq-some, Option, none, leb, Bool-cases, some-injective, false, if◌then◌else◌, ◌++◌, ◌∙◌,
}
use odis.Prelude.Text.{eq_refl}

pub find_row-id :
    (id : String) (t : Table) (j : ReasoningJob) → find_row id t ≡ some j → (j.id == id) ≡ true
find_row-id id [] j h = cc
find_row-id id (k ∷ ks) j h = ground (arith, find_row-id id ks j)

-- Where a test holds of no row, an update by it changes none.
pub update_rows-none :
    (test : ReasoningJob → Bool) (f : ReasoningJob → ReasoningJob) (t : Table)
    → count test t ≡ 0
    → update_rows test f t ≡ t
update_rows-none test f [] h = refl
update_rows-none test f (k ∷ ks) h = ground (arith, update_rows-none test f ks)

-- The update of the one row that passes `test`: each count changes by what that row contributes.
pub count-update :
    (p test : ReasoningJob → Bool) (f : ReasoningJob → ReasoningJob) (t : Table) (j : ReasoningJob)
    → count test t ≤ 1
    → Memᴰ j t
    → test j ≡ true
    → count p (update_rows test f t) + bit (p j) ≡ count p t + bit (p (f j))
count-update p test f [] j c m h = elim m [ ]
count-update p test f (k ∷ ks) j c (head e) h = grind (
  arith,
  ap test e,
  ap p e,
  ap (λ (x : ReasoningJob). p (f x)) e,
  ap (count p) (update_rows-none test f ks (grind (arith, ap test e))),
)
count-update p test f (k ∷ ks) j c (tail m) h =
    grind (arith, Mem-count test ks m h, count-update p test f ks j (omega arith) m h)

pub find_row-Mem : (id : String) (t : Table) (j : ReasoningJob) → find_row id t ≡ some j → Memᴰ j t
find_row-Mem id [] j h = cc
find_row-Mem id (k ∷ ks) j h = elim (if-eq-some (k.id == id) k (find_row id ks) h) [
  | inl (e, q) ↦ head (sym q)
  | inr (e, q) ↦ tail (find_row-Mem id ks j q)
]

-- An update that keeps what `p` says of each row it changes keeps the count.
pub count-same :
    (p test : ReasoningJob → Bool) (f : ReasoningJob → ReasoningJob) (t : Table)
    → ((j : ReasoningJob) → test j ≡ true → p (f j) ≡ p j)
    → count p (update_rows test f t) ≡ count p t
count-same p test f [] same = refl
count-same p test f (k ∷ ks) same = ground (arith, same k, count-same p test f ks same)

older-Mem :
    (k : ReasoningJob) (ks : Table) (r : Option ReasoningJob)
    → is_pending k.status ≡ true
    → ((x : ReasoningJob) → r ≡ some x → Memᴰ x ks × (is_pending x.status ≡ true))
    → Memᴰ (older k r) (k ∷ ks) × (is_pending (older k r).status ≡ true)
older-Mem k ks none e rest = (head refl, e)
older-Mem k ks (some x) e rest = elim (Bool-cases (leb k.created_at x.created_at)) [
  | inl c ↦ rw c (head refl, e)
  | inr c ↦ rw c (tail (rest x refl).0, (rest x refl).1)
]

pub oldest_pending-Mem :
    (t : Table) (j : ReasoningJob)
    → oldest_pending t ≡ some j
    → Memᴰ j t × (is_pending j.status ≡ true)
unfolding oldest_pending
oldest_pending-Mem [] j h = cc
oldest_pending-Mem (k ∷ ks) j h = pick (is_pending k.status) refl h (λ x. oldest_pending-Mem ks x)
  where
    pick :
        (b : Bool)
        → is_pending k.status ≡ b
        → (if b then some (older k (oldest_pending ks)) else oldest_pending ks) ≡ some j
        → ((x : ReasoningJob)
            → oldest_pending ks ≡ some x
            → Memᴰ x ks × (is_pending x.status ≡ true))
        → Memᴰ j (k ∷ ks) × (is_pending j.status ≡ true)
    pick true e q rest = rw (sym (some-injective q)) (older-Mem k ks (oldest_pending ks) e rest)
    pick false e q rest = let (m, p) = rest j q in (tail m, p)

pub update_rows-twice :
    (test : ReasoningJob → Bool) (f g : ReasoningJob → ReasoningJob) (t : Table)
    → ((j : ReasoningJob) → test (f j) ≡ test j)
    → update_rows test g (update_rows test f t) ≡ update_rows test (λ j. g (f j)) t
update_rows-twice test f g [] same = refl
update_rows-twice test f g (k ∷ ks) same =
    ground (arith, same k, update_rows-twice test f g ks same)

-- Rows that pass `p` and still pass it after the update are no fewer.
pub count-grows :
    (p test : ReasoningJob → Bool) (f : ReasoningJob → ReasoningJob) (t : Table)
    → ((j : ReasoningJob) → test j ≡ true → bit (p j) ≤ bit (p (f j)))
    → count p t ≤ count p (update_rows test f t)
count-grows p test f [] kept = omega arith
count-grows p test f (k ∷ ks) kept = ground (arith, kept k, count-grows p test f ks kept)

-- Every updated row passes `p`, where the update makes it pass.
pub count-reaches :
    (p test : ReasoningJob → Bool) (f : ReasoningJob → ReasoningJob) (t : Table)
    → ((j : ReasoningJob) → test j ≡ true → p (f j) ≡ true)
    → count test t ≤ count p (update_rows test f t)
count-reaches p test f [] made = omega arith
count-reaches p test f (k ∷ ks) made = ground (arith, made k, count-reaches p test f ks made)

-- The updated row is found under its id, which the update keeps.
pub find-updated :
    (id : String) (f : ReasoningJob → ReasoningJob) (t : Table) (j : ReasoningJob)
    → ((k : ReasoningJob) → (f k).id ≡ k.id)
    → find_row id t ≡ some j
    → find_row id (update_rows (has_id id) f t) ≡ some (f j)
find-updated id f [] j same h = cc
find-updated id f (k ∷ ks) j same h = elim (if-eq-some (k.id == id) k (find_row id ks) h) [
  | inl (e, q) ↦ rw (e, ap (λ s. s == id) (same k) ∙ e) (ap (λ x. some (f x)) q)
  | inr (e, q) ↦ rw (e, e) (find-updated id f ks j same q)
]

pub find_row-append :
    (id : String) (t u : Table) (j : ReasoningJob)
    → find_row id t ≡ some j
    → find_row id (t ++ u) ≡ some j
find_row-append id [] u j h = cc
find_row-append id (k ∷ ks) u j h = ground (arith, find_row-append id ks u j)

pub Mem-find_row :
    (t : Table) (j : ReasoningJob) → count (has_id j.id) t ≤ 1 → Memᴰ j t → find_row j.id t ≡ some j
Mem-find_row [] j c m = elim m [ ]
Mem-find_row (k ∷ ks) j c (head e) =
    rw (ap (λ x. x.id == j.id) (sym e), eq_refl j.id) (ap some (sym e))
Mem-find_row (k ∷ ks) j c (tail m) =
    grind (arith, Mem-count (has_id j.id) ks m (eq_refl j.id), Mem-find_row ks j (omega arith) m)
