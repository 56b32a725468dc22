-- ===== src/Prelude/Sort.antt =====
-- Python's stable `sorted` by a key that is a number, and what it keeps of a list.
use mathlib.Core.List.{Memᴰ}
use mathlib.Core.List.Memᴰ.{head, tail}
use odis.Prelude.Lists.{All}
use odis.Prelude.Tests.{leb, if◌then◌else◌, Bool-cases}
use odis.Prelude.{List, ℕ, [], ◌∷◌, ◌≡◌, ◌≤◌, arith, inl, inr, refl}

module _ {ℓ} {A : Type ℓ} (key : A → ℕ) where
  pub insert_on : A → List A → List A
  insert_on x [] = x ∷ []
  insert_on x (y ∷ ys) =
      let rest = insert_on x ys in if leb (key x) (key y) then x ∷ y ∷ ys else y ∷ rest

  unfoldable pub sort_on : List A → List A
  unfolding insert_on
  sort_on [] = []
  sort_on (x ∷ xs) = insert_on x (sort_on xs)

  -- Each key is at most the next.
  abbrev pub IsOrdered : List A → Type 0
  IsOrdered [] = Unit
  IsOrdered (x ∷ xs) = All (λ y. key x ≤ key y) xs × IsOrdered xs

  All-insert_on {κ} :
      (P : A → Type κ) (x : A) (ys : List A) → P x → All P ys → All P (insert_on x ys)
  unfolding insert_on
  All-insert_on P x [] p ps = (p, tt)
  All-insert_on P x (y ∷ ys) p ps = elim (Bool-cases (leb (key x) (key y))) [
    | inl e ↦ rw e (p, ps)
    | inr e ↦ rw e (ps.0, All-insert_on P x ys p ps.1)
  ]

  pub All-sort_on {κ} : (P : A → Type κ) (xs : List A) → All P xs → All P (sort_on xs)
  unfolding sort_on
  All-sort_on P [] ps = tt
  All-sort_on P (x ∷ xs) ps = All-insert_on P x (sort_on xs) ps.0 (All-sort_on P xs ps.1)

  insert_on-head : (x : A) (ys : List A) → Memᴰ x (insert_on x ys)
  unfolding insert_on
  insert_on-head x [] = head refl
  insert_on-head x (y ∷ ys) = elim (Bool-cases (leb (key x) (key y))) [
    | inl e ↦ rw e (head refl)
    | inr e ↦ rw e (tail (insert_on-head x ys))
  ]

  insert_on-tail : (x z : A) (ys : List A) → Memᴰ z ys → Memᴰ z (insert_on x ys)
  unfolding insert_on
  insert_on-tail x z [] m = elim m [ ]
  insert_on-tail x z (y ∷ ys) m = elim (Bool-cases (leb (key x) (key y))) [
    | inl e ↦ rw e (tail m)
    | inr e ↦ rw e (elim m [ head q ↦ head q | tail n ↦ tail (insert_on-tail x z ys n) ])
  ]

  -- Sorting loses nothing.
  pub Mem-sort_on : (z : A) (xs : List A) → Memᴰ z xs → Memᴰ z (sort_on xs)
  unfolding sort_on
  Mem-sort_on z [] m = elim m [ ]
  Mem-sort_on z (x ∷ xs) (head q) = rw q (insert_on-head x (sort_on xs))
  Mem-sort_on z (x ∷ xs) (tail m) = insert_on-tail x z (sort_on xs) (Mem-sort_on z xs m)

  All-trans : {a b : ℕ} (ys : List A) → a ≤ b → All (λ y. b ≤ key y) ys → All (λ y. a ≤ key y) ys
  All-trans [] h ps = tt
  All-trans (y ∷ ys) h ps = (omega (arith, ps.0), All-trans ys h ps.1)

  insert_on-IsOrdered : (x : A) (ys : List A) → IsOrdered ys → IsOrdered (insert_on x ys)
  unfolding insert_on
  insert_on-IsOrdered x [] o = (tt, tt)
  insert_on-IsOrdered x (y ∷ ys) o = elim (Bool-cases (leb (key x) (key y))) [
    | inl e ↦ rw e ((ground (arith, e), All-trans ys (ground (arith, e)) o.0), o)
    | inr e ↦ rw e (
      All-insert_on (λ z. key y ≤ key z) x ys (ground (arith, e)) o.0,
      insert_on-IsOrdered x ys o.1,
    )
  ]

  pub sort_on-IsOrdered : (xs : List A) → IsOrdered (sort_on xs)
  unfolding sort_on
  sort_on-IsOrdered [] = tt
  sort_on-IsOrdered (x ∷ xs) = insert_on-IsOrdered x (sort_on xs) (sort_on-IsOrdered xs)

  pub sort_on-nil : {xs : List A} → xs ≡ [] → sort_on xs ≡ []
  unfolding sort_on
  sort_on-nil e = rw e refl
