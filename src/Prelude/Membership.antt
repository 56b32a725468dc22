-- ===== src/Prelude/Membership.antt =====
-- Membership in a list, with the place where the element stands.
use mathlib.Core.List.{Memᴰ}
use mathlib.Core.List.Memᴰ.{head, tail}
use odis.Prelude.Lists.{All, any, keep}
use odis.Prelude.Tests.{Bool-cases}
use odis.Prelude.Count.{count}
use odis.Prelude.{
  List, Bool, true, [], ◌∷◌, ◌≡◌, ◌≤◌, arith, inl, inr, refl, sym, ◌∙◌, ap, ◌++◌, ◌⊎◌,
}
use mathlib.Core.Path.{subst}

module _ {ℓ} {A : Type ℓ} where
  pub All-Mem {κ} : (P : A → Type κ) {x : A} (xs : List A) → All P xs → Memᴰ x xs → P x
  All-Mem P [] hs m = elim m [ ]
  All-Mem P (y ∷ ys) hs (head e) = subst P (sym e) hs.0
  All-Mem P (y ∷ ys) hs (tail m) = All-Mem P ys hs.1 m

  pub Mem-All {κ} : (P : A → Type κ) (xs : List A) → ((x : A) → Memᴰ x xs → P x) → All P xs
  Mem-All P [] f = tt
  Mem-All P (x ∷ xs) f = (f x (head refl), Mem-All P xs λ y m. f y (tail m))

  pub Mem-append : {x : A} (xs ys : List A) → Memᴰ x (xs ++ ys) → Memᴰ x xs ⊎ Memᴰ x ys
  Mem-append [] ys m = inr m
  Mem-append (y ∷ xs) ys (head e) = inl (head e)
  Mem-append (y ∷ xs) ys (tail m) = elim (Mem-append xs ys m) [
    | inl a ↦ inl (tail a)
    | inr b ↦ inr b
  ]

  pub any-Mem : (p : A → Bool) (xs : List A) → any p xs ≡ true → (x : A) × Memᴰ x xs × (p x ≡ true)
  any-Mem p [] h = cc
  any-Mem p (x ∷ xs) h = elim (Bool-cases (p x)) [
    | inl e ↦ (x, head refl, e)
    | inr e ↦ let (y, m, q) = any-Mem p xs (ground (arith, e, h)) in (y, tail m, q)
  ]

  pub Mem-any : (p : A → Bool) {x : A} (xs : List A) → Memᴰ x xs → p x ≡ true → any p xs ≡ true
  Mem-any p [] m h = elim m [ ]
  Mem-any p (y ∷ ys) (head e) h = rw (sym (ap p e) ∙ h) refl
  Mem-any p (y ∷ ys) (tail m) h = ground (arith, Mem-any p ys m h)

  pub keep-Mem :
      (p : A → Bool) {x : A} (xs : List A) → Memᴰ x (keep p xs) → Memᴰ x xs × (p x ≡ true)
  keep-Mem p [] m = elim m [ ]
  keep-Mem p (y ∷ ys) m = elim (Bool-cases (p y)) [
    | inl e ↦ elim (rw e at m) [
      | head q ↦ (head q, ap p q ∙ e)
      | tail n ↦ let (there, passes) = keep-Mem p ys n in (tail there, passes)
    ]
    | inr e ↦ let (there, passes) = keep-Mem p ys (rw e at m) in (tail there, passes)
  ]

  pub Mem-keep : (p : A → Bool) {x : A} (xs : List A) → Memᴰ x xs → p x ≡ true → Memᴰ x (keep p xs)
  Mem-keep p [] m h = elim m [ ]
  Mem-keep p (y ∷ ys) (head e) h = rw (sym (ap p e) ∙ h) (head e)
  Mem-keep p (y ∷ ys) (tail m) h = elim (Bool-cases (p y)) [
    | inl e ↦ rw e (tail (Mem-keep p ys m h))
    | inr e ↦ rw e (Mem-keep p ys m h)
  ]

  pub Mem-count : (p : A → Bool) {x : A} (xs : List A) → Memᴰ x xs → p x ≡ true → 1 ≤ count p xs
  Mem-count p [] m h = elim m [ ]
  Mem-count p (y ∷ ys) (head e) h = grind (arith, ap p e)
  Mem-count p (y ∷ ys) (tail m) h = grind (arith, Mem-count p ys m h)

  -- Where at most one element passes, two that pass are the same.
  pub Mem-unique :
      (p : A → Bool) {x y : A} (xs : List A)
      → count p xs ≤ 1
      → Memᴰ x xs
      → p x ≡ true
      → Memᴰ y xs
      → p y ≡ true
      → x ≡ y
  Mem-unique p [] c m h n k = elim m [ ]
  Mem-unique p (z ∷ zs) c (head e) h (head d) k = e ∙ sym d
  Mem-unique p (z ∷ zs) c (head e) h (tail n) k = absurd (grind (arith, ap p e, Mem-count p zs n k))
  Mem-unique p (z ∷ zs) c (tail m) h (head d) k = absurd (grind (arith, ap p d, Mem-count p zs m h))
  Mem-unique p (z ∷ zs) c (tail m) h (tail n) k = Mem-unique p zs (omega arith) m h n k

module _ {ℓ} {A : Type ℓ} where
  pub append-Mem : {x : A} (xs ys : List A) → Memᴰ x xs ⊎ Memᴰ x ys → Memᴰ x (xs ++ ys)
  append-Mem [] ys (inl m) = elim m [ ]
  append-Mem [] ys (inr m) = m
  append-Mem (y ∷ xs) ys (inl (head e)) = head e
  append-Mem (y ∷ xs) ys (inl (tail m)) = tail (append-Mem xs ys (inl m))
  append-Mem (y ∷ xs) ys (inr m) = tail (append-Mem xs ys (inr m))
