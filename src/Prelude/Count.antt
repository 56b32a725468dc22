-- ===== src/Prelude/Count.antt =====
-- How many elements of a list pass a test.
use odis.Prelude.Lists.{any}
use odis.Prelude.{Bool, List, ◌≤◌, ℕ, ◌≡◌, refl, ◌∷◌, ◌++◌, true, arith, [], ◌+◌, false}

abbrev pub bit : Bool → ℕ
bit true = 1
bit false = 0

abbrev pub count {ℓ} : {A : Type ℓ} → (A → Bool) → List A → ℕ
count p [] = 0
count p (x ∷ xs) = bit (p x) + count p xs

pub bit-le : (b : Bool) → bit b ≤ 1
bit-le true = omega arith
bit-le false = omega arith

pub count-append {ℓ} :
    {A : Type ℓ} (p : A → Bool) (xs ys : List A) → count p (xs ++ ys) ≡ count p xs + count p ys
count-append p [] ys = omega arith
count-append p (x ∷ xs) ys = omega (arith, count-append p xs ys)

-- No element passes where `any` finds none, and at least one does where it finds one.
pub any-false {ℓ} : {A : Type ℓ} (p : A → Bool) (xs : List A) → any p xs ≡ false → count p xs ≡ 0
any-false p [] h = refl
any-false p (x ∷ xs) h = ground (arith, any-false p xs)

pub any-true {ℓ} : {A : Type ℓ} (p : A → Bool) (xs : List A) → any p xs ≡ true → 1 ≤ count p xs
any-true p [] h = cc
any-true p (x ∷ xs) h = ground (arith, any-true p xs)

-- Where none passes, `any` finds none.
pub count-any {ℓ} : {A : Type ℓ} (p : A → Bool) (xs : List A) → count p xs ≡ 0 → any p xs ≡ false
count-any p [] h = refl
count-any p (x ∷ xs) h = ground (arith, count-any p xs)
