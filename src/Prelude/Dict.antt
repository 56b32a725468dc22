-- ===== src/Prelude/Dict.antt =====
-- Python's dict and OrderedDict as the list of their entries, in the order of insertion.
use odis.Prelude.Lists.{length, All}
use odis.Prelude.Tests.{if◌then◌else◌, if-eq-some, Bool-cases}
use mathlib.Core.Path.{subst}
use odis.Prelude.Count.{bit}
use odis.Prelude.{
  ℕ, ◌+◌, suc, ◌≤◌, refl, Bool, true, false, List, [], ◌∷◌, ◌++◌, Option, none, some, ◌≡◌, arith,
  inl, inr,
}

module _ {ℓ κ} {K : Type κ} (same : K → K → Bool) {V : Type ℓ} where
  -- `d.get(key)`
  abbrev pub lookup : K → List (K × V) → Option V
  lookup key [] = none
  lookup key ((k, v) ∷ d) = if same k key then some v else lookup key d

  -- `key in d`
  abbrev pub has_key : K → List (K × V) → Bool
  has_key key [] = false
  has_key key ((k, v) ∷ d) = if same k key then true else has_key key d

  -- `del d[key]`, where there is such a key
  abbrev pub remove_key : K → List (K × V) → List (K × V)
  remove_key key [] = []
  remove_key key ((k, v) ∷ d) =
      let rest = remove_key key d in if same k key then d else (k, v) ∷ rest

  -- `d[key] = value`: a new key goes to the end.
  abbrev pub set_key : K → V → List (K × V) → List (K × V)
  set_key key value [] = (key, value) ∷ []
  set_key key value ((k, v) ∷ d) =
      let rest = set_key key value d in if same k key then (k, value) ∷ d else (k, v) ∷ rest

  pub length-remove_key :
      (key : K) (d : List (K × V))
      → has_key key d ≡ true
      → suc (length (remove_key key d)) ≡ length d
  length-remove_key key [] h = cc
  length-remove_key key ((k, v) ∷ d) h = ground (arith, length-remove_key key d)

  pub length-set_key :
      (key : K) (value : V) (d : List (K × V))
      → has_key key d ≡ true
      → length (set_key key value d) ≡ length d
  length-set_key key value [] h = cc
  length-set_key key value ((k, v) ∷ d) h = ground (arith, length-set_key key value d)

  pub has_key-set_key :
      (key : K) (value : V) (d : List (K × V))
      → has_key key d ≡ true
      → has_key key (set_key key value d) ≡ true
  has_key-set_key key value [] h = cc
  has_key-set_key key value ((k, v) ∷ d) h = ground (arith, has_key-set_key key value d)

  pub lookup-has_key :
      (key : K) (d : List (K × V)) (v : V) → lookup key d ≡ some v → has_key key d ≡ true
  lookup-has_key key [] v h = cc
  lookup-has_key key ((k, w) ∷ d) v h = ground (arith, lookup-has_key key d v)

  pub remove_key-le : (key : K) (d : List (K × V)) → length (remove_key key d) ≤ length d
  remove_key-le key [] = omega arith
  remove_key-le key ((k, v) ∷ d) = ground (arith, remove_key-le key d)

  -- A key that is set is there; a key that was not there makes the dictionary longer by one.
  pub set_key-has_key :
      (key : K) (value : V) (d : List (K × V))
      → same key key ≡ true
      → has_key key (set_key key value d) ≡ true
  set_key-has_key key value [] r = rw r refl
  set_key-has_key key value ((k, v) ∷ d) r = ground (arith, set_key-has_key key value d r)

  pub length-set_key_new :
      (key : K) (value : V) (d : List (K × V))
      → has_key key d ≡ false
      → length (set_key key value d) ≡ suc (length d)
  length-set_key_new key value [] h = refl
  length-set_key_new key value ((k, v) ∷ d) h = ground (arith, length-set_key_new key value d)

  pub lookup-none : (key : K) (d : List (K × V)) → lookup key d ≡ none → has_key key d ≡ false
  lookup-none key [] h = refl
  lookup-none key ((k, v) ∷ d) h = ground (arith, lookup-none key d)

  -- What holds of every entry holds of one that is looked up, whose key passes the test.
  pub All-lookup {υ} :
      (P : K × V → Type υ) (key : K) (d : List (K × V)) (v : V)
      → All P d
      → lookup key d ≡ some v
      → (k : K) × (same k key ≡ true) × P (k, v)
  All-lookup P key [] v hs h = cc
  All-lookup P key ((k, w) ∷ d) v hs h = elim (if-eq-some (same k key) w (lookup key d) h) [
    | inl (e, q) ↦ (k, e, subst (λ x. P (k, x)) q hs.0)
    | inr (e, q) ↦ All-lookup P key d v hs.1 q
  ]

  pub has_key-lookup :
      (key : K) (d : List (K × V)) → has_key key d ≡ true → (v : V) × (lookup key d ≡ some v)
  has_key-lookup key [] h = cc
  has_key-lookup key ((k, w) ∷ d) h = elim (Bool-cases (same k key)) [
    | inl e ↦ rw e (w, refl)
    | inr e ↦ rw e (has_key-lookup key d (ground (arith, e, h)))
  ]

  pub has_key-append :
      (key : K) (d more : List (K × V))
      → has_key key (d ++ more) ≡ (if has_key key d then true else has_key key more)
  has_key-append key [] more = refl
  has_key-append key ((j, w) ∷ d) more = ground (arith, has_key-append key d more)

  pub All-remove_key {υ} :
      (P : K × V → Type υ) (key : K) (d : List (K × V)) → All P d → All P (remove_key key d)
  All-remove_key P key [] hs = tt
  All-remove_key P key ((k, v) ∷ d) hs = elim (Bool-cases (same k key)) [
    | inl e ↦ rw e hs.1
    | inr e ↦ rw e (hs.0, All-remove_key P key d hs.1)
  ]

  pub All-set_key {υ} :
      (P : K × V → Type υ) (key : K) (value : V) (d : List (K × V))
      → ((k : K) → P (k, value))
      → All P d
      → All P (set_key key value d)
  All-set_key P key value [] f hs = (f key, tt)
  All-set_key P key value ((k, v) ∷ d) f hs = elim (Bool-cases (same k key)) [
    | inl e ↦ rw e (f k, hs.1)
    | inr e ↦ rw e (hs.0, All-set_key P key value d f hs.1)
  ]

  -- How many entries have a key that passes a test.
  abbrev pub weigh : (K → Bool) → List (K × V) → ℕ
  weigh q [] = 0
  weigh q ((k, v) ∷ d) = bit (q k) + weigh q d

  pub weigh-remove_key :
      (q : K → Bool) (key : K) (d : List (K × V))
      → ((k : K) → same k key ≡ true → k ≡ key)
      → has_key key d ≡ true
      → bit (q key) + weigh q (remove_key key d) ≡ weigh q d
  weigh-remove_key q key [] exact h = cc
  weigh-remove_key q key ((k, v) ∷ d) exact h = elim (Bool-cases (same k key)) [
    | inl e ↦ rw (e, exact k e) refl
    | inr e ↦ rw e (omega (arith, weigh-remove_key q key d exact (rw e at h)))
  ]

  pub weigh-set_key :
      (q : K → Bool) (key : K) (value : V) (d : List (K × V))
      → has_key key d ≡ true
      → weigh q (set_key key value d) ≡ weigh q d
  weigh-set_key q key value [] h = cc
  weigh-set_key q key value ((k, v) ∷ d) h = elim (Bool-cases (same k key)) [
    | inl e ↦ rw e refl
    | inr e ↦ rw e (omega (arith, weigh-set_key q key value d (rw e at h)))
  ]

  pub weigh-set_key_new :
      (q : K → Bool) (key : K) (value : V) (d : List (K × V))
      → has_key key d ≡ false
      → weigh q (set_key key value d) ≡ bit (q key) + weigh q d
  weigh-set_key_new q key value [] h = refl
  weigh-set_key_new q key value ((k, v) ∷ d) h = elim (Bool-cases (same k key)) [
    | inl e ↦ cc (rw e at h)
    | inr e ↦ rw e (omega (arith, weigh-set_key_new q key value d (rw e at h)))
  ]

  pub length-weigh : (d : List (K × V)) → weigh (λ k. true) d ≡ length d
  length-weigh [] = refl
  length-weigh ((k, v) ∷ d) = omega (arith, length-weigh d)
