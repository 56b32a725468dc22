-- ===== src/Prelude/Text.antt =====
-- Python's `str`: concatenation, `startswith` with the slice behind the prefix, and `in`.
use Prim.Native.Char.{code}
use Prim.Native.String.{String, [], ◌∷◌}
use mathlib.Core.Path.{◌≡◌, refl, ap, sym, ◌∙◌}
use mathlib.Core.Logic.{◌⊎◌, inl, inr}
use mathlib.Core.Bool.{Bool, true, false}
use mathlib.Core.Option.{Option, none, some, some-injective}
use text.Mathlib.Text.{◌==◌}
use text.Mathlib.TextEquality.{eq_iff, Char-path}
use odis.Prelude.Tests.{Bool-cases, eqb, eqb_iff, if◌then◌else◌}

-- `s + t`
abbrev pub concat : String → String → String
concat [] t = t
concat (c ∷ s) t = c ∷ concat s t

-- `s[len(p):]` where `s.startswith(p)`
abbrev pub strip_prefix : String → String → Option String
strip_prefix [] s = some s
strip_prefix (c ∷ p) [] = none
strip_prefix (c ∷ p) (d ∷ s) = if eqb (code c) (code d) then strip_prefix p s else none

-- `p in s`
abbrev pub is_infix : String → String → Bool
is_infix p [] = elim (strip_prefix p []) [ none ↦ false | some _ ↦ true ]
is_infix p (c ∷ s) = elim (strip_prefix p (c ∷ s)) [ none ↦ is_infix p s | some _ ↦ true ]

-- What is put behind a prefix is what stands behind it.
pub strip_prefix-concat : (p s : String) → strip_prefix p (concat p s) ≡ some s
strip_prefix-concat [] s = refl
strip_prefix-concat (c ∷ p) s = rw ((eqb_iff (code c) (code c)).1 refl) (strip_prefix-concat p s)

pub eq_refl : (s : String) → (s == s) ≡ true
eq_refl s = (eq_iff s s).1 refl

pub eq-cases : (s t : String) → (((s == t) ≡ true) × (s ≡ t)) ⊎ ((s == t) ≡ false)
eq-cases s t = split (s == t) refl
  where
    split : (b : Bool) → (s == t) ≡ b → (((s == t) ≡ true) × (s ≡ t)) ⊎ ((s == t) ≡ false)
    split true e = inl (e, (eq_iff s t).0 e)
    split false e = inr e

-- `s == o`, where `o` may be `None`
abbrev pub is_class : String → Option String → Bool
is_class s none = false
is_class s (some t) = s == t

-- A text is its prefix and what stands behind it.
pub strip_prefix-some : (p s rest : String) → strip_prefix p s ≡ some rest → s ≡ concat p rest
strip_prefix-some [] s rest h = some-injective s rest h
strip_prefix-some (c ∷ p) [] rest h = cc
strip_prefix-some (c ∷ p) (d ∷ s) rest h = elim (Bool-cases (eqb (code c) (code d))) [
  | inl e ↦
      ap (λ x. x ∷ s) (sym (Char-path c d ((eqb_iff (code c) (code d)).0 e)))
      ∙ ap (λ x. c ∷ x) (strip_prefix-some p s rest (rw e at h))
  | inr e ↦ cc (rw e at h)
]

-- What begins with a text that is not empty is not empty.
pub concat-given : (p s : String) → (p == []) ≡ false → (concat p s == []) ≡ false
concat-given [] s h = cc
concat-given (c ∷ p) s h = elim (eq-cases (c ∷ concat p s) []) [ inl (e, same) ↦ cc | inr e ↦ e ]
