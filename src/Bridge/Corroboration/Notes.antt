-- ===== src/Bridge/Corroboration/Notes.antt =====
-- Every outcome of the corroboration has notes.
use odis.Bridge.Types.{CorroborationOutcome}
use odis.Bridge.Corroboration.{cooling_rules, hydrogen_rules, sensor_rules, has_moved, known, moved}
use odis.Engine.Observation.{TrendDirection, increasing, stable, decreasing}
use odis.Prelude.{
  String, false, Option, none, some, List, ◌≡◌, refl, ◌==◌, Bool-cases, inl, inr, is_empty, eqb,
  length,
}

abbrev pub HasNotes : CorroborationOutcome → Type 0
HasNotes o = (o.notes == "") ≡ false

pub cooling_rules-HasNotes :
    (temperature coolant : Option TrendDirection) (ids : List String)
    → HasNotes (cooling_rules temperature coolant ids)
unfolding cooling_rules
cooling_rules-HasNotes none coolant ids = refl
cooling_rules-HasNotes (some stable) coolant ids = refl
cooling_rules-HasNotes (some decreasing) coolant ids = refl
cooling_rules-HasNotes (some increasing) none ids = refl
cooling_rules-HasNotes (some increasing) (some increasing) ids = refl
cooling_rules-HasNotes (some increasing) (some stable) ids = refl
cooling_rules-HasNotes (some increasing) (some decreasing) ids = refl

pub hydrogen_rules-HasNotes :
    (fuel_flow voltage : Option TrendDirection) (ids : List String)
    → HasNotes (hydrogen_rules fuel_flow voltage ids)
unfolding hydrogen_rules
hydrogen_rules-HasNotes none voltage ids = refl
hydrogen_rules-HasNotes (some increasing) voltage ids = refl
hydrogen_rules-HasNotes (some stable) voltage ids = refl
hydrogen_rules-HasNotes (some decreasing) none ids = refl
hydrogen_rules-HasNotes (some decreasing) (some increasing) ids = refl
hydrogen_rules-HasNotes (some decreasing) (some stable) ids = refl
hydrogen_rules-HasNotes (some decreasing) (some decreasing) ids = refl

pub sensor_rules-HasNotes :
    (temperature : Option TrendDirection) (related : List (Option TrendDirection))
    (ids : List String)
    → HasNotes (sensor_rules temperature related ids)
unfolding sensor_rules
sensor_rules-HasNotes none related ids = refl
sensor_rules-HasNotes (some temperature) related ids = elim (Bool-cases (has_moved temperature)) [
  | inr e ↦ rw e refl
  | inl e ↦ elim (Bool-cases (is_empty (known related))) [
    | inl f ↦ rw (e, f) refl
    | inr f ↦ elim (Bool-cases (eqb (moved (known related)) 0)) [
      | inl g ↦ rw (e, f, g) refl
      | inr g ↦ elim (Bool-cases (eqb (moved (known related)) (length (known related)))) [
        | inl h ↦ rw (e, f, g, h) refl
        | inr h ↦ rw (e, f, g, h) refl
      ]
    ]
  ]
]
