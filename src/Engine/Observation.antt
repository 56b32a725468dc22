-- ===== src/Engine/Observation.antt =====
-- src/domain: observations and the value objects of the engine. A measurement type is its name and
-- a timestamp is a number; values are the doubles of a `Floats`.
use odis.Prelude.{
  ℕ, suc, String, ◌≡◌, refl, ap, ◌∙◌, Bool, ◌&&◌, List, [], ◌∷◌, arith, ◌==◌, leb, if◌then◌else◌,
  length, all,
}
use odis.Prelude.Result.{Result, err, value_error, ok}

-- What the code takes from Python's floats and its `statistics`. `of_decimal m e` is m / 10 ** e.
pub record Floats : Type 1 where
  pub Value : Type 0
  pub of_decimal : ℕ → ℕ → Value
  pub sub : Value → Value → Value
  pub div : Value → Value → Value
  pub abs : Value → Value
  pub lt : Value → Value → Bool
  pub le : Value → Value → Bool
  pub fmean : List Value → Value
  pub pstdev : List Value → Value
  pub greatest : List Value → Value
  pub least : List Value → Value

pub record Observation (Value : Type 0) : Type 0 where
  pub id : String
  pub asset_id : String
  pub timestamp : ℕ
  pub measurement_type : String
  pub value : Value
  pub unit : String

pub data TrendDirection : Type 0 where
  increasing stable decreasing : TrendDirection

pub data VariationLevel : Type 0 where
  low high : VariationLevel

pub record DetectedTrend : Type 0 where
  pub direction : TrendDirection
  pub asset_id : String
  pub measurement_type : String

pub record DetectedVariation : Type 0 where
  pub asset_id : String
  pub measurement_type : String
  pub level : VariationLevel

module _ {Value : Type 0} where
  -- Python's `sorted` by timestamp, which is stable.
  pub insert_by_timestamp : Observation Value → List (Observation Value) → List (Observation Value)
  insert_by_timestamp o [] = o ∷ []
  insert_by_timestamp o (p ∷ ps) =
      let rest = insert_by_timestamp o ps in
      if leb o.timestamp p.timestamp then o ∷ p ∷ ps else p ∷ rest

  unfoldable pub sort_by_timestamp : List (Observation Value) → List (Observation Value)
  unfolding insert_by_timestamp
  sort_by_timestamp [] = []
  sort_by_timestamp (o ∷ os) = insert_by_timestamp o (sort_by_timestamp os)

  pub length-insert :
      (o : Observation Value) (os : List (Observation Value))
      → length (insert_by_timestamp o os) ≡ suc (length os)
  unfolding insert_by_timestamp
  length-insert o [] = refl
  length-insert o (p ∷ ps) = ground (arith, length-insert o ps)

  pub length-sort : (os : List (Observation Value)) → length (sort_by_timestamp os) ≡ length os
  unfolding sort_by_timestamp
  length-sort [] = refl
  length-sort (o ∷ os) = length-insert o (sort_by_timestamp os) ∙ ap suc (length-sort os)

  -- `observation.asset_id != asset_id` and `observation.measurement_type != measurement_type`
  abbrev pub is_same_signal : Observation Value → Observation Value → Bool
  is_same_signal first o =
      (o.asset_id == first.asset_id) && (o.measurement_type == first.measurement_type)

  -- The checks at the head of both detectors: two observations at least, all of one asset and type.
  unfoldable pub check_signal : List (Observation Value) → Result (Observation Value)
  check_signal [] = err value_error
  check_signal (o ∷ []) = err value_error
  check_signal (o ∷ p ∷ ps) = if all (is_same_signal o) (p ∷ ps) then ok o else err value_error
