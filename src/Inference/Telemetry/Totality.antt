-- ===== src/Inference/Telemetry/Totality.antt =====
-- A sample of good measurements is built without an exception.
use odis.Engine.Observation.{Observation}
use odis.Inference.Telemetry.{
  Readings, TelemetrySample, canonical_units, required_measurements, missing_of, observation,
  collect, from_observations,
}
use odis.Inference.Assembly.{Measured, with_observation, observations_of, measurement_order}
use odis.Prelude.Dict.{lookup, has_key, All-lookup, has_key-lookup, has_key-append}
use mathlib.Core.Path.{subst}
use mathlib.Core.List.{append-nil, append_assoc}
use odis.Prelude.Text.{eq_refl, eq-cases}
use odis.Prelude.{
  ℕ, String, ◌≡◌, refl, inl, inr, Bool, true, false, Option, none, some, List, [], ◌∷◌, ◌++◌, ◌==◌,
  eq_iff, if◌then◌else◌, any, All, ap, ◌∙◌, arith, all, Bool-cases, is_empty, sym, eqb, eqb_iff,
  drop,
}
use odis.Prelude.Result.{ok, ◌>>=◌}

-- No name stands twice.
abbrev is_distinct : List String → Bool
is_distinct [] = true
is_distinct (x ∷ xs) = let rest = is_distinct xs in if any (λ y. x == y) xs then false else rest

canonical_units-unit :
    (name unit : String) → lookup ◌==◌ name canonical_units ≡ some unit → (unit == "") ≡ false
canonical_units-unit name unit h =
    (All-lookup ◌==◌ (λ (k, v). (v == "") ≡ false) name canonical_units unit
      (refl, (refl, (refl, (refl, (refl, (refl, (refl, (refl, tt)))))))) h).2

either : (b : Bool) → (if b then true else true) ≡ true
either true = refl
either false = refl

module _ (readings : Readings) where
  open readings use {Value, isfinite}

  -- A measurement with the canonical unit of its name, a finite value and an identifier.
  abbrev pub IsGood : String × Measured Value → Type 0
  IsGood (name, m) =
      (lookup ◌==◌ name canonical_units ≡ some m.unit)
      × (isfinite m.value ≡ true)
      × ((m.event_id == "") ≡ false)

  module _ (asset_id : String) (timestamp : ℕ) (values : List (String × Measured Value))
      (good : All IsGood values) (asset_given : (asset_id == "") ≡ false) where
    raw : String → Measured Value → Observation Value
    raw name m = record {
      id = m.event_id;
      asset_id = asset_id;
      timestamp = timestamp;
      measurement_type = name;
      value = m.value;
      unit = m.unit;
    }

    look :
        (name : String) (m : Measured Value) → lookup ◌==◌ name values ≡ some m → IsGood (name, m)
    look name m h =
        let (k, e, g) = All-lookup ◌==◌ IsGood name values m good h in
        subst (λ k. IsGood (k, m)) ((eq_iff k name).0 e) g

    -- The observations and the entries of the names that have a value.
    observed_one : String → Option (Measured Value) → List (Observation Value)
    observed_one name none = []
    observed_one name (some m) = raw name m ∷ []

    observed : List String → List (Observation Value)
    observed [] = []
    observed (name ∷ names) = observed_one name (lookup ◌==◌ name values) ++ observed names

    observation-raw :
        (name : String) (m : Measured Value)
        → (name == "") ≡ false
        → IsGood (name, m)
        → observation readings m.event_id asset_id timestamp name m.value m.unit ≡ ok (raw name m)
    unfolding observation raw
    observation-raw name m n (u, f, i) =
        rw (i, asset_given, n, canonical_units-unit name m.unit u) refl

    with_observation-observed :
        (name : String) (o : Option (Measured Value)) (rest : List (Observation Value))
        → (name == "") ≡ false
        → lookup ◌==◌ name values ≡ o
        → with_observation readings asset_id timestamp name o (ok rest)
          ≡ ok (observed_one name o ++ rest)
    unfolding observed_one
    with_observation-observed name none rest n e = refl
    with_observation-observed name (some m) rest n e =
        rw (observation-raw name m n (look name m e)) refl

    observations_of-observed :
        (names : List String)
        → All (λ name. (name == "") ≡ false) names
        → observations_of readings asset_id timestamp values names ≡ ok (observed names)
    unfolding observed
    observations_of-observed [] hs = refl
    observations_of-observed (name ∷ names) hs =
        ap (with_observation readings asset_id timestamp name (lookup ◌==◌ name values))
          (observations_of-observed names hs.1)
        ∙ with_observation-observed name _ (observed names) hs.0 refl

    -- The values and the units that the observations of the names come to.
    kept_value : String → Option (Measured Value) → List (String × Value)
    kept_value name none = []
    kept_value name (some m) = (name, m.value) ∷ []

    kept_unit : String → Option (Measured Value) → List (String × String)
    kept_unit name none = []
    kept_unit name (some m) = (name, m.unit) ∷ []

    values_of : List String → List (String × Value)
    values_of [] = []
    values_of (name ∷ names) = kept_value name (lookup ◌==◌ name values) ++ values_of names

    -- None of the names has a value yet.
    Free : List (String × Value) → List String → Type 0
    Free taken names = All (λ name. has_key ◌==◌ name taken ≡ false) names

    Free-append :
        (name : String) (v : Value) (taken : List (String × Value)) (names : List String)
        → any (λ n. name == n) names ≡ false
        → Free taken names
        → Free (taken ++ ((name, v) ∷ [])) names
    unfolding Free
    Free-append name v taken [] d f = tt
    Free-append name v taken (n ∷ names) d f = (
      has_key-append ◌==◌ n taken ((name, v) ∷ []) ∙ ground (arith, f.0, d),
      Free-append name v taken names (ground (arith, d)) f.1,
    )

    collect_one :
        (name : String) (o : Option (Measured Value)) (taken : List (String × Value))
        (units : List (String × String)) (rest : List (Observation Value))
        → lookup ◌==◌ name values ≡ o
        → has_key ◌==◌ name taken ≡ false
        → collect readings (observed_one name o ++ rest) taken units
          ≡ collect readings rest (taken ++ kept_value name o) (units ++ kept_unit name o)
    unfolding observed_one kept_value kept_unit collect raw
    collect_one name none taken units rest e free = rw (append-nil taken, append-nil units) refl
    collect_one name (some m) taken units rest e free =
        let (u, f, i) = look name m e in rw (u, free, eq_refl m.unit, f) refl

    Free-kept_value :
        (name : String) (o : Option (Measured Value)) (taken : List (String × Value))
        (names : List String)
        → any (λ n. name == n) names ≡ false
        → Free taken names
        → Free (taken ++ kept_value name o) names
    unfolding kept_value
    Free-kept_value name none taken names d f = rw (append-nil taken) f
    Free-kept_value name (some m) taken names d f = Free-append name m.value taken names d f

    collect-observed :
        (names : List String) (taken : List (String × Value)) (units : List (String × String))
        → is_distinct names ≡ true
        → Free taken names
        → (all_units : List (String × String)) × (collect readings (observed names) taken units
            ≡ ok (taken ++ values_of names, all_units))
    unfolding observed values_of collect Free
    collect-observed [] taken units d f = (units, rw (append-nil taken) refl)
    collect-observed (name ∷ names) taken units d f =
        let o = lookup ◌==◌ name values in
        let (all_units, rest) =
          collect-observed names (taken ++ kept_value name o) (units ++ kept_unit name o)
            (ground (arith, d)) (Free-kept_value name o taken names (ground (arith, d)) f.1) in
        (
          all_units,
          collect_one name o taken units (observed names) refl f.0
              ∙ rest
              ∙ ap (λ v. ok (v, all_units))
                  (append_assoc taken (kept_value name o) (values_of names)),
        )

    -- A name that is asked for and has a value is collected.
    values_of-has_key :
        (names : List String) (name : String)
        → any (λ n. n == name) names ≡ true
        → has_key ◌==◌ name values ≡ true
        → has_key ◌==◌ name (values_of names) ≡ true
    unfolding values_of kept_value
    values_of-has_key [] name h k = cc
    values_of-has_key (n ∷ names) name h k = elim (eq-cases n name) [
      | inl (e, same) ↦
          let (m, found) = has_key-lookup ◌==◌ name values k in rw (same, found, eq_refl name) refl
      | inr e ↦
          has_key-append ◌==◌ name (kept_value n (lookup ◌==◌ n values)) (values_of names)
          ∙ rw (values_of-has_key names name (ground (arith, e, h)) k)
              (either (has_key ◌==◌ name (kept_value n (lookup ◌==◌ n values))))
    ]

    -- All observations are of the asset and the time.
    observed_one-all :
        (test : Observation Value → Bool) (name : String) (o : Option (Measured Value))
        (rest : List (Observation Value))
        → ((m : Measured Value) → test (raw name m) ≡ true)
        → all test rest ≡ true
        → all test (observed_one name o ++ rest) ≡ true
    unfolding observed_one
    observed_one-all test name none rest f h = h
    observed_one-all test name (some m) rest f h = rw (f m) h

    observed-all :
        (test : Observation Value → Bool) (names : List String)
        → ((name : String) (m : Measured Value) → test (raw name m) ≡ true)
        → all test (observed names) ≡ true
    unfolding observed
    observed-all test [] f = refl
    observed-all test (name ∷ names) f =
        observed_one-all test name _ (observed names) (f name) (observed-all test names f)

    missing_none :
        {V : Type 0} (names : List String) (d : List (String × V))
        → is_empty (missing_of names d) ≡ true
        → All (λ name. has_key ◌==◌ name d ≡ true) names
    missing_none [] d h = tt
    missing_none (name ∷ names) d h = elim (Bool-cases (has_key ◌==◌ name d)) [
      | inl e ↦ (e, missing_none names d (rw e at h))
      | inr e ↦ cc (rw e at h)
    ]

    none_missing :
        {V : Type 0} (names : List String) (d : List (String × V))
        → All (λ name. has_key ◌==◌ name d ≡ true) names
        → is_empty (missing_of names d) ≡ true
    none_missing [] d hs = refl
    none_missing (name ∷ names) d hs = rw hs.0 (none_missing names d hs.1)

    from_observations_ok :
        (first : Observation Value) (others : List (Observation Value)) (vs : List (String × Value))
        (us : List (String × String))
        → all (λ o. o.asset_id == first.asset_id) others ≡ true
        → all (λ o. eqb o.timestamp first.timestamp) others ≡ true
        → collect readings (first ∷ others) [] [] ≡ ok (vs, us)
        → is_empty (missing_of required_measurements vs) ≡ true
        → (sample : TelemetrySample Value) × (from_observations readings (first ∷ others)
            ≡ ok sample)
    unfolding from_observations
    from_observations_ok first others vs us a t c e = (
      record { asset_id = first.asset_id; timestamp = first.timestamp; values = vs; units = us },
      rw (a, t, c, e) refl,
    )

    -- The measurements behind the first of the canonical order.
    abbrev others_in_order : List String
    others_in_order = drop 1 measurement_order

    order_given : All (λ name. (name == "") ≡ false) measurement_order
    order_given = (refl, (refl, (refl, (refl, (refl, (refl, (refl, (refl, tt))))))))

    order-Free : Free [] measurement_order
    unfolding Free
    order-Free = (refl, (refl, (refl, (refl, (refl, (refl, (refl, (refl, tt))))))))

    required_in_order :
        All (λ name. any (λ n. n == name) measurement_order ≡ true) required_measurements
    required_in_order = (refl, (refl, (refl, (refl, (refl, (refl, (refl, tt)))))))

    still_there :
        (names : List String)
        → All (λ name. any (λ n. n == name) measurement_order ≡ true) names
        → All (λ name. has_key ◌==◌ name values ≡ true) names
        → All (λ name. has_key ◌==◌ name (values_of measurement_order) ≡ true) names
    still_there [] inside there = tt
    still_there (name ∷ names) inside there = (
      values_of-has_key measurement_order name inside.0 there.0,
      still_there names inside.1 there.1,
    )

    built_from :
        (m : Measured Value)
        → observed measurement_order ≡ raw "stack_temperature" m ∷ observed others_in_order
        → is_empty (missing_of required_measurements (values_of measurement_order)) ≡ true
        → (sample : TelemetrySample Value) × (from_observations readings
              (observed measurement_order)
            ≡ ok sample)
    unfolding raw
    built_from m e complete =
        let (us, collected) = collect-observed measurement_order [] [] refl order-Free in
        let (sample, made) =
          from_observations_ok (raw "stack_temperature" m) (observed others_in_order) _ us
            (observed-all _ others_in_order (λ name m. eq_refl asset_id))
            (observed-all _ others_in_order (λ name m. (eqb_iff timestamp timestamp).1 refl))
            (sym (ap (λ os. collect readings os [] []) e) ∙ collected) complete in
        (sample, ap (from_observations readings) e ∙ made)

    -- Where no required measurement is missing, the sample is built.
    pub sample_total :
        is_empty (missing_of required_measurements values) ≡ true
        → (sample : TelemetrySample Value) × ((observations_of readings asset_id timestamp values
                measurement_order
              >>= from_observations readings)
            ≡ ok sample)
    unfolding observed observed_one
    sample_total complete =
        let there = missing_none required_measurements values complete in
        let (m, found) = has_key-lookup ◌==◌ "stack_temperature" values there.0 in
        let (sample, made) =
          built_from m
            (ap (λ o. observed_one "stack_temperature" o ++ observed others_in_order) found)
            (none_missing required_measurements (values_of measurement_order)
              (still_there required_measurements required_in_order there)) in
        (
          sample,
          ap (λ r. r >>= from_observations readings)
                (observations_of-observed measurement_order order_given)
              ∙ made,
        )
