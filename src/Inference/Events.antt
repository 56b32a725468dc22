-- ===== src/Inference/Events.antt =====
-- backend/simulator/inference_worker/events.py, `validate_telemetry_event`, over the JSON values of
-- Bridge.Input. `float` stands for Python's `float` of a JSON number, which raises on an integer that is
-- too large.
use odis.Bridge.Input.{
  JsonValues, Json, Fields, string, number, array, object, check_required, require, check_version,
  parse_source_timestamp, get_field,
}
use odis.Inference.Telemetry.{Readings, canonical_units}
use odis.Inference.Assembly.Totality.{IsValidated}
use mathlib.Core.Path.{subst}
use odis.Inference.Assembly.{TelemetryObservationEvent}
use odis.Prelude.Dict.{lookup}
use odis.Prelude.{
  eq_iff, ap, sym, ◌∙◌, String, ◌≡◌, true, false, some, List, [], ◌∷◌, ◌==◌, if◌then◌else◌,
}
use odis.Prelude.Result.{
  Result, or_raise, ◌>>=◌, ok, ◌>>◌, err, non_finite_value, invalid_asset_id, unit_mismatch,
  unsupported_measurement, guarded, type_error, ok-injective, >>=-eq-ok, or_raise-ok, let_through,
  missing_field,
}

abbrev pub required_input_fields : List String
required_input_fields =
    "event_id" ∷ "event_version" ∷ "asset_id" ∷ "timestamp" ∷ "measurement_name" ∷ "value" ∷ "unit"
    ∷ "source" ∷ []

module _ (values : JsonValues) (readings : Readings)
    (float : values.Number → Result readings.Value) where
  open values use {Number, text}
  open readings use {Value, isfinite}

  -- `isinstance(asset_id, str) and asset_id`
  abbrev pub asset_of : Json Number → Result String
  asset_of (string s) = if s == "" then err invalid_asset_id else ok s
  asset_of _ = err invalid_asset_id

  -- The measurement's name with its canonical unit: a list or an object has no hash.
  abbrev pub measurement_of : Json Number → Result (String × String)
  measurement_of (string s) =
      or_raise (lookup ◌==◌ s canonical_units) unsupported_measurement >>= λ unit. ok (s, unit)
  measurement_of (array _) = err type_error
  measurement_of (object _) = err type_error
  measurement_of _ = err unsupported_measurement

  -- The unit of the message, where it is the expected one.
  abbrev pub check_unit : String → Json Number → Result String
  check_unit expected (string u) = if u == expected then ok u else err unit_mismatch
  check_unit expected _ = err unit_mismatch

  abbrev pub value_of : Json Number → Result Value
  value_of (number n) =
      float n >>= λ value. if isfinite value then ok value else err non_finite_value
  value_of _ = err non_finite_value

  unfoldable pub validate_telemetry_event : Fields Number → Result (TelemetryObservationEvent Value)
  unfolding check_required check_version parse_source_timestamp
  validate_telemetry_event raw = do
    check_required values required_input_fields raw
    require values "event_version" raw >>= check_version values
    asset_id ← require values "asset_id" raw >>= asset_of
    timestamp ← require values "timestamp" raw >>= parse_source_timestamp values
    (measurement_name, expected_unit) ← require values "measurement_name" raw >>= measurement_of
    unit ← require values "unit" raw >>= check_unit expected_unit
    value ← require values "value" raw >>= value_of
    event_id ← require values "event_id" raw
    ok (record {
      event_id = text event_id;
      asset_id = asset_id;
      timestamp = timestamp;
      measurement_name = measurement_name;
      value = value;
      unit = unit;
    })

  asset_of-given : (j : Json Number) (s : String) → asset_of j ≡ ok s → (s == "") ≡ false
  asset_of-given (string s) t h =
      let (e, same) = guarded (s == "") invalid_asset_id (ok s) h in
      subst (λ x. (x == "") ≡ false) (ok-injective same) e
  asset_of-given _ t h = cc

  measurement_of-canonical :
      (j : Json Number) (m : String × String)
      → measurement_of j ≡ ok m
      → lookup ◌==◌ m.0 canonical_units ≡ some m.1
  measurement_of-canonical (string s) m h =
      let (unit, found, same) =
        >>=-eq-ok (or_raise (lookup ◌==◌ s canonical_units) unsupported_measurement) _ h in
      subst (λ (x : String × String). lookup ◌==◌ x.0 canonical_units ≡ some x.1)
        (ok-injective same)
        (or_raise-ok (lookup ◌==◌ s canonical_units) unsupported_measurement found)
  measurement_of-canonical _ m h = cc

  value_of-finite : (j : Json Number) (v : Value) → value_of j ≡ ok v → isfinite v ≡ true
  value_of-finite (number n) v h =
      let (w, _, kept) = >>=-eq-ok (float n) _ h in
      let (finite, same) = let_through (isfinite w) non_finite_value w kept in
      subst (λ x. isfinite x ≡ true) same finite
  value_of-finite _ v h = cc

  check_unit-expected :
      (expected : String) (j : Json Number) (u : String)
      → check_unit expected j ≡ ok u
      → (j ≡ string u) × (u ≡ expected)
  check_unit-expected expected (string u) v h =
      let (e, same) = let_through (u == expected) unit_mismatch u h in
      (ap (λ x. string x) same, sym same ∙ (eq_iff u expected).0 e)
  check_unit-expected expected _ v h = cc

  -- An event with an asset, a canonical measurement in its unit, and a finite value.
  abbrev pub IsCanonical : TelemetryObservationEvent Value → Type 0
  IsCanonical e =
      ((e.asset_id == "") ≡ false)
      × (lookup ◌==◌ e.measurement_name canonical_units ≡ some e.unit)
      × (isfinite e.value ≡ true)

  -- A message that is accepted says the unit that its event has, and the event has an asset, a canonical
  -- measurement in its canonical unit, and a finite value.
  pub validate-IsCanonical :
      (raw : Fields Number) (event : TelemetryObservationEvent Value)
      → validate_telemetry_event raw ≡ ok event
      → (get_field values "unit" raw ≡ some (string event.unit)) × IsCanonical event
  unfolding validate_telemetry_event
  validate-IsCanonical raw event h =
      let (_, _, h1) = >>=-eq-ok (check_required values required_input_fields raw) _ h in
      let (_, _, h2) =
        >>=-eq-ok (require values "event_version" raw >>= check_version values) _ h1 in
      let (asset_id, a, h3) = >>=-eq-ok (require values "asset_id" raw >>= asset_of) _ h2 in
      let (_, _, h4) =
        >>=-eq-ok (require values "timestamp" raw >>= parse_source_timestamp values) _ h3 in
      let ((name, expected), m, h5) =
        >>=-eq-ok (require values "measurement_name" raw >>= measurement_of) _ h4 in
      let (unit, u, h6) = >>=-eq-ok (require values "unit" raw >>= check_unit expected) _ h5 in
      let (value, v, h7) = >>=-eq-ok (require values "value" raw >>= value_of) _ h6 in
      let (id, _, h8) = >>=-eq-ok (require values "event_id" raw) _ h7 in
      let (j, _, asset_given) = >>=-eq-ok (require values "asset_id" raw) asset_of a in
      let (k, _, canonical) = >>=-eq-ok (require values "measurement_name" raw) measurement_of m in
      let (l, _, finite) = >>=-eq-ok (require values "value" raw) value_of v in
      let (w, said, checked) = >>=-eq-ok (require values "unit" raw) (check_unit expected) u in
      let (there, same) = check_unit-expected expected w unit checked in
      subst
        (λ (e : TelemetryObservationEvent Value).
          (get_field values "unit" raw ≡ some (string e.unit)) × IsCanonical e)
        (ok-injective h8)
        (
          or_raise-ok (get_field values "unit" raw) (missing_field "unit") said
              ∙ ap (λ x. some x) there,
          (
            asset_of-given j asset_id asset_given,
            measurement_of-canonical k (name, expected) canonical ∙ ap (λ x. some x) (sym same),
            value_of-finite l value finite,
          ),
        )

  -- The assembler may count on an accepted event whose identifier is not empty.
  pub validate-IsValidated :
      (raw : Fields Number) (event : TelemetryObservationEvent Value)
      → validate_telemetry_event raw ≡ ok event
      → (event.event_id == "") ≡ false
      → IsValidated readings event
  validate-IsValidated raw event h given =
      let (_, (asset, measurement, finite)) = validate-IsCanonical raw event h in
      (asset, (measurement, finite, given))
