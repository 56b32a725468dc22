-- ===== src/Bridge/Input/Accepted.antt =====
-- What validation accepts.
use mathlib.Core.Path.{subst}
use odis.Bridge.Input.{
  JsonValues, Fields, validate_alert_transition, extract_fault_class, check_required,
  required_fields, require, check_version, parse_transition, parse_asset, parse_source_timestamp,
  check_evidence_list, check_class_scores, check_maximum_score, healthy_class_rejected, Json,
  string, number, malformed_state, missing_field,
}
use odis.Bridge.Service.{ValidatedAlertTransition}
use odis.AlertPolicy.State.{confirmed_state}
use odis.Bridge.Types.{AlertTransitionType, confirmed, class_changed, cleared}
use odis.Prelude.Text.{strip_prefix, strip_prefix-some}
use odis.Prelude.Result.{
  malformed_scores, ok, err, guarded, let_through, >>=-eq-ok, ok-injective, raise_if, Error, ◌>>=◌,
}
use odis.Prelude.{
  Bool-cases, inl, inr, ◌&&◌, sym, ◌∙◌, if◌then◌else◌, Option, none, some, String, ◌≡◌, refl, Bool,
  true, false, ◌==◌,
}

raised-not : (b : Bool) (raised : Error) {u : Unit {0}} → raise_if b raised ≡ ok u → b ≡ false
raised-not true raised h = cc
raised-not false raised h = refl

-- The state that a transition is about is the alert policy's confirmed state of the class: that which it
-- leaves where it is cleared, and else that which it enters.
abbrev pub Names : AlertTransitionType → String → String → String → Type 0
Names confirmed from_state to_state fault_class = to_state ≡ confirmed_state fault_class
Names class_changed from_state to_state fault_class = to_state ≡ confirmed_state fault_class
Names cleared from_state to_state fault_class = from_state ≡ confirmed_state fault_class

-- The class of an event is the one that its states name, and neither empty nor `healthy`; it has an asset,
-- and a maximum score in range.
abbrev pub IsConsistent : ValidatedAlertTransition → Type 0
IsConsistent e =
    Names e.transition_type e.from_state e.to_state e.fault_class
    × ((e.fault_class == "") ≡ false)
    × ((e.fault_class == "healthy") ≡ false)
    × ((e.asset_id == "") ≡ false)
    × (e.maximum_score_in_range ≡ true)

-- A state from which a class is read is the confirmed state of it.
named :
    (state c : String) (o : Option String)
    → strip_prefix "confirmed_" state ≡ o
    → elim o [
      | none ↦ err malformed_state
      | some fault_class ↦ if fault_class == "" then err malformed_state else ok fault_class
    ]
      ≡ ok c
    → (state ≡ confirmed_state c) × ((c == "") ≡ false)
named state c none e h = cc
named state c (some rest) e h =
    let (given, same) = guarded (rest == "") malformed_state (ok rest) h in
    subst (λ x. (state ≡ confirmed_state x) × ((x == "") ≡ false)) (ok-injective same)
      (strip_prefix-some "confirmed_" state rest e, given)

extract-Names :
    (t : AlertTransitionType) (from_state to_state c : String)
    → extract_fault_class t from_state to_state ≡ ok c
    → Names t from_state to_state c × ((c == "") ≡ false)
unfolding extract_fault_class
extract-Names confirmed from_state to_state c h = named to_state c _ refl h
extract-Names class_changed from_state to_state c h = named to_state c _ refl h
extract-Names cleared from_state to_state c h = named from_state c _ refl h

parse_asset-given :
    (values : JsonValues) (j : Json values.Number) (s : String)
    → parse_asset values j ≡ ok s
    → (s == "") ≡ false
unfolding parse_asset
parse_asset-given values (string s) t h =
    let (e, same) = guarded (s == "") (missing_field "asset_id") (ok s) h in
    subst (λ x. (x == "") ≡ false) (ok-injective same) e
parse_asset-given values _ t h = cc

and-right : (a b : Bool) → (a && b) ≡ true → b ≡ true
and-right true b h = h
and-right false b h = cc

check_maximum_score-in_range :
    (values : JsonValues) (j : Json values.Number) (b : Bool)
    → check_maximum_score values j ≡ ok b
    → b ≡ true
unfolding check_maximum_score
check_maximum_score-in_range values (number n) b h = elim (Bool-cases (values.has_double n)) [
  | inl e ↦
      let in_range = values.is_in_unit_interval n in
      let (both, same) =
        let_through (values.is_finite n && in_range) malformed_scores in_range (rw e at h) in
      sym same ∙ and-right (values.is_finite n) in_range both
  | inr e ↦ cc (rw e at h)
]
check_maximum_score-in_range values _ b h = cc

module _ (values : JsonValues) where
  open values use {Number}

  -- A message that is accepted is about the confirmed state of the class of its event, the one that it
  -- leaves where it is cleared and else the one that it enters. The class is neither empty nor `healthy`,
  -- the asset is not empty, and the maximum score is between 0 and 1.
  pub validate-IsConsistent :
      (raw : Fields Number) (e : ValidatedAlertTransition)
      → validate_alert_transition values raw ≡ ok e
      → IsConsistent e
  unfolding validate_alert_transition
  validate-IsConsistent raw e h =
      let (_, _, h1) = >>=-eq-ok (check_required values required_fields raw) _ h in
      let (version, _, h2) = >>=-eq-ok (require values "event_version" raw) _ h1 in
      let (_, _, h3) = >>=-eq-ok (check_version values version) _ h2 in
      let (t, _, h4) =
        >>=-eq-ok (require values "transition_type" raw >>= parse_transition values) _ h3 in
      let (asset, a, h5) = >>=-eq-ok (require values "asset_id" raw >>= parse_asset values) _ h4 in
      let (_, _, h6) =
        >>=-eq-ok (require values "source_timestamp" raw >>= parse_source_timestamp values) _ h5 in
      let (from_state, _, h7) = >>=-eq-ok (require values "from_state" raw) _ h6 in
      let (to_state, _, h8) = >>=-eq-ok (require values "to_state" raw) _ h7 in
      let (c, extracted, h9) =
        >>=-eq-ok (extract_fault_class t (values.text from_state) (values.text to_state)) _ h8 in
      let (_, checked, h10) = >>=-eq-ok (raise_if (c == "healthy") healthy_class_rejected) _ h9 in
      let (_, _, h11) = >>=-eq-ok (require values "diagnosed_class" raw) _ h10 in
      let (_, _, h12) =
        >>=-eq-ok (require values "evidence" raw >>= check_evidence_list values) _ h11 in
      let (_, _, h13) =
        >>=-eq-ok (require values "class_scores" raw >>= check_class_scores values) _ h12 in
      let (_, m, h14) =
        >>=-eq-ok (require values "maximum_score" raw >>= check_maximum_score values) _ h13 in
      let (_, _, h15) = >>=-eq-ok (require values "event_id" raw) _ h14 in
      let (_, _, h16) = >>=-eq-ok (require values "model_system_version" raw) _ h15 in
      let (_, _, h17) = >>=-eq-ok (require values "model_hash" raw) _ h16 in
      let (_, _, h18) = >>=-eq-ok (require values "policy_hash" raw) _ h17 in
      let (_, _, h19) = >>=-eq-ok (require values "feature_schema_version" raw) _ h18 in
      let (j, _, parsed) = >>=-eq-ok (require values "asset_id" raw) (parse_asset values) a in
      let (k, _, ranged) =
        >>=-eq-ok (require values "maximum_score" raw) (check_maximum_score values) m in
      let (names, given) = extract-Names t _ _ c extracted in
      subst IsConsistent (ok-injective h19) (
        names,
        given,
        raised-not (c == "healthy") healthy_class_rejected checked,
        parse_asset-given values j asset parsed,
        check_maximum_score-in_range values k _ ranged,
      )
