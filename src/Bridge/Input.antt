-- ===== src/Bridge/Input.antt =====
-- backend/app/application/reasoning_bridge/input_events.py: validation of a decoded message. A value
-- is one of JSON; `parse_timestamp` (which stands for `datetime.fromisoformat`), `text` (Python's
-- `str` of a value) and the numbers with their tests are parameters: an integer without a double makes
-- `float` raise. The fields of the result that
-- the bridge does not read are left out.
pub mod Accepted
use odis.Bridge.Types.{AlertTransitionType, confirmed, class_changed, cleared}
use odis.Bridge.Service.{ValidatedAlertTransition}
use odis.Prelude.{
  ℕ, String, ◌≡◌, refl, Bool, true, false, not, ◌&&◌, Option, none, some, List, [], ◌∷◌, ◌==◌,
  if◌then◌else◌,
}
use odis.Prelude.Result.{
  Result, ◌>>◌, ◌>>=◌, raise_if, err, ok, or_raise, type_error, overflow_error, missing_field,
  malformed_scores, malformed_timestamp, unsupported_transition_type, unsupported_event_version,
  malformed_state, healthy_class_rejected,
}
use odis.AlertPolicy.State.{confirmed_state}
use odis.Prelude.Text.{strip_prefix, is_infix}

mutual
  pub data Json (Number : Type 0) : Type 0 where
    null : Json Number
    boolean : Bool → Json Number
    number : Number → Json Number
    string : String → Json Number
    array : Items Number → Json Number
    object : Fields Number → Json Number

  pub data Items (Number : Type 0) : Type 0 where
    no_items : Items Number
    item : Json Number → Items Number → Items Number

  pub data Fields (Number : Type 0) : Type 0 where
    no_fields : Fields Number
    field : String → Json Number → Fields Number → Fields Number

-- `name in items` for a list, where `name` is a text
abbrev pub has_item : {Number : Type 0} → String → Items Number → Bool
has_item name no_items = false
has_item name (item (string s) items) = if s == name then true else has_item name items
has_item name (item _ items) = has_item name items

pub record JsonValues : Type 1 where
  pub Number : Type 0
  pub has_double : Number → Bool
  pub is_finite : Number → Bool
  pub is_in_unit_interval : Number → Bool
  pub text : Json Number → String
  pub parse_timestamp : String → Option ℕ

abbrev pub required_fields : List String
required_fields =
    "event_id" ∷ "event_version" ∷ "asset_id" ∷ "source_timestamp" ∷ "transition_type"
    ∷ "from_state" ∷ "to_state" ∷ "diagnosed_class" ∷ "evidence" ∷ "model_system_version"
    ∷ "model_hash" ∷ "policy_hash" ∷ "feature_schema_version" ∷ "class_scores" ∷ "maximum_score"
    ∷ []

-- The state that a transition is about.
abbrev subject_state : AlertTransitionType → String → String → String
subject_state cleared from_state to_state = from_state
subject_state _ from_state to_state = to_state

-- `_extract_fault_class`
unfoldable pub extract_fault_class : AlertTransitionType → String → String → Result String
extract_fault_class transition from_state to_state =
    elim (strip_prefix "confirmed_" (subject_state transition from_state to_state)) [
      | none ↦ err malformed_state
      | some fault_class ↦ if fault_class == "" then err malformed_state else ok fault_class
    ]

module _ (values : JsonValues) where
  open values use {Number, has_double, is_finite, is_in_unit_interval, text, parse_timestamp}

  -- `raw.get(name)`, where a null counts as missing
  abbrev pub get_field : String → Fields Number → Option (Json Number)
  get_field name no_fields = none
  get_field name (field key null rest) = if key == name then none else get_field name rest
  get_field name (field key value rest) = if key == name then some value else get_field name rest

  abbrev pub require : String → Fields Number → Result (Json Number)
  require name raw = or_raise (get_field name raw) (missing_field name)

  unfoldable pub check_required : List String → Fields Number → Result (Unit {0})
  check_required [] raw = ok tt
  check_required (name ∷ names) raw = require name raw >>= λ _. check_required names raw

  -- `value in {...}` for a set of strings: a list or an object has no hash.
  abbrev hashed : Json Number → Result (Option String)
  hashed (array _) = err type_error
  hashed (object _) = err type_error
  hashed (string s) = ok (some s)
  hashed _ = ok none

  unfoldable pub check_version : Json Number → Result (Unit {0})
  check_version value = hashed value >>= λ s.
      raise_if (not (elim s [ none ↦ false | some v ↦ v == "v1" ])) unsupported_event_version

  abbrev transition_named : String → Result AlertTransitionType
  transition_named s =
      if s == "confirmed"
      then ok confirmed
      else if s == "class_changed"
      then ok class_changed
      else if s == "cleared"
      then ok cleared
      else err unsupported_transition_type

  unfoldable pub parse_transition : Json Number → Result AlertTransitionType
  parse_transition value = hashed value >>= λ s. elim s [
    | none ↦ err unsupported_transition_type
    | some t ↦ transition_named t
  ]

  unfoldable pub parse_asset : Json Number → Result String
  parse_asset (string s) = if s == "" then err (missing_field "asset_id") else ok s
  parse_asset _ = err (missing_field "asset_id")

  unfoldable pub parse_source_timestamp : Json Number → Result ℕ
  parse_source_timestamp (string s) = or_raise (parse_timestamp s) malformed_timestamp
  parse_source_timestamp _ = err malformed_timestamp

  unfoldable pub check_evidence_list : Json Number → Result (Unit {0})
  check_evidence_list (array _) = ok tt
  check_evidence_list _ = err malformed_scores

  abbrev check_scores : Fields Number → Result (Unit {0})
  check_scores no_fields = ok tt
  check_scores (field key (number n) rest) =
      let more = check_scores rest in
      if has_double n
      then (if is_finite n then more else err malformed_scores)
      else err overflow_error
  check_scores (field key _ rest) = err malformed_scores

  unfoldable pub check_class_scores : Json Number → Result (Unit {0})
  check_class_scores (object no_fields) = err malformed_scores
  check_class_scores (object (field key value rest)) = check_scores (field key value rest)
  check_class_scores _ = err malformed_scores

  -- Whether the score is between 0 and 1, which it has to be.
  unfoldable pub check_maximum_score : Json Number → Result Bool
  check_maximum_score (number n) =
      if has_double n
      then (if is_finite n && is_in_unit_interval n
          then ok (is_in_unit_interval n)
          else err malformed_scores)
      else err overflow_error
  check_maximum_score _ = err malformed_scores

  unfoldable pub validate_alert_transition : Fields Number → Result ValidatedAlertTransition
  unfolding check_required check_version parse_transition parse_asset parse_source_timestamp
      check_evidence_list check_class_scores check_maximum_score extract_fault_class
  validate_alert_transition raw = do
    check_required required_fields raw
    version ← require "event_version" raw
    check_version version
    transition_type ← require "transition_type" raw >>= parse_transition
    asset_id ← require "asset_id" raw >>= parse_asset
    source_timestamp ← require "source_timestamp" raw >>= parse_source_timestamp
    from_state ← require "from_state" raw
    to_state ← require "to_state" raw
    fault_class ← extract_fault_class transition_type (text from_state) (text to_state)
    raise_if (fault_class == "healthy") healthy_class_rejected
    diagnosed_class ← require "diagnosed_class" raw
    require "evidence" raw >>= check_evidence_list
    require "class_scores" raw >>= check_class_scores
    maximum ← require "maximum_score" raw >>= check_maximum_score
    event_id ← require "event_id" raw
    model_system_version ← require "model_system_version" raw
    model_hash ← require "model_hash" raw
    policy_hash ← require "policy_hash" raw
    feature_schema_version ← require "feature_schema_version" raw
    ok (record {
      event_id = text event_id;
      event_version = text version;
      asset_id = asset_id;
      source_timestamp = source_timestamp;
      transition_type = transition_type;
      from_state = text from_state;
      to_state = text to_state;
      fault_class = fault_class;
      diagnosed_class = text diagnosed_class;
      model_system_version = text model_system_version;
      model_hash = text model_hash;
      policy_hash = text policy_hash;
      feature_schema_version = text feature_schema_version;
      maximum_score_in_range = maximum;
    })

  -- `validate_alert_transition` of any decoded message: `in` has no meaning on a number, a Boolean or a
  -- null, and a text or a list that has the name of the first required field in it has no index of that kind.
  abbrev pub validate_decoded : Json Number → Result ValidatedAlertTransition
  validate_decoded (object raw) = validate_alert_transition raw
  validate_decoded (string s) =
      if is_infix "event_id" s then err type_error else err (missing_field "event_id")
  validate_decoded (array items) =
      if has_item "event_id" items then err type_error else err (missing_field "event_id")
  validate_decoded _ = err type_error

-- The class that the alert policy put behind its prefix is the class that the bridge extracts, from
-- the state that the transition is about, for every class but the empty one.
pub extract-confirmed_state :
    (c other : String)
    → (c == "") ≡ false
    → (extract_fault_class confirmed other (confirmed_state c) ≡ ok c)
      × (extract_fault_class class_changed other (confirmed_state c) ≡ ok c)
      × (extract_fault_class cleared (confirmed_state c) other ≡ ok c)
unfolding extract_fault_class
extract-confirmed_state c other h = (rw h refl, rw h refl, rw h refl)
