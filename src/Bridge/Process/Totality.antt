-- ===== src/Bridge/Process/Totality.antt =====
-- Where `process_alert_transition` cannot raise.
use odis.Bridge.Service.{ValidatedAlertTransition, TimelineEvent, is_untold}
use odis.Bridge.Lifecycle.{AiFaultEvidence}
use odis.Prelude.{◌≡◌, false, Option, none, some, ◌==◌, true}

-- What `AiFaultEvidence` requires is there: identifiers, which validation does not ask for, and a maximum
-- score in range.
abbrev pub IsIdentified : ValidatedAlertTransition → Type 0
IsIdentified e =
    ((e.event_id == "") ≡ false)
    × ((e.asset_id == "") ≡ false)
    × ((e.fault_class == "") ≡ false)
    × ((e.model_system_version == "") ≡ false)
    × ((e.model_hash == "") ≡ false)
    × ((e.policy_hash == "") ≡ false)
    × ((e.feature_schema_version == "") ≡ false)
    × (e.maximum_score_in_range ≡ true)

abbrev pub HasInvestigation : AiFaultEvidence → Type 0
HasInvestigation e = (e.investigation_id == "") ≡ false

abbrev HasInvestigation? : Option AiFaultEvidence → Type 0
HasInvestigation? none = Unit
HasInvestigation? (some e) = HasInvestigation e

abbrev Tells : TimelineEvent → Type 0
Tells t = is_untold t ≡ false
