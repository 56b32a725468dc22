-- ===== src/Bridge/Process/Occurrence.antt =====
-- One fault occurrence per asset: what the store says of the open investigation.
use odis.Bridge.Process.{process_alert_transition, decision_for}
use odis.Bridge.Process.Replay.{processed, record_transition-ok}
use odis.Bridge.Process.Latest.{Before, latest-newest, latest-other}
use odis.Bridge.Service.{
  Store, ValidatedAlertTransition, ProcessingOutcome, evidence_of, get_evidence,
  get_latest_for_asset,
}
use odis.Bridge.Lifecycle.{AiFaultEvidence, decide_investigation, is_open}
use odis.Engine.Observation.{Floats}
use odis.Prelude.{
  ℕ, String, ◌≡◌, inl, inr, Bool, false, Option, none, some, List, ◌==◌, if◌then◌else◌, refl, ap,
  ◌∙◌, [], ◌∷◌, ◌++◌, arith,
}
use odis.Prelude.Result.{Result, ok}
use odis.Bridge.Types.{cleared, confirmed, class_changed, AlertTransitionType}
use odis.Prelude.Text.{eq_refl}

abbrev investigation_of : Option AiFaultEvidence → Option String
investigation_of none = none
investigation_of (some e) = if is_open e.investigation_status then some e.investigation_id else none

-- The investigation of an asset that is open, if there is one.
unfoldable pub open_investigation :
    (String → String → Bool) → String → List AiFaultEvidence → Option String
open_investigation id_before asset es = investigation_of (get_latest_for_asset id_before asset es)

-- The occurrence that a transition leaves open: none behind a clear, and else the open one or,
-- where there is none, a new one.
unfoldable pub next_open : String → AlertTransitionType → Option String → Option String
next_open uuid4 cleared current = none
next_open uuid4 _ none = some uuid4
next_open uuid4 _ (some id) = some id

decision-open :
    (uuid4 : String) (transition : AlertTransitionType) (fault_class : String)
    (active : Option AiFaultEvidence)
    → let d = decide_investigation uuid4 transition fault_class active in
      (if is_open d.investigation_status then some d.investigation_id else none)
      ≡ next_open uuid4 transition (investigation_of active)
unfolding decide_investigation next_open
decision-open uuid4 cleared fault_class none = refl
decision-open uuid4 cleared fault_class (some e) = ground arith
decision-open uuid4 confirmed fault_class none = refl
decision-open uuid4 confirmed fault_class (some e) = ground arith
decision-open uuid4 class_changed fault_class none = refl
decision-open uuid4 class_changed fault_class (some e) = ground arith

module _ (floats : Floats) (id_before : String → String → Bool) where
  open floats use {Value}

  -- An event that the store has no row of, that was observed after every row of its asset and
  -- whose processing returned moves the open investigation of that asset by `next_open`, and
  -- leaves that of every other asset alone.
  pub process-next_open :
      (uuid4 : String) (now : ℕ) (bus : Bool) (dispatched : Result (Unit {0}))
      (event : ValidatedAlertTransition) (store store' : Store Value) (o : ProcessingOutcome)
      → process_alert_transition floats id_before uuid4 now bus dispatched event store
        ≡ (store', ok o)
      → get_evidence event.event_id store.evidence ≡ none
      → Before id_before event.asset_id event.source_timestamp store.evidence
      → (asset : String) → (event.asset_id == asset) ≡ false
      → (open_investigation id_before event.asset_id store'.evidence
          ≡ next_open uuid4 event.transition_type
              (open_investigation id_before event.asset_id store.evidence))
        × (open_investigation id_before asset store'.evidence
            ≡ open_investigation id_before asset store.evidence)
  unfolding open_investigation
  process-next_open uuid4 now bus dispatched event store store' o h absent before asset other =
      let (_, branch) =
        processed floats id_before uuid4 now bus dispatched event store store' o h in
      elim branch [
        | inl (found, _, _) ↦ cc
        | inr (_, recorded, _) ↦
            let (a, _, e, grown, _) =
              record_transition-ok floats id_before uuid4 now bus event store (store', o.evidence)
                recorded in
            let row = evidence_of event (decision_for floats id_before uuid4 event store) a.0 a.1 in
            let grown' : store'.evidence ≡ store.evidence ++ (row ∷ []) =
              grown ∙ ap (λ (x : AiFaultEvidence). store.evidence ++ (x ∷ [])) e in
            (
              ap (open_investigation id_before event.asset_id) grown'
                  ∙ ap investigation_of (
                      latest-newest id_before event.asset_id row store.evidence
                        (eq_refl event.asset_id) before)
                  ∙ decision-open uuid4 event.transition_type event.fault_class
                      (get_latest_for_asset id_before event.asset_id store.evidence),
              ap (open_investigation id_before asset) grown'
                  ∙ ap investigation_of (latest-other id_before asset row store.evidence other),
            )
      ]
