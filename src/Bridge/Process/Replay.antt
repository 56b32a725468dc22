-- ===== src/Bridge/Process/Replay.antt =====
-- The same event twice.
use mathlib.Core.Path.{subst}
use odis.Bridge.Process.{
  record_transition, timeline_entries, fresh_outcome, decision_for, commit,
  process_alert_transition, unless_recorded, duplicate_outcome,
}
use odis.Bridge.Service.{
  Store, ValidatedAlertTransition, ProcessingOutcome, evidence_of, assess_transition,
  check_evidence, check_timeline, get_evidence,
}
use odis.Engine.Observation.{Floats}
use odis.Prelude.{
  ℕ, String, ◌≡◌, sym, ap, Bool, Option, [], ◌∷◌, ◌++◌, refl, ◌∙◌, if◌then◌else◌, ◌⊎◌, inl, inr,
  true, false, not, none, some, List,
}
use odis.Bridge.Lifecycle.{AiFaultEvidence, InvestigationDecision}
use odis.Prelude.Result.{ok, >>=-eq-ok, ok-injective, Result, err, unsupported_fault_class}
use odis.Bridge.Types.{CorroborationOutcome, FaultRecommendation}
use odis.Bridge.Mapping.{is_supported_fault_class}
use odis.Bridge.Process.Latest.{get_evidence-append}

module _ (floats : Floats) (id_before : String → String → Bool) where
  open floats use {Value}

  -- What a recorded transition leaves.
  pub record_transition-ok :
      (uuid4 : String) (now : ℕ) (bus : Bool) (event : ValidatedAlertTransition)
      (store : Store Value) (r : Store Value × AiFaultEvidence)
      → record_transition floats id_before uuid4 now bus event store ≡ ok r
      → (a : CorroborationOutcome × Option FaultRecommendation) × (assess_transition floats
            id_before store.observations event
            (decision_for floats id_before uuid4 event store)
          ≡ ok a)
        × (r.1 ≡ evidence_of event (decision_for floats id_before uuid4 event store) a.0 a.1)
        × (r.0.evidence ≡ store.evidence ++ (r.1 ∷ []))
        × (r.0.observations ≡ store.observations)
  unfolding record_transition
  record_transition-ok uuid4 now bus event store r h =
      let d = decision_for floats id_before uuid4 event store in
      let (a, assessed, h1) =
        >>=-eq-ok (assess_transition floats id_before store.observations event d) _ h in
      let (_, _, h2) = >>=-eq-ok (check_evidence (evidence_of event d a.0 a.1)) _ h1 in
      let (_, _, h3) = >>=-eq-ok (check_timeline (timeline_entries now event d a.0 a.1)) _ h2 in
      let e = ok-injective h3 in
      (
        a,
        assessed,
        sym (ap (λ (p : Store Value × AiFaultEvidence). p.1) e),
        subst (λ (p : Store Value × AiFaultEvidence). p.0.evidence ≡ store.evidence ++ (p.1 ∷ [])) e
            refl,
        sym (ap (λ (p : Store Value × AiFaultEvidence). p.0.observations) e),
      )

  abbrev Processed : Type 0
  Processed = Store Value × Result ProcessingOutcome

  committed :
      (bus : Bool) (dispatched : Result (Unit {0})) (d : InvestigationDecision)
      (store : Store Value) (m : Result (Store Value × AiFaultEvidence)) (store' : Store Value)
      (o : ProcessingOutcome)
      → commit floats id_before bus dispatched d store m ≡ (store', ok o)
      → (m ≡ ok (store', o.evidence)) × (o ≡ fresh_outcome o.evidence d)
  committed bus dispatched d store (err e) store' o h = cc
  committed bus dispatched d store (ok (s, e)) store' o h =
      let (_, _, q) =
        >>=-eq-ok (if bus then dispatched else ok tt) (λ _. ok (fresh_outcome e d))
          (ap (λ (p : Processed). p.1) h) in
      let same = ok-injective q in
      (cc, sym same ∙ ap (λ (x : ProcessingOutcome). fresh_outcome x.evidence d) same)

  chosen :
      (b : Bool) (c : String) (g : Option AiFaultEvidence) (store : Store Value)
      (r : Store Value × Result ProcessingOutcome) (store' : Store Value) (o : ProcessingOutcome)
      → (if not b
          then (store, err (unsupported_fault_class c))
          else unless_recorded floats id_before g store r)
        ≡ (store', ok o)
      → (b ≡ true)
        × (((g ≡ some o.evidence) × (store' ≡ store) × (o ≡ duplicate_outcome o.evidence))
            ⊎ ((g ≡ none) × (r ≡ (store', ok o))))
  chosen false c g store r store' o h = cc
  chosen true c none store r store' o h = (refl, inr (refl, h))
  chosen true c (some e) store r store' o h =
      let same = ok-injective (ap (λ (p : Processed). p.1) h) in
      (
        refl,
        inl (
          ap (λ (x : ProcessingOutcome). some x.evidence) same,
          sym (ap (λ (p : Processed). p.0) h),
          sym same ∙ ap (λ (x : ProcessingOutcome). duplicate_outcome x.evidence) same,
        ),
      )

  -- A call that returns has either found the event's row and changed nothing, or recorded it.
  pub processed :
      (uuid4 : String) (now : ℕ) (bus : Bool) (dispatched : Result (Unit {0}))
      (event : ValidatedAlertTransition) (store store' : Store Value) (o : ProcessingOutcome)
      → process_alert_transition floats id_before uuid4 now bus dispatched event store
        ≡ (store', ok o)
      → (is_supported_fault_class event.fault_class ≡ true)
        × (((get_evidence event.event_id store.evidence ≡ some o.evidence)
              × (store' ≡ store)
              × (o ≡ duplicate_outcome o.evidence))
            ⊎ ((get_evidence event.event_id store.evidence ≡ none)
                × (record_transition floats id_before uuid4 now bus event store
                    ≡ ok (store', o.evidence))
                × (o ≡ fresh_outcome o.evidence (decision_for floats id_before uuid4 event store))))
  unfolding process_alert_transition
  processed uuid4 now bus dispatched event store store' o h =
      let d = decision_for floats id_before uuid4 event store in
      let m = record_transition floats id_before uuid4 now bus event store in
      let (supported, branch) =
        chosen (is_supported_fault_class event.fault_class) event.fault_class
          (get_evidence event.event_id store.evidence) store
          (commit floats id_before bus dispatched d store m) store' o h in
      (
        supported,
        elim branch [
          | inl (g, u, w) ↦ inl (g, u, w)
          | inr (g, r) ↦
              (let (u, w) = committed bus dispatched d store m store' o r in inr (g, u, w))
        ],
      )

  recorded_row :
      (id : String) (e : AiFaultEvidence) (es : List AiFaultEvidence) {es' : List AiFaultEvidence}
      → e.id ≡ id
      → get_evidence id es ≡ none
      → es' ≡ es ++ (e ∷ [])
      → get_evidence id es' ≡ some e
  recorded_row id e es same absent grown =
      rw (grown, sym same) (get_evidence-append e es (rw same absent))

  -- An event whose processing returned is a duplicate from then on: a second call, with any
  -- clock, identifier and dispatch, changes nothing and returns the evidence of the first.
  pub process-replay :
      (uuid4 : String) (now : ℕ) (bus : Bool) (dispatched : Result (Unit {0}))
      (event : ValidatedAlertTransition) (store store' : Store Value) (o : ProcessingOutcome)
      → process_alert_transition floats id_before uuid4 now bus dispatched event store
        ≡ (store', ok o)
      → (uuid4' : String) (now' : ℕ) (bus' : Bool) (dispatched' : Result (Unit {0}))
      → process_alert_transition floats id_before uuid4' now' bus' dispatched' event store'
        ≡ (store', ok (duplicate_outcome o.evidence))
  unfolding process_alert_transition
  process-replay uuid4 now bus dispatched event store store' o h uuid4' now' bus' dispatched' =
      let (supported, branch) = processed uuid4 now bus dispatched event store store' o h in
      let found : get_evidence event.event_id store'.evidence ≡ some o.evidence = elim branch [
        | inl (found, same, _) ↦
            ap (λ (s : Store Value). get_evidence event.event_id s.evidence) same ∙ found
        | inr (absent, recorded, _) ↦
            let (a, _, e, grown, _) =
              record_transition-ok uuid4 now bus event store (store', o.evidence) recorded in
            recorded_row event.event_id o.evidence store.evidence
              (ap (λ (x : AiFaultEvidence). x.id) e) absent grown
      ] in
      rw (supported, found) refl
