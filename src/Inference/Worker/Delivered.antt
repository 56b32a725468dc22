-- ===== src/Inference/Worker/Delivered.antt =====
-- What a handled message amounts to where everything it had to publish was published.
use odis.AlertPolicy.State.{Scores}
use odis.Bridge.Publish.{publish_with_retry, publish_with_retry_iff}
use odis.Bridge.Input.{
  has_item, JsonValues, Fields, Json, null, boolean, number, string, array, object, get_field,
}
use odis.Inference.Telemetry.{Readings, TelemetrySample}
use odis.Inference.Assembly.{
  AssemblyOutcome, AssemblyStatus, pending_sample, complete_sample, rejected_sample,
  TelemetryObservationEvent, ingest,
}
use odis.Inference.Session.{
  PromotedFaultSystem, InferenceResult, FaultInferenceSession, manager_ingest,
}
use odis.Inference.Worker.{
  Message, WorkerState, Handled, publish_each, handled, messages_of, build_transition_event,
  run_inference, handle_complete, handle_status, handle_outcome, continue_with, handle_outcomes,
  quality_asset, handle_unfielded, handle_decoded, handle_validated, handle_message,
  is_validation_error, data_quality,
}
use odis.Inference.Events.{validate_telemetry_event}
use odis.Prelude.Text.{is_infix}
use odis.Prelude.{
  ℕ, ◌≡◌, refl, sym, ap, ◌∙◌, inl, inr, Bool, true, List, [], ◌∷◌, arith, Bool-cases, String, false,
  Option, none, some, ◌++◌,
}
use odis.Prelude.Result.{ok, ok-injective, Result, >>=-eq-ok, ◌>>=◌, err}

-- A broker that never fails.
abbrev pub reliable : {Score : Type 0} → Message Score → ℕ → Bool
reliable m i = true

module _ {Score : Type 0} (max_retries : ℕ) (broker : Message Score → ℕ → Bool) where
  publish_each-reliable :
      (ms : List (Message Score)) → publish_each max_retries reliable ms ≡ (ms, true)
  unfolding publish_each
  publish_each-reliable [] = refl
  publish_each-reliable (m ∷ ms) =
      rw
        (
          publish_each-reliable ms,
          (publish_with_retry_iff max_retries (reliable m)).1 (0, omega arith, refl),
        )
        refl

  publish_each-true :
      (ms : List (Message Score))
      → (publish_each max_retries broker ms).1 ≡ true
      → publish_each max_retries broker ms ≡ (ms, true)
  unfolding publish_each
  publish_each-true [] h = refl
  publish_each-true (m ∷ ms) h = elim (Bool-cases (publish_with_retry max_retries (broker m))) [
    | inl e ↦ rw e (
        ap (λ (p : List (Message Score) × Bool). (m ∷ p.0, p.1)) (publish_each-true ms (rw e at h)))
    | inr e ↦ cc (rw e at h)
  ]

  handled_true :
      {Value : Type 0} (w : WorkerState Value) (ms : List (Message Score)) (h : Handled Value Score)
      → ok (handled max_retries broker w ms) ≡ ok h
      → h.delivered ≡ true
      → ok (handled max_retries reliable w ms) ≡ ok h
  handled_true w ms h e d =
      let same = ok-injective e in
      let all_sent = publish_each-true ms (ap (λ (x : Handled _ Score). x.delivered) same ∙ d) in
      ap
        (λ (p : List (Message Score) × Bool).
          ok (record { state = w; published = p.0; delivered = p.1 }))
        (publish_each-reliable ms ∙ sym all_sent)
      ∙ e

module _ (scores : Scores) (readings : Readings)
    (system : PromotedFaultSystem readings.Value scores.Score) (max_retries : ℕ)
    (broker : Message scores.Score → ℕ → Bool) where
  open scores use {Score}
  open readings use {Value}

  -- Where the first call returns `h` with everything delivered, so does the second.
  Agrees : Result (Handled Value Score) → Result (Handled Value Score) → Type 0
  Agrees call other = (h : Handled Value Score) → call ≡ ok h → h.delivered ≡ true → other ≡ ok h

  run_inference-Agrees :
      (w : WorkerState Value)
      (r : Result (List (String × FaultInferenceSession Value) × InferenceResult Score))
      → Agrees
          (r >>= λ (sessions, result). ok (
            handled max_retries broker
              (record { assembler = w.assembler; sessions = sessions })
              (messages_of result (build_transition_event result result.alert_event))))
          (r >>= λ (sessions, result). ok (
            handled max_retries reliable
              (record { assembler = w.assembler; sessions = sessions })
              (messages_of result (build_transition_event result result.alert_event))))
  unfolding Agrees
  run_inference-Agrees w (err raised) h e d = cc
  run_inference-Agrees w (ok (sessions, result)) h e d = handled_true max_retries broker _ _ h e d

  handle_complete-Agrees :
      (w : WorkerState Value) (sample : Option (TelemetrySample Value))
      → Agrees
          (handle_complete scores readings system max_retries broker w sample)
          (handle_complete scores readings system max_retries reliable w sample)
  unfolding Agrees run_inference
  handle_complete-Agrees w none h e d = cc
  handle_complete-Agrees w (some sample) h e d =
      run_inference-Agrees w (manager_ingest scores system w.sessions sample) h e d

  handle_status-Agrees :
      (w : WorkerState Value) (outcome : AssemblyOutcome Value) (status : AssemblyStatus)
      → Agrees
          (handle_status scores readings system max_retries broker w outcome status)
          (handle_status scores readings system max_retries reliable w outcome status)
  unfolding Agrees
  handle_status-Agrees w outcome pending_sample h e d = handled_true max_retries broker w _ h e d
  handle_status-Agrees w outcome rejected_sample h e d = handled_true max_retries broker w _ h e d
  handle_status-Agrees w outcome complete_sample h e d =
      handle_complete-Agrees w outcome.sample h e d

  continue_with-Agrees :
      (first : Handled Value Score) (b : Bool) (rest other : Result (Handled Value Score))
      → first.delivered ≡ b
      → Agrees rest other
      → Agrees
          (continue_with scores readings system max_retries broker first b rest)
          (continue_with scores readings system max_retries reliable first true other)
  unfolding Agrees
  continue_with-Agrees first false rest other f agree h e d =
      cc (f, ap (λ (x : Handled Value Score). x.delivered) (ok-injective e), d)
  continue_with-Agrees first true rest other f agree h e d =
      let (r, returned, same) = >>=-eq-ok rest _ e in
      let done =
        agree r returned (ap (λ (x : Handled Value Score). x.delivered) (ok-injective same) ∙ d) in
      ap
        (λ (x : Result (Handled Value Score)). x >>= λ r. ok (record {
          state = r.state;
          published = first.published ++ r.published;
          delivered = r.delivered;
        }))
        done
      ∙ same

  handle_outcomes-Agrees :
      (w : WorkerState Value) (outcomes : List (AssemblyOutcome Value))
      → Agrees
          (handle_outcomes scores readings system max_retries broker w outcomes)
          (handle_outcomes scores readings system max_retries reliable w outcomes)
  unfolding Agrees handle_outcomes
  handle_outcomes-Agrees w [] h e d = e
  handle_outcomes-Agrees w (outcome ∷ outcomes) h e d =
      let (first, handled_first, continued) =
        >>=-eq-ok (handle_outcome scores readings system max_retries broker w outcome) _ e in
      let rest = handle_outcomes scores readings system max_retries reliable first.state outcomes in
      elim (Bool-cases first.delivered) [
        | inl t ↦
            ap
              (λ (x : Result (Handled Value Score)). x >>= λ f.
                continue_with scores readings system max_retries reliable f f.delivered
                  (handle_outcomes scores readings system max_retries reliable f.state outcomes))
              (handle_status-Agrees w outcome outcome.status first handled_first t)
            ∙ ap (λ b. continue_with scores readings system max_retries reliable first b rest) t
            ∙ continue_with-Agrees first first.delivered _ rest refl
                (handle_outcomes-Agrees first.state outcomes) h continued d
        | inr f ↦
            cc (
              f,
              ap (λ (x : Handled Value Score). x.delivered) (ok-injective (rw f at continued)),
              d,
            )
      ]

  module _ (values : JsonValues) (float : values.Number → Result Value)
      (is_zero : values.Number → Bool) where
    open values use {Number}

    reject-Agrees :
        (w : WorkerState Value) (asset : Result (Option String))
        → Agrees
            (asset >>= λ asset_id.
              ok (handled max_retries broker w (data_quality asset_id none none ∷ [])))
            (asset >>= λ asset_id.
              ok (handled max_retries reliable w (data_quality asset_id none none ∷ [])))
    unfolding Agrees
    reject-Agrees w (err raised) h e d = cc
    reject-Agrees w (ok asset_id) h e d = handled_true max_retries broker w _ h e d

    handle_validated-Agrees :
        (w : WorkerState Value) (now : ℕ) (raw : Fields Number)
        (r : Result (TelemetryObservationEvent Value))
        → Agrees
            (handle_validated scores readings system max_retries broker values float is_zero w now
              raw r)
            (handle_validated scores readings system max_retries reliable values float is_zero w now
              raw r)
    unfolding Agrees
    handle_validated-Agrees w now raw (err raised) h e d =
        elim (Bool-cases (is_validation_error raised)) [
          | inl t ↦ rw t (
              reject-Agrees w
                (quality_asset scores readings system max_retries broker values float is_zero
                  (get_field values "asset_id" raw))
                h (rw t at e) d)
          | inr f ↦ cc (rw f at e)
        ]
    handle_validated-Agrees w now raw (ok event) h e d =
        let ((assembler, outcomes), ingested, continued) =
          >>=-eq-ok (ingest readings w.assembler event now) _ e in
        ap
          (λ x. x >>= λ (assembler, outcomes).
            handle_outcomes scores readings system max_retries reliable
              (record { assembler = assembler; sessions = w.sessions }) outcomes)
          ingested
        ∙ handle_outcomes-Agrees (record { assembler = assembler; sessions = w.sessions }) outcomes
            h continued d

    handle_unfielded-Agrees :
        (w : WorkerState Value) (b : Bool)
        → Agrees
            (handle_unfielded scores readings system max_retries broker values float is_zero w b)
            (handle_unfielded scores readings system max_retries reliable values float is_zero w b)
    unfolding Agrees
    handle_unfielded-Agrees w true h e d = cc
    handle_unfielded-Agrees w false h e d = handled_true max_retries broker w _ h e d

    handle_decoded-Agrees :
        (w : WorkerState Value) (now : ℕ) (raw : Json Number)
        → Agrees
            (handle_decoded scores readings system max_retries broker values float is_zero w now
              raw)
            (handle_decoded scores readings system max_retries reliable values float is_zero w now
              raw)
    unfolding Agrees
    handle_decoded-Agrees w now (object raw) h e d =
        handle_validated-Agrees w now raw (validate_telemetry_event values readings float raw) h e d
    handle_decoded-Agrees w now (string s) h e d =
        handle_unfielded-Agrees w (is_infix "event_id" s) h e d
    handle_decoded-Agrees w now (array items) h e d =
        handle_unfielded-Agrees w (has_item "event_id" items) h e d
    handle_decoded-Agrees w now null h e d = cc
    handle_decoded-Agrees w now (boolean b) h e d = cc
    handle_decoded-Agrees w now (number n) h e d = cc

-- The worker answers that a message may be committed only where it has done and published all that it does
-- and publishes with a broker that never fails.
pub handle_message-committed :
    (scores : Scores) (readings : Readings)
    (system : PromotedFaultSystem readings.Value scores.Score) (max_retries : ℕ)
    (broker : Message scores.Score → ℕ → Bool) (values : JsonValues)
    (float : values.Number → Result readings.Value) (is_zero : values.Number → Bool)
    (w : WorkerState readings.Value) (now : ℕ) (message : Option (Json values.Number))
    (h : Handled readings.Value scores.Score)
    → handle_message scores readings system max_retries broker values float is_zero w now message
      ≡ ok h
    → h.delivered ≡ true
    → handle_message scores readings system max_retries reliable values float is_zero w now message
      ≡ ok h
unfolding handle_message Agrees
handle_message-committed scores readings system max_retries broker values float is_zero w now none h
      e d =
    handled_true max_retries broker w _ h e d
handle_message-committed scores readings system max_retries broker values float is_zero w now
      (some raw) h e d =
    handle_decoded-Agrees scores readings system max_retries broker values float is_zero w now raw h
      e d
