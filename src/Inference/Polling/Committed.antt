-- ===== src/Inference/Polling/Committed.antt =====
-- What the commits of one poll of the inference worker stand for.
use odis.AlertPolicy.State.{Scores}
use odis.Bridge.Input.{JsonValues, Json}
use odis.Inference.Telemetry.{Readings}
use odis.Inference.Session.{PromotedFaultSystem}
use odis.Inference.Worker.{Message, WorkerState, Handled, handle_message}
use odis.Inference.Worker.Delivered.{reliable, handle_message-committed}
use odis.Inference.Polling.{Polled, poll_once, after_message, commits, swept, sweep}
use mathlib.Core.Path.{subst}
use odis.Prelude.{
  ℕ, ◌≡◌, refl, ap, ◌≤◌, inl, inr, Bool-cases, true, Option, List, [], ◌∷◌, ◌++◌, take, drop,
  length, arith, Bool, append_assoc, sym, ◌∙◌, false,
}
use odis.Prelude.Result.{Result, Error, ok, err, Result-cases, ok-injective}

module _ (scores : Scores) (readings : Readings)
    (system : PromotedFaultSystem readings.Value scores.Score) (max_retries : ℕ)
    (values : JsonValues) (float : values.Number → Result readings.Value)
    (is_zero : values.Number → Bool) where
  open scores use {Score}
  open readings use {Value}
  open values use {Number}

  -- From the first state to the second, the messages are handled one behind another with a broker that never
  -- fails, and the list at the end is published.
  pub data Handles
      : WorkerState Value
        → List (ℕ × Option (Json Number))
        → WorkerState Value
        → List (Message Score)
        → Type 0 where
    nothing : {w : WorkerState Value} → Handles w [] w []
    one_more :
        {w : WorkerState Value} {now : ℕ} {message : Option (Json Number)}
        {messages : List (ℕ × Option (Json Number))} {last : WorkerState Value}
        {published : List (Message Score)} (h : Handled Value Score)
        → handle_message scores readings system max_retries reliable values float is_zero w now
            message
          ≡ ok h
        → Handles h.state messages last published
        → Handles w ((now, message) ∷ messages) last (h.published ++ published)

  module _ (broker : Message Score → ℕ → Bool) where
    abbrev pub poll : WorkerState Value → List (ℕ × Option (Json Number)) → ℕ → Polled Value Score
    poll w messages end =
        poll_once scores readings system max_retries broker values float is_zero w messages end

    -- No message is left, or the next one is not handled to its end: the call raises, or not all that it has
    -- to publish is published.
    abbrev pub Stops : WorkerState Value → List (ℕ × Option (Json Number)) → Type 0
    Stops w [] = Unit
    Stops w ((now, message) ∷ messages) =
        (h : Handled Value Score)
        → handle_message scores readings system max_retries broker values float is_zero w now
            message
          ≡ ok h
        → h.delivered ≡ false

    -- The poll `p` of `messages` handles as many of them as it commits, stops there, and goes on like a poll
    -- of the others that commits nothing.
    pub Explains :
        WorkerState Value → List (ℕ × Option (Json Number)) → ℕ → Polled Value Score → Type 0
    Explains w messages end p =
        (last : WorkerState Value) × (published : List (Message Score)) × Handles w
          (take p.committed messages) last published
        × Stops last (drop p.committed messages)
        × (let rest = poll last (drop p.committed messages) end in
            (p.published ≡ published ++ rest.published)
            × (p.state ≡ rest.state)
            × (rest.committed ≡ 0))
        × (p.committed ≤ length messages)

    -- A poll that commits nothing is explained by itself.
    none-Explains :
        (w : WorkerState Value) (messages : List (ℕ × Option (Json Number))) (end : ℕ)
        → (poll w messages end).committed ≡ 0
        → Stops w messages
        → Explains w messages end (poll w messages end)
    unfolding Explains
    none-Explains w messages end h stops =
        rw h (w, [], nothing, stops, (refl, refl, h), omega arith)

    swept-none : (r : Result (WorkerState Value × List (Message Score))) → (swept r).committed ≡ 0
    swept-none (err raised) = refl
    swept-none (ok (w, published)) = refl

    poll_nil : (w : WorkerState Value) (end : ℕ) → (poll w [] end).committed ≡ 0
    unfolding poll_once
    poll_nil w end = swept-none (sweep scores readings system max_retries broker w end)

    module _ (w : WorkerState Value) (now : ℕ) (message : Option (Json Number))
        (messages : List (ℕ × Option (Json Number))) (end : ℕ) where
      abbrev call : Result (Handled Value Score)
      call =
          handle_message scores readings system max_retries broker values float is_zero w now
            message

      poll_err :
          (raised : Error)
          → call ≡ err raised
          → (poll w ((now, message) ∷ messages) end).committed ≡ 0
      unfolding poll_once
      poll_err raised e = rw e refl

      poll_ok :
          (h : Handled Value Score) (b : Bool)
          → call ≡ ok h
          → h.delivered ≡ b
          → poll w ((now, message) ∷ messages) end ≡ after_message h b (poll h.state messages end)
      unfolding poll_once
      poll_ok h b e d = rw (e, d) refl

      commits-Explains :
          (h : Handled Value Score)
          → call ≡ ok h
          → h.delivered ≡ true
          → Explains h.state messages end (poll h.state messages end)
          → Explains w ((now, message) ∷ messages) end (commits h (poll h.state messages end))
      unfolding Explains
      commits-Explains h e d (last, published, handles, stops, (sent, same, none), few) = (
        last,
        h.published ++ published,
        one_more h
            (handle_message-committed scores readings system max_retries broker values float is_zero
              w now message h e d)
            handles,
        stops,
        (ap (◌++◌ h.published) sent ∙ sym (append_assoc h.published published _), same, none),
        omega (arith, few),
      )

    -- A poll commits exactly as often as there are messages, at its beginning, that are handled one behind
    -- another with all published that a broker which never fails would publish: the message behind them, where
    -- there is one, raises or is not delivered. What else the poll does, and the state it ends in, are those of
    -- a poll of the messages behind them, which commits nothing.
    pub poll_once-Explains :
        (w : WorkerState Value) (messages : List (ℕ × Option (Json Number))) (end : ℕ)
        → Explains w messages end (poll w messages end)
    poll_once-Explains w [] end = none-Explains w [] end (poll_nil w end) tt
    poll_once-Explains w ((now, message) ∷ messages) end =
        elim (Result-cases (call w now message messages end)) [
          | inl (raised, e) ↦
              none-Explains w _ end (poll_err w now message messages end raised e) (λ h found. cc)
          | inr (h, e) ↦ elim (Bool-cases h.delivered) [
            | inl t ↦ rw (poll_ok w now message messages end h true e t) (
                commits-Explains w now message messages end h e t
                  (poll_once-Explains h.state messages end))
            | inr f ↦
                none-Explains w _ end
                  (ap (λ (p : Polled Value Score). p.committed)
                    (poll_ok w now message messages end h false e f))
                  (λ g found.
                    subst (λ (x : Handled Value Score). x.delivered ≡ false)
                      (ok-injective (sym e ∙ found)) f)
          ]
        ]
