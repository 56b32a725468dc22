-- ===== src/Inference/WorkerTests.antt =====
-- The worker at a message whose first send fails, and a poll that stops at its second message.
use odis.Inference.Tests.{counts, tight, later_buffer, json, message}
use odis.Inference.SessionTests.{hundredths, promoted}
use odis.Inference.Assembly.{incomplete_timeout, ingest, ingest_buffer, buffer_for, make_room}
use odis.Inference.Worker.{
  Message, WorkerState, Handled, data_quality, handle_message, handle_outcomes, publish_each,
}
use odis.Inference.Worker.Delivered.{reliable, handle_message-committed}
use odis.Inference.Events.{validate_telemetry_event}
use odis.Inference.Polling.{poll_once}
use odis.Inference.Polling.Committed.{poll, Explains, poll_once-Explains}
use odis.Bridge.Input.{Json, object}
use odis.Bridge.Publish.{publish_with_retry}
use odis.Prelude.{ℕ, ◌≡◌, refl, Bool, true, false, Option, none, some, List, [], ◌∷◌, eqb}
use odis.Prelude.Result.{ok}

abbrev at_once : Message ℕ → ℕ → Bool
at_once m i = eqb i 1

abbrev before : WorkerState ℕ
before = record { assembler = tight; sessions = [] }

abbrev handled_once : Handled ℕ ℕ
handled_once = record {
  state = record {
    assembler = record tight { buffers = ("a1", later_buffer) ∷ [] };
    sessions = [];
  };
  published = data_quality (some "a1") (some 5) (some incomplete_timeout) ∷ [];
  delivered = true;
}

message-handled :
    handle_message hundredths counts promoted 1 at_once json
      (λ n. ok n)
      (λ n. eqb n 0)
      before
      8
      (some (object message))
    ≡ ok handled_once
unfolding handle_message handle_outcomes publish_each validate_telemetry_event ingest ingest_buffer
    buffer_for make_room publish_with_retry
message-handled = refl

handle_message-committed_example :
    handle_message hundredths counts promoted 1 reliable json
      (λ n. ok n)
      (λ n. eqb n 0)
      before
      8
      (some (object message))
    ≡ ok handled_once
handle_message-committed_example =
    handle_message-committed hundredths counts promoted 1 at_once json (λ n. ok n) (λ n. eqb n 0)
      before 8 (some (object message)) handled_once message-handled refl

-- No send of a message about a malformed one succeeds.
abbrev unless_malformed : Message ℕ → ℕ → Bool
unless_malformed (data_quality none timestamp reason) i = false
unless_malformed m i = true

abbrev two_messages : List (ℕ × Option (Json ℕ))
two_messages = (8, some (object message)) ∷ ((9, none) ∷ [])

poll_once-committed :
    (poll hundredths counts promoted 1 json
      (λ n. ok n)
      (λ n. eqb n 0)
      unless_malformed
      before
      two_messages
      9).committed
    ≡ 1
unfolding poll_once handle_message handle_outcomes publish_each validate_telemetry_event ingest
    ingest_buffer buffer_for make_room publish_with_retry
poll_once-committed = refl

poll_once-Explains_example :
    Explains hundredths counts promoted 1 json
      (λ n. ok n)
      (λ n. eqb n 0)
      unless_malformed
      before
      two_messages
      9
      (poll hundredths counts promoted 1 json
        (λ n. ok n)
        (λ n. eqb n 0)
        unless_malformed
        before
        two_messages
        9)
poll_once-Explains_example =
    poll_once-Explains hundredths counts promoted 1 json (λ n. ok n) (λ n. eqb n 0) unless_malformed
      before two_messages 9
