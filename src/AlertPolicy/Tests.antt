-- ===== src/AlertPolicy/Tests.antt =====
-- The alert policy at concrete inputs, with scores in hundredths.
use odis.AlertPolicy.State.{
  Scores, StateMachineConfig, StateMachineResult, Reading, AlertMachineState, AlertEvent, Step,
  fresh, new_alert, index,
}
use odis.AlertPolicy.State as State
use odis.AlertPolicy.Machine.{run_state_machine, step_reading}
use odis.AlertPolicy.Machine.Invariant.{IsPositive, IsValid}
use odis.AlertPolicy.Machine.Totality.{run_state_machine-IsValid}
use odis.AlertPolicy.Machine.Trace.{Chain, run_state_machine-Chain}
use odis.AlertPolicy.Machine.Alerts.{Reached, event_evidence, RestsOn}
use odis.Prelude.{
  ℕ, suc, ◌<◌, max, String, ◌≡◌, refl, ◌≢◌, none, List, [], ◌∷◌, arith, leb, if◌then◌else◌, length,
  true, false, some,
}
use odis.Prelude.Result.{ok}

abbrev greatest : List ℕ → ℕ
greatest [] = 0
greatest (x ∷ xs) = max x (greatest xs)

-- The first position of the greatest score.
abbrev position : List ℕ → ℕ
position [] = 0
position (x ∷ []) = 0
position (x ∷ y ∷ ys) =
    let rest = position (y ∷ ys) in if leb (greatest (y ∷ ys)) x then 0 else suc rest

abbrev hundredths : Scores
hundredths = record { Score = ℕ; ge = λ a b. leb b a; argmax = position }

position-lt : (p : List ℕ) → p ≢ [] → position p < length p
position-lt [] h = absurd (h refl)
position-lt (x ∷ []) h = omega arith
position-lt (x ∷ y ∷ ys) h = ground (arith, position-lt (y ∷ ys) (λ e. cc))

abbrev policy : StateMachineConfig ℕ
policy = record {
  entry_probability = 70;
  entry_persistence = 2;
  healthy_exit_probability = 60;
  exit_persistence = 2;
}

abbrev classes : List String
classes = "healthy" ∷ "cooling_degradation" ∷ []

abbrev rows : List (List ℕ)
rows = (20 ∷ 80 ∷ []) ∷ (10 ∷ 90 ∷ []) ∷ (90 ∷ 10 ∷ []) ∷ (80 ∷ 20 ∷ []) ∷ []

abbrev times : List ℕ
times = 0 ∷ 30 ∷ 60 ∷ 90 ∷ []

policy-IsPositive : IsPositive policy
policy-IsPositive = record { entry = omega arith; exit = omega arith }

run_state_machine-IsValid_example :
    (r : StateMachineResult ℕ) × (run_state_machine hundredths policy classes times rows none
      ≡ ok r)
    × (length r.row_states ≡ 4)
    × IsValid policy r.last
unfolding index
run_state_machine-IsValid_example =
    run_state_machine-IsValid hundredths position-lt policy policy-IsPositive classes 0 refl times
      rows none refl tt (refl, (refl, (refl, (refl, tt))))

abbrev alert : AlertEvent ℕ
alert = record {
  elapsed_sim_seconds = 30;
  event_type = new_alert;
  from_state = "healthy";
  to_state = "confirmed_cooling_degradation";
  fault_class = "cooling_degradation";
}

abbrev clearing : AlertEvent ℕ
clearing = record {
  elapsed_sim_seconds = 90;
  event_type = State.cleared;
  from_state = "confirmed_cooling_degradation";
  to_state = "healthy";
  fault_class = "cooling_degradation";
}

abbrev run_result : StateMachineResult ℕ
run_result = record {
  row_states =
      "pending_cooling_degradation" ∷ "confirmed_cooling_degradation"
      ∷ "confirmed_cooling_degradation" ∷ "healthy" ∷ [];
  events = alert ∷ clearing ∷ [];
  last = fresh;
}

runs : run_state_machine hundredths policy classes times rows none ≡ ok run_result
unfolding run_state_machine odis.AlertPolicy.Machine.step_state_machine index
    odis.AlertPolicy.Machine.read_row step_reading odis.AlertPolicy.Machine.step_healthy
    odis.AlertPolicy.Machine.step_confirmed
runs = refl

run_state_machine-Chain_example : Chain "healthy" run_result.events "healthy"
run_state_machine-Chain_example =
    run_state_machine-Chain hundredths policy policy-IsPositive classes times rows none run_result
      runs

abbrev hot : Reading
hot = record { diag = "cooling_degradation"; qualifies = true; healthy_evidence = false }

abbrev pending_once : AlertMachineState
pending_once = record fresh { pending_class = some "cooling_degradation"; pending_streak = 1 }

first_step :
    step_reading {T = ℕ} policy 0 fresh hot ≡ ok (pending_once, "pending_cooling_degradation", none)
unfolding step_reading odis.AlertPolicy.Machine.step_healthy
first_step = refl

second_step :
    step_reading policy 30 pending_once hot
    ≡ ok (State.confirmed "cooling_degradation", "confirmed_cooling_degradation", some alert)
unfolding step_reading odis.AlertPolicy.Machine.step_healthy
second_step = refl

event_evidence_example : RestsOn policy (some hot ∷ some hot ∷ []) new_alert "cooling_degradation"
event_evidence_example =
    event_evidence policy 30 hot
      (State.confirmed "cooling_degradation", "confirmed_cooling_degradation", some alert) alert
      policy-IsPositive
      (Reached.read 0 hot (pending_once, "pending_cooling_degradation", none) Reached.start
        (λ _ e. cc) first_step)
      second_step refl
