-- ===== src/AlertPolicy/Machine.antt =====
-- alert_policy/state_machine.py: `step_state_machine` by its branches, and the loop over it.
pub mod Invariant
pub mod Totality
pub mod Trace
pub mod Evidence
pub mod Alerts
use odis.Prelude.{
  ℕ, ◌+◌, String, Bool, true, not, ◌&&◌, Option, none, some, List, [], ◌∷◌, ◌==◌, leb,
  if◌then◌else◌, get_elem?, length, replicate,
}
use odis.Prelude.Text.{is_class}
use odis.Prelude.Result.{
  Result, ok, err, value_error, index_error, assertion_error, ◌>>=◌, or_raise,
}
use odis.AlertPolicy.State.{
  Scores, healthy_state, insufficient_data_state, confirmed_state, pending_state, AlertMachineState,
  fresh, confirmed, new_alert, class_change, cleared, index, StateMachineConfig, Step, Reading,
  StateMachineResult, append_event,
}

-- The row whose `valid` is false.
unfoldable pub step_invalid : {T : Type 0} → AlertMachineState → Step T
step_invalid m =
    let reset = m.state == healthy_state in
    (
      record m {
        pending_class = if reset then none else m.pending_class;
        pending_streak = if reset then 0 else m.pending_streak;
      },
      insufficient_data_state,
      none,
    )

-- The streak of the candidate class: one longer, begun anew, or broken.
unfoldable pub track : Bool → String → Option String → ℕ → Option String × ℕ
track qualifies diag candidate streak =
    if qualifies then (some diag, if is_class diag candidate then streak + 1 else 1) else (none, 0)

module _ {T Score : Type 0} (config : StateMachineConfig Score) (elapsed : T) where
  -- `pending_class is not None and pending_streak >= config.entry_persistence`
  pub confirm_pending : AlertMachineState → Option String → ℕ → Step T
  confirm_pending m none streak = (
    record m {
      state = healthy_state;
      confirmed_class = none;
      pending_class = none;
      pending_streak = streak;
    },
    healthy_state,
    none,
  )
  confirm_pending m (some c) streak =
      if leb config.entry_persistence streak
      then (
        confirmed c,
        confirmed_state c,
        some (record {
          elapsed_sim_seconds = elapsed;
          event_type = new_alert;
          from_state = healthy_state;
          to_state = confirmed_state c;
          fault_class = c;
        }),
      )
      else (
        record m {
          state = healthy_state;
          confirmed_class = none;
          pending_class = some c;
          pending_streak = streak;
        },
        pending_state c,
        none,
      )

  -- The branch `if m.state == HEALTHY_STATE`.
  unfoldable pub step_healthy : AlertMachineState → Bool → String → Step T
  unfolding confirm_pending track
  step_healthy m qualifies diag =
      let (pending_class, pending_streak) = track qualifies diag m.pending_class m.pending_streak in
      confirm_pending m pending_class pending_streak

  -- `switch_class is not None and switch_streak >= config.entry_persistence`, and what follows.
  pub confirm_switch : AlertMachineState → String → ℕ → Option String → ℕ → Step T
  confirm_switch m current exit_streak none switch_streak = (
    record m { exit_streak = exit_streak; switch_class = none; switch_streak = switch_streak },
    m.state,
    none,
  )
  confirm_switch m current exit_streak (some c) switch_streak =
      if leb config.entry_persistence switch_streak
      then (
        confirmed c,
        confirmed_state c,
        some (record {
          elapsed_sim_seconds = elapsed;
          event_type = class_change;
          from_state = confirmed_state current;
          to_state = confirmed_state c;
          fault_class = c;
        }),
      )
      else (
        record m {
          exit_streak = exit_streak;
          switch_class = some c;
          switch_streak = switch_streak;
        },
        m.state,
        none,
      )

  -- The rows after the assertion that a class is confirmed.
  unfoldable pub step_confirmed : AlertMachineState → String → Bool → String → Bool → Step T
  unfolding confirm_switch track
  step_confirmed m current qualifies diag healthy_evidence =
      let exit_streak : ℕ = if healthy_evidence then m.exit_streak + 1 else 0 in
      let (switch_class, switch_streak) =
        track (not (diag == current) && qualifies) diag m.switch_class m.switch_streak in
      if leb config.exit_persistence exit_streak
      then (
        fresh,
        healthy_state,
        some (record {
          elapsed_sim_seconds = elapsed;
          event_type = cleared;
          from_state = confirmed_state current;
          to_state = healthy_state;
          fault_class = current;
        }),
      )
      else confirm_switch m current exit_streak switch_class switch_streak

  unfoldable pub step_reading : AlertMachineState → Reading → Result (Step T)
  step_reading m r =
      if m.state == healthy_state then ok (step_healthy m r.qualifies r.diag) else (do
        current ← or_raise m.confirmed_class assertion_error
        ok (step_confirmed m current r.qualifies r.diag r.healthy_evidence))

module _ (scores : Scores) where
  open scores use {Score, ge, argmax}

  unfoldable pub read_row : StateMachineConfig Score → List String → ℕ → List Score → Result Reading
  read_row config classes healthy_index proba = do
    let diag_index = argmax proba
    diag ← or_raise (get_elem? classes diag_index) index_error
    diag_prob ← or_raise (get_elem? proba diag_index) index_error
    healthy_prob ← or_raise (get_elem? proba healthy_index) index_error
    ok (record {
      diag = diag;
      qualifies = not (diag == healthy_state) && ge diag_prob config.entry_probability;
      healthy_evidence = ge healthy_prob config.healthy_exit_probability;
    })

module _ (scores : Scores) {T : Type 0} where
  open scores use {Score}

  unfoldable pub step_state_machine :
      StateMachineConfig Score
      → List String
      → AlertMachineState
      → T
      → List Score
      → Bool
      → Result (Step T)
  step_state_machine config classes m elapsed proba valid = do
    healthy_index ← index classes healthy_state
    if valid
        then (do
          step_reading config elapsed m (← read_row scores config classes healthy_index proba))
        else ok (step_invalid m)

  -- The loop of `run_state_machine`: row states, events, and the state behind the last row. `zip`
  -- is strict, so sequences of different lengths raise.
  unfoldable pub run_from :
      StateMachineConfig Score
      → List String
      → AlertMachineState
      → List T
      → List (List Score)
      → List Bool
      → Result (StateMachineResult T)
  run_from config classes m [] [] [] = ok (record { row_states = []; events = []; last = m })
  run_from config classes m (t ∷ ts) (row ∷ proba) (valid ∷ validity) = do
    (m', row_state, event) ← step_state_machine config classes m t row valid
    rest ← run_from config classes m' ts proba validity
    ok (record rest {
      row_states = row_state ∷ rest.row_states;
      events = append_event event rest.events;
    })
  run_from config classes m _ _ _ = err value_error

  unfoldable pub run_state_machine :
      StateMachineConfig Score
      → List String
      → List T
      → List (List Score)
      → Option (List Bool)
      → Result (StateMachineResult T)
  unfolding run_from
  run_state_machine config classes elapsed proba none =
      run_from config classes fresh elapsed proba (replicate (length proba) true)
  run_state_machine config classes elapsed proba (some row_valid) =
      run_from config classes fresh elapsed proba row_valid
