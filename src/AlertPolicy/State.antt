-- ===== src/AlertPolicy/State.antt =====
-- alert_policy/state_machine.py: the data of the hysteresis state machine. Persistences and streaks
-- are counts; scores and times are values of a `Scores`, which stands for the doubles and for
-- numpy's `argmax`.
use odis.Prelude.{ℕ, suc, String, Bool, Option, none, some, List, [], ◌∷◌, ◌==◌, if◌then◌else◌}
use odis.Prelude.Text.{concat}
use odis.Prelude.Result.{Result, ok, err, value_error, ◌>>=◌}

-- What the code takes from Python's floats and from numpy.
pub record Scores : Type 1 where
  pub Score : Type 0
  pub ge : Score → Score → Bool
  pub argmax : List Score → ℕ

abbrev pub healthy_state : String
healthy_state = "healthy"

abbrev pub insufficient_data_state : String
insufficient_data_state = "insufficient_data"

abbrev pub confirmed_state : String → String
confirmed_state fault_class = concat "confirmed_" fault_class

abbrev pub pending_state : String → String
pending_state fault_class = concat "pending_" fault_class

pub record AlertMachineState : Type 0 where
  pub state : String
  pub confirmed_class : Option String
  pub pending_class : Option String
  pub pending_streak : ℕ
  pub exit_streak : ℕ
  pub switch_class : Option String
  pub switch_streak : ℕ

abbrev pub fresh : AlertMachineState
fresh = record {
  state = healthy_state;
  confirmed_class = none;
  pending_class = none;
  pending_streak = 0;
  exit_streak = 0;
  switch_class = none;
  switch_streak = 0;
}

-- The state after `new_alert` and after `class_change`.
abbrev pub confirmed : String → AlertMachineState
confirmed fault_class = record fresh {
  state = confirmed_state fault_class;
  confirmed_class = some fault_class;
}

pub data EventType : Type 0 where
  new_alert class_change cleared : EventType

pub record AlertEvent (T : Type 0) : Type 0 where
  pub elapsed_sim_seconds : T
  pub event_type : EventType
  pub from_state : String
  pub to_state : String
  pub fault_class : String

-- `classes.index(x)`, which raises where `x` is not there
unfoldable pub index : List String → String → Result ℕ
index [] x = err value_error
index (c ∷ cs) x = let rest = index cs x in if c == x then ok 0 else (do i ← rest; ok (suc i))

pub record StateMachineConfig (Score : Type 0) : Type 0 where
  pub entry_probability : Score
  pub entry_persistence : ℕ
  pub healthy_exit_probability : Score
  pub exit_persistence : ℕ

-- `(next_state, row_state, event_or_none)`
abbrev pub Step : Type 0 → Type 0
Step T = AlertMachineState × String × Option (AlertEvent T)

-- What a valid row says: the diagnosed class, whether it qualifies, and whether the row is
-- evidence of health.
pub record Reading : Type 0 where
  pub diag : String
  pub qualifies : Bool
  pub healthy_evidence : Bool

pub record StateMachineResult (T : Type 0) : Type 0 where
  pub row_states : List String
  pub events : List (AlertEvent T)
  pub last : AlertMachineState

-- `if event is not None: events.append(event)`
abbrev pub append_event : {A : Type 0} → Option A → List A → List A
append_event none events = events
append_event (some event) events = event ∷ events
