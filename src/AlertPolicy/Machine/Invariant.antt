-- ===== src/AlertPolicy/Machine/Invariant.antt =====
-- What holds of an `AlertMachineState` between two rows.
use Prim.Native.Char.{code}
use odis.Prelude.{
  ℕ, ◌<◌, String, ◌≡◌, refl, ◌≢◌, Bool, true, false, ◌==◌, Option, none, some, arith, eq_iff,
  Option-cases, inl, inr, ap,
}
use odis.Prelude.Text.{eq-cases}
use odis.Prelude.Result.{ok}
use odis.AlertPolicy.State.{
  healthy_state, confirmed_state, AlertMachineState, fresh, confirmed, StateMachineConfig, Step,
  Reading,
}
use odis.AlertPolicy.Machine.{step_invalid, step_healthy, step_confirmed, step_reading}

-- A streak counts a candidate class: it is 0 without one, and below the persistence with one.
abbrev pub IsStreak : ℕ → Option String → ℕ → Type 0
IsStreak persistence none streak = streak ≡ 0
IsStreak persistence (some c) streak = (0 < streak) × (streak < persistence) × (c ≢ healthy_state)

abbrev pub IsTagged : AlertMachineState → Option String → Type 0
IsTagged m none = (m.state ≡ healthy_state) × (m.exit_streak ≡ 0) × (m.switch_class ≡ none)
IsTagged m (some c) =
    (m.state ≡ confirmed_state c)
    × (c ≢ healthy_state)
    × (m.pending_class ≡ none)
    × (m.switch_class ≢ some c)

abbrev first_code : String → ℕ
first_code String.[] = 0
first_code (String.◌∷◌ c s) = code c

pub confirmed_state-ne-healthy : (c : String) → (confirmed_state c == healthy_state) ≡ false
confirmed_state-ne-healthy c = elim (eq-cases (confirmed_state c) healthy_state) [
  | inl (t, e) ↦ absurd (
      let h : first_code (confirmed_state c) ≡ first_code healthy_state = ap first_code e in
      omega arith)
  | inr f ↦ f
]

module _ {Score : Type 0} (config : StateMachineConfig Score) where
  -- Both persistences ask for at least one row.
  pub record IsPositive : Type 0 where
    pub entry : 0 < config.entry_persistence
    pub exit : 0 < config.exit_persistence

  pub record IsValid (m : AlertMachineState) : Type 0 where
    pub tagged : IsTagged m m.confirmed_class
    pub pending : IsStreak config.entry_persistence m.pending_class m.pending_streak
    pub switching : IsStreak config.entry_persistence m.switch_class m.switch_streak
    pub exiting : m.exit_streak < config.exit_persistence

  pub fresh-IsValid : IsPositive → IsValid fresh
  fresh-IsValid p = record {
    tagged = (refl, refl, refl);
    pending = refl;
    switching = refl;
    exiting = p.exit;
  }

  pub confirmed-IsValid : (c : String) → c ≢ healthy_state → IsPositive → IsValid (confirmed c)
  confirmed-IsValid c h p = record {
    tagged = (refl, h, refl, λ e. cc);
    pending = refl;
    switching = refl;
    exiting = p.exit;
  }

  pub step_invalid-IsValid :
      (T : Type 0) (m : AlertMachineState) → IsValid m → IsValid (step_invalid {T = T} m).0
  unfolding step_invalid
  step_invalid-IsValid T m v = ground arith

  module _ {T : Type 0} (elapsed : T) where
    pub step_healthy-IsValid :
        (m : AlertMachineState) (qualifies : Bool) (diag : String)
        → IsPositive
        → IsValid m
        → m.state ≡ healthy_state
        → m.confirmed_class ≡ none
        → (qualifies ≡ true → diag ≢ healthy_state)
        → IsValid (step_healthy config elapsed m qualifies diag).0
    unfolding step_healthy
    step_healthy-IsValid m qualifies diag p v s n q = ground arith

    pub step_confirmed-IsValid :
        (m : AlertMachineState) (current diag : String) (qualifies healthy_evidence : Bool)
        → IsPositive
        → IsValid m
        → m.confirmed_class ≡ some current
        → (qualifies ≡ true → diag ≢ healthy_state)
        → IsValid (step_confirmed config elapsed m current qualifies diag healthy_evidence).0
    unfolding step_confirmed
    step_confirmed-IsValid m current diag qualifies healthy_evidence p v n q =
        ground (arith, eq_iff diag current)

    pub step_reading-healthy :
        (m : AlertMachineState) (r : Reading)
        → m.state ≡ healthy_state
        → step_reading config elapsed m r ≡ ok (step_healthy config elapsed m r.qualifies r.diag)
    unfolding step_reading
    step_reading-healthy m r h = ground (arith, eq_iff m.state healthy_state)

    pub step_reading-confirmed :
        (m : AlertMachineState) (r : Reading) (c : String)
        → m.state ≡ confirmed_state c
        → m.confirmed_class ≡ some c
        → step_reading config elapsed m r
          ≡ ok (step_confirmed config elapsed m c r.qualifies r.diag r.healthy_evidence)
    unfolding step_reading
    step_reading-confirmed m r c h e = ground (arith, confirmed_state-ne-healthy c)

    -- The tag of a valid state, by its confirmed class.
    pub IsValid-healthy :
        (m : AlertMachineState) → IsValid m → m.confirmed_class ≡ none → m.state ≡ healthy_state
    IsValid-healthy m v e = ground arith

    pub IsValid-confirmed :
        (m : AlertMachineState) (c : String)
        → IsValid m
        → m.confirmed_class ≡ some c
        → m.state ≡ confirmed_state c
    IsValid-confirmed m c v e = ground arith

    -- A reading never raises in a valid state, and leaves a valid state.
    pub step_reading-IsValid :
        (m : AlertMachineState) (r : Reading)
        → IsPositive
        → IsValid m
        → (r.qualifies ≡ true → r.diag ≢ healthy_state)
        → (s : Step T) × (step_reading config elapsed m r ≡ ok s) × IsValid s.0
    step_reading-IsValid m r p v q = elim (Option-cases m.confirmed_class) [
      | inl n ↦
          let h = IsValid-healthy m v n in
          (
            step_healthy config elapsed m r.qualifies r.diag,
            step_reading-healthy m r h,
            step_healthy-IsValid m r.qualifies r.diag p v h n q,
          )
      | inr (c, e) ↦ (
        step_confirmed config elapsed m c r.qualifies r.diag r.healthy_evidence,
        step_reading-confirmed m r c (IsValid-confirmed m c v e) e,
        step_confirmed-IsValid m c r.diag r.qualifies r.healthy_evidence p v e q,
      )
    ]
