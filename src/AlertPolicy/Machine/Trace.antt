-- ===== src/AlertPolicy/Machine/Trace.antt =====
-- The events of a run: each starts in the state in which the one before it ended.
use odis.Prelude.{
  ℕ, String, ◌≡◌, refl, ◌≢◌, Bool, true, false, Option, none, some, List, [], ◌∷◌, arith, eq_iff,
  inl, inr, Option-cases, Bool-cases, not, leb, sym, ap, if◌then◌else◌, ◌∙◌, ◌==◌, ◌&&◌, ◌+◌,
  replicate, length, get_elem?,
}
use odis.Prelude.Result.{ok, >>=-eq-ok, ok-injective, or_raise, index_error}
use odis.AlertPolicy.State.{
  Scores, healthy_state, confirmed_state, AlertMachineState, fresh, EventType, new_alert,
  class_change, cleared, AlertEvent, StateMachineConfig, Step, Reading, StateMachineResult, index,
  append_event,
}
use odis.AlertPolicy.Machine.{
  step_invalid, step_reading, step_healthy, step_confirmed, confirm_switch, track, read_row,
  step_state_machine, run_from, run_state_machine,
}
use odis.AlertPolicy.Machine.Invariant.{
  IsPositive, IsValid, step_invalid-IsValid, step_reading-IsValid, fresh-IsValid, IsValid-healthy,
  step_reading-healthy, IsValid-confirmed, step_reading-confirmed,
}

-- The states that each kind of event leads from and to.
abbrev pub IsTransition : EventType → String → String → String → Type 0
IsTransition new_alert from to c = (from ≡ healthy_state) × (to ≡ confirmed_state c)
IsTransition class_change from to c =
    (d : String) × (d ≢ c) × (from ≡ confirmed_state d) × (to ≡ confirmed_state c)
IsTransition cleared from to c = (from ≡ confirmed_state c) × (to ≡ healthy_state)

module _ {T : Type 0} where
  -- A row without an event keeps the state; an event leads from the state before to that behind.
  abbrev pub Linked : String → Option (AlertEvent T) → String → Type 0
  Linked a none b = a ≡ b
  Linked a (some e) b =
      (e.from_state ≡ a)
      × (e.to_state ≡ b)
      × IsTransition e.event_type e.from_state e.to_state e.fault_class

  abbrev pub Chain : String → List (AlertEvent T) → String → Type 0
  Chain a [] b = a ≡ b
  Chain a (e ∷ es) b =
      (e.from_state ≡ a)
      × IsTransition e.event_type e.from_state e.to_state e.fault_class
      × Chain e.to_state es b

  Chain-append_event :
      (a b c : String) (o : Option (AlertEvent T)) (es : List (AlertEvent T))
      → Linked a o b
      → Chain b es c
      → Chain a (append_event o es) c
  Chain-append_event a b c none es l h = rw l h
  Chain-append_event a b c (some e) es l h = (l.0, l.2, rw l.1 h)

module _ {T Score : Type 0} (config : StateMachineConfig Score) (t : T)
    (m : AlertMachineState) where
  step_healthy-Linked :
      (qualifies : Bool) (diag : String)
      → m.state ≡ healthy_state
      → Linked m.state
          (step_healthy config t m qualifies diag).2
          (step_healthy config t m qualifies diag).0.state
  unfolding step_healthy
  step_healthy-Linked qualifies diag h = ground arith

  confirm_switch-Linked :
      (current : String) (x : ℕ) (o : Option String) (n : ℕ)
      → m.state ≡ confirmed_state current
      → o ≢ some current
      → Linked m.state
          (confirm_switch config t m current x o n).2
          (confirm_switch config t m current x o n).0.state
  unfolding confirm_switch
  confirm_switch-Linked current x none n h ne = refl
  confirm_switch-Linked current x (some c) n h ne =
      elim (Bool-cases (leb config.entry_persistence n)) [
        | inl e ↦ rw e (sym h, refl, (current, λ p. ne (ap some (sym p)), refl, refl))
        | inr e ↦ rw e
      ]

  track-ne_current :
      (qualifies : Bool) (diag current : String) (o : Option String) (n : ℕ)
      → (track (not (diag == current) && qualifies) diag o n).0 ≢ some current
  unfolding track
  track-ne_current qualifies diag current o n = ground (arith, eq_iff diag current)

  step_confirmed-Linked :
      (current diag : String) (qualifies evidence : Bool)
      → m.state ≡ confirmed_state current
      → Linked m.state
          (step_confirmed config t m current qualifies diag evidence).2
          (step_confirmed config t m current qualifies diag evidence).0.state
  unfolding step_confirmed
  step_confirmed-Linked current diag qualifies evidence h =
      elim (Bool-cases (leb config.exit_persistence (if evidence then m.exit_streak + 1 else 0))) [
        | inl e ↦ rw e (sym h, refl, (refl, refl))
        | inr e ↦ rw e (
            confirm_switch-Linked current _ _ _ h
              (track-ne_current qualifies diag current m.switch_class m.switch_streak))
      ]

  step_reading-Linked :
      (r : Reading) (s : Step T)
      → IsValid config m
      → step_reading config t m r ≡ ok s
      → Linked m.state s.2 s.0.state
  step_reading-Linked r s v h = elim (Option-cases m.confirmed_class) [
    | inl n ↦
        let p = IsValid-healthy config t m v n in
        rw (← ok-injective (sym (step_reading-healthy config t m r p) ∙ h))
          (step_healthy-Linked r.qualifies r.diag p)
    | inr (c, e) ↦
        let p = IsValid-confirmed config t m c v e in
        rw (← ok-injective (sym (step_reading-confirmed config t m r c p e) ∙ h))
          (step_confirmed-Linked c r.diag r.qualifies r.healthy_evidence p)
  ]

module _ (scores : Scores) (config : StateMachineConfig scores.Score) (positive : IsPositive config)
    (classes : List String) where
  pub read_row-qualifies :
      (h : ℕ) (proba : List scores.Score) (r : Reading)
      → read_row scores config classes h proba ≡ ok r
      → r.qualifies ≡ true
      → r.diag ≢ healthy_state
  unfolding read_row
  read_row-qualifies h proba r e q =
      let (d, _, e1) =
        >>=-eq-ok (or_raise (get_elem? classes (scores.argmax proba)) index_error) _ e in
      let (p, _, e2) =
        >>=-eq-ok (or_raise (get_elem? proba (scores.argmax proba)) index_error) _ e1 in
      let (hp, _, e3) = >>=-eq-ok (or_raise (get_elem? proba h) index_error) _ e2 in
      let f = ok-injective e3 in ground (arith, eq_iff d healthy_state)

module _ (scores : Scores) {T : Type 0} (config : StateMachineConfig scores.Score)
    (positive : IsPositive config) (classes : List String) where
  step-Linked :
      (m : AlertMachineState) (t : T) (proba : List scores.Score) (valid : Bool) (s : Step T)
      → IsValid config m
      → step_state_machine scores config classes m t proba valid ≡ ok s
      → IsValid config s.0 × Linked m.state s.2 s.0.state
  unfolding step_state_machine step_invalid
  step-Linked m t proba false s v e =
      let (h, _, e1) = >>=-eq-ok (index classes healthy_state) _ e in
      rw (← ok-injective e1) (step_invalid-IsValid config T m v, refl)
  step-Linked m t proba true s v e =
      let (h, _, e1) = >>=-eq-ok (index classes healthy_state) _ e in
      let (r, e2, e3) = >>=-eq-ok (read_row scores config classes h proba) _ e1 in
      let (s', f, v') =
        step_reading-IsValid config t m r positive v
          (read_row-qualifies scores config positive classes h proba r e2) in
      (rw (ok-injective (sym e3 ∙ f)) v', step_reading-Linked config t m r s v e3)

  run_from-Chain :
      (m : AlertMachineState) (ts : List T) (proba : List (List scores.Score))
      (validity : List Bool) (r : StateMachineResult T)
      → IsValid config m
      → run_from scores config classes m ts proba validity ≡ ok r
      → Chain m.state r.events r.last.state × IsValid config r.last
  unfolding run_from
  run_from-Chain m [] [] [] r v e = rw (← ok-injective e) (refl, v)
  run_from-Chain m (t ∷ ts) (row ∷ proba) (valid ∷ validity) r v e =
      let (s, e1, e2) = >>=-eq-ok (step_state_machine scores config classes m t row valid) _ e in
      let (rest, e3, e4) = >>=-eq-ok (run_from scores config classes s.0 ts proba validity) _ e2 in
      let (v', link) = step-Linked m t row valid s v e1 in
      let (chain, w) = run_from-Chain s.0 ts proba validity rest v' e3 in
      rw (← ok-injective e4)
        (Chain-append_event m.state s.0.state rest.last.state s.2 rest.events link chain, w)
  run_from-Chain m [] [] (valid ∷ validity) r v e = cc
  run_from-Chain m [] (row ∷ proba) validity r v e = cc
  run_from-Chain m (t ∷ ts) [] validity r v e = cc
  run_from-Chain m (t ∷ ts) (row ∷ proba) [] r v e = cc

  -- Of any run that returns, with positive persistences: the events form a chain from `healthy`
  -- to the last state. Each starts in the state in which the one before it ended; `new_alert` leads
  -- from `healthy` to its class, `class_change` from another confirmed class to its class, and
  -- `cleared` from its class to `healthy`.
  pub run_state_machine-Chain :
      (ts : List T) (proba : List (List scores.Score)) (row_valid : Option (List Bool))
      (r : StateMachineResult T)
      → run_state_machine scores config classes ts proba row_valid ≡ ok r
      → Chain healthy_state r.events r.last.state
  unfolding run_state_machine
  run_state_machine-Chain ts proba none r e =
      (run_from-Chain fresh ts proba (replicate (length proba) true) r
        (fresh-IsValid config positive) e).0
  run_state_machine-Chain ts proba (some row_valid) r e =
      (run_from-Chain fresh ts proba row_valid r (fresh-IsValid config positive) e).0
