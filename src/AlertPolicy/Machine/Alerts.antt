-- ===== src/AlertPolicy/Machine/Alerts.antt =====
-- Every event of the alert machine rests on enough rows.
use odis.Prelude.{
  ℕ, ◌+◌, String, ◌≡◌, sym, ◌∙◌, ◌≢◌, inl, inr, true, Option, none, some, [], ◌∷◌, arith, leb,
  if◌then◌else◌, leb→le, Bool-cases, Option-cases,
}
use odis.AlertPolicy.State.{
  StateMachineConfig, AlertMachineState, EventType, Reading, fresh, AlertEvent, Step, healthy_state,
  new_alert, class_change, cleared,
}
use odis.AlertPolicy.Machine.{
  confirm_pending, confirm_switch, step_healthy, step_reading, step_confirmed, step_invalid,
}
use odis.AlertPolicy.Machine.Evidence.{
  Rows, Backed, Across, Consecutive, HasEvidence, Consecutive-le, Diagnoses, pending_now, Across-le,
  IsHealthyEvidence, fresh-HasEvidence, switching_now, exiting_now, confirm_pending-HasEvidence,
  confirm_switch-HasEvidence, step_invalid-HasEvidence,
}
use odis.AlertPolicy.Machine.Invariant.{
  IsValid, IsPositive, fresh-IsValid, step_reading-IsValid, step_reading-healthy,
  step_invalid-IsValid, IsValid-healthy, step_reading-confirmed, IsValid-confirmed,
}
use odis.Prelude.Result.{ok, ok-injective}

module _ {Score : Type 0} (config : StateMachineConfig Score) where
  -- The states that rows can lead to from a fresh machine, with those rows, the newest first.
  pub data Reached (T : Type 0) : Rows → AlertMachineState → Type 0 where
    start : Reached T [] fresh
    read :
        {h : Rows} {m : AlertMachineState} (t : T) (r : Reading) (s : Step T)
        → Reached T h m
        → (r.qualifies ≡ true → r.diag ≢ healthy_state)
        → step_reading config t m r ≡ ok s
        → Reached T (some r ∷ h) s.0
    skipped :
        {h : Rows} {m : AlertMachineState}
        → Reached T h m
        → Reached T (none ∷ h) (step_invalid {T = T} m).0

-- What an event of a kind, for a class, rests on.
abbrev pub RestsOn :
    {Score : Type 0} → StateMachineConfig Score → Rows → EventType → String → Type 0
RestsOn config h new_alert c = Consecutive c h config.entry_persistence
RestsOn config h class_change c = Across (Diagnoses c) h config.entry_persistence
RestsOn config h cleared c = Across IsHealthyEvidence h config.exit_persistence

IsValid-pending :
    {Score : Type 0} (config : StateMachineConfig Score) (m : AlertMachineState)
    → IsValid config m
    → m.pending_class ≢ none
    → m.state ≡ healthy_state
IsValid-pending config m v p = ground arith

module _ {T Score : Type 0} (config : StateMachineConfig Score) where
  abbrev Explained : Rows → Option (AlertEvent T) → Type 0
  Explained h none = Unit
  Explained h (some e) = RestsOn config h e.event_type e.fault_class

  confirm_pending-Explained :
      (t : T) (h : Rows) (m : AlertMachineState) (o : Option String) (n : ℕ)
      → Backed (λ c k. Consecutive c h k) o n
      → Explained h (confirm_pending config t m o n).2
  unfolding confirm_pending
  confirm_pending-Explained t h m none n b = tt
  confirm_pending-Explained t h m (some c) n b =
      elim (Bool-cases (leb config.entry_persistence n)) [
        | inl l ↦ rw l (Consecutive-le c h config.entry_persistence n (leb→le _ _ l) b)
        | inr l ↦ rw l tt
      ]

  confirm_switch-Explained :
      (t : T) (h : Rows) (m : AlertMachineState) (current : String) (x : ℕ) (o : Option String)
      (n : ℕ)
      → Backed (λ c k. Across (Diagnoses c) h k) o n
      → Explained h (confirm_switch config t m current x o n).2
  unfolding confirm_switch
  confirm_switch-Explained t h m current x none n b = tt
  confirm_switch-Explained t h m current x (some c) n b =
      elim (Bool-cases (leb config.entry_persistence n)) [
        | inl l ↦ rw l (Across-le (Diagnoses c) h config.entry_persistence n (leb→le _ _ l) b)
        | inr l ↦ rw l tt
      ]

  module _ (t : T) (h : Rows) (m : AlertMachineState) (r : Reading) (e : HasEvidence h m) where
    step_healthy-Explained :
        m.exit_streak ≡ 0
        → m.switch_class ≡ none
        → let s = step_healthy config t m r.qualifies r.diag in
          HasEvidence (some r ∷ h) s.0 × Explained (some r ∷ h) s.2
    unfolding step_healthy
    step_healthy-Explained x w =
        let b = pending_now config t h m r e in
        (
          confirm_pending-HasEvidence config t h m r _ _ b x w,
          confirm_pending-Explained t (some r ∷ h) m _ _ b,
        )

    step_confirmed-Explained :
        (current : String)
        → m.pending_class ≡ none
        → let s = step_confirmed config t m current r.qualifies r.diag r.healthy_evidence in
          HasEvidence (some r ∷ h) s.0 × Explained (some r ∷ h) s.2
    unfolding step_confirmed
    step_confirmed-Explained current p =
        let b = switching_now config t h m r current e in
        let x = exiting_now config t h m r r.healthy_evidence (λ q. q) e in
        elim (Bool-cases
          (leb config.exit_persistence (if r.healthy_evidence then m.exit_streak + 1 else 0))) [
            | inl l ↦ rw l (
              fresh-HasEvidence (some r ∷ h),
              Across-le IsHealthyEvidence (some r ∷ h) _ _ (leb→le _ _ l) x,
            )
            | inr l ↦ rw l (
              confirm_switch-HasEvidence config t h m r current _ _ _ b x p,
              confirm_switch-Explained t (some r ∷ h) m current _ _ _ b,
            )
          ]

    step_reading-Explained :
        (s : Step T)
        → IsValid config m
        → step_reading config t m r ≡ ok s
        → HasEvidence (some r ∷ h) s.0 × Explained (some r ∷ h) s.2
    step_reading-Explained s v q = elim (Option-cases m.confirmed_class) [
      | inl n ↦
          rw
            (← ok-injective
              (sym (step_reading-healthy config t m r (IsValid-healthy config t m v n)) ∙ q))
            (step_healthy-Explained (ground arith) (ground arith))
      | inr (c, n) ↦
          rw
            (← ok-injective (
              sym (step_reading-confirmed config t m r c (IsValid-confirmed config t m c v n) n)
              ∙ q))
            (step_confirmed-Explained c (ground arith))
    ]

  Reached-HasEvidence :
      {h : Rows} {m : AlertMachineState}
      → IsPositive config
      → Reached config T h m
      → IsValid config m × HasEvidence h m
  Reached-HasEvidence p start = (fresh-IsValid config p, fresh-HasEvidence [])
  Reached-HasEvidence p (read {h = h} {m = m} t r s before q e) =
      let (v, ev) = Reached-HasEvidence p before in
      let (s', f, v') = step_reading-IsValid config t m r p v q in
      (rw (ok-injective (sym e ∙ f)) v', (step_reading-Explained t h m r ev s v e).0)
  Reached-HasEvidence p (skipped {h = h} {m = m} before) =
      let (v, ev) = Reached-HasEvidence p before in
      (
        step_invalid-IsValid config T m v,
        step_invalid-HasEvidence T h m (IsValid-pending config m v) ev,
      )

  -- Of a machine with positive persistences, in any state that rows have led to: a `new_alert` for
  -- a class comes only behind `entry_persistence` rows in succession, none of them invalid, that
  -- qualify and diagnose that class; a `class_change` only behind as many such rows with at most
  -- invalid rows between them; a `cleared` only behind `exit_persistence` rows of healthy evidence
  -- with at most invalid rows between them. The row of the event is the last of them.
  pub event_evidence :
      {h : Rows} {m : AlertMachineState} (t : T) (r : Reading) (s : Step T) (e : AlertEvent T)
      → IsPositive config
      → Reached config T h m
      → step_reading config t m r ≡ ok s
      → s.2 ≡ some e
      → RestsOn config (some r ∷ h) e.event_type e.fault_class
  event_evidence {h} {m} t r s e p reached q is_event =
      let (v, ev) = Reached-HasEvidence p reached in
      let explained = (step_reading-Explained t h m r ev s v q).1 in rw is_event at explained
