-- ===== src/AlertPolicy/Machine/Evidence.antt =====
-- What an event rests on: the rows behind a confirmed, switched or cleared alert.
use native.Mathlib.Numerals.{add-one}
use odis.AlertPolicy.State.{
  AlertMachineState, Reading, fresh, confirmed, healthy_state, StateMachineConfig,
}
use odis.Prelude.{
  List, String, ◌≢◌, Option, ◌≡◌, ℕ, Bool, none, true, ◌≤◌, ◌∷◌, ◌+◌, some, if◌then◌else◌, suc,
  arith, ◌==◌, Bool-cases, not, leb, inl, ◌&&◌, inr, eq_iff, zero, refl, false, [], keep,
}
use odis.AlertPolicy.Machine.{track, step_invalid, confirm_pending, confirm_switch}
use odis.Prelude.Text.{eq-cases}

-- The rows seen so far, the newest first; `none` is a row with insufficient data.
abbrev pub Rows : Type 0
Rows = List (Option Reading)

-- The last `n` rows are all valid, qualify, and diagnose `c`.
abbrev pub Consecutive : String → Rows → ℕ → Type 0
Consecutive c h zero = Unit
Consecutive c [] (suc n) = ⊥
Consecutive c (none ∷ h) (suc n) = ⊥
Consecutive c (some r ∷ h) (suc n) = (r.qualifies ≡ true) × (r.diag ≡ c) × Consecutive c h n

-- The last `n` rows that are valid have the property; invalid rows between them are passed over.
abbrev pub Across : (Reading → Type 0) → Rows → ℕ → Type 0
Across P h zero = Unit
Across P [] (suc n) = ⊥
Across P (none ∷ h) (suc n) = Across P h (suc n)
Across P (some r ∷ h) (suc n) = P r × Across P h n

abbrev pub Diagnoses : String → Reading → Type 0
Diagnoses c r = (r.qualifies ≡ true) × (r.diag ≡ c)

abbrev pub IsHealthyEvidence : Reading → Type 0
IsHealthyEvidence r = r.healthy_evidence ≡ true

pub Consecutive-le :
    (c : String) (h : Rows) (m n : ℕ) → m ≤ n → Consecutive c h n → Consecutive c h m
Consecutive-le c h zero n l e = tt
Consecutive-le c h (suc m) zero l e = absurd (omega arith)
Consecutive-le c [] (suc m) (suc n) l e = elim e [ ]
Consecutive-le c (none ∷ h) (suc m) (suc n) l e = elim e [ ]
Consecutive-le c (some r ∷ h) (suc m) (suc n) l e =
    (e.0, e.1, Consecutive-le c h m n (omega arith) e.2)

pub Across-le : (P : Reading → Type 0) (h : Rows) (m n : ℕ) → m ≤ n → Across P h n → Across P h m
Across-le P h zero n l e = tt
Across-le P h (suc m) zero l e = absurd (omega arith)
Across-le P [] (suc m) (suc n) l e = elim e [ ]
Across-le P (none ∷ h) (suc m) (suc n) l e = Across-le P h (suc m) (suc n) l e
Across-le P (some r ∷ h) (suc m) (suc n) l e = (e.0, Across-le P h m n (omega arith) e.1)

Across-skip : (P : Reading → Type 0) (h : Rows) (n : ℕ) → Across P h n → Across P (none ∷ h) n
Across-skip P h zero e = tt
Across-skip P h (suc n) e = e

-- A candidate class is backed by as many rows as its streak counts.
abbrev pub Backed : (String → ℕ → Type 0) → Option String → ℕ → Type 0
Backed P none n = Unit
Backed P (some c) n = P c n

track-Backed :
    (P Q : String → ℕ → Type 0) (qualifies : Bool) (diag : String) (o : Option String) (n : ℕ)
    → (qualifies ≡ true → Q diag 1)
    → ((k : ℕ) → qualifies ≡ true → P diag k → Q diag (k + 1))
    → Backed P o n
    → Backed Q (track qualifies diag o n).0 (track qualifies diag o n).1
unfolding track
track-Backed P Q false diag o n one more b = tt
track-Backed P Q true diag none n one more b = one refl
track-Backed P Q true diag (some c) n one more b = elim (eq-cases diag c) [
  | inl (t, e) ↦ rw t (more n refl (rw e b))
  | inr f ↦ rw f (one refl)
]

pub record HasEvidence (h : Rows) (m : AlertMachineState) : Type 0 where
  pub pending : Backed (λ c n. Consecutive c h n) m.pending_class m.pending_streak
  pub switching : Backed (λ c n. Across (Diagnoses c) h n) m.switch_class m.switch_streak
  pub exiting : Across IsHealthyEvidence h m.exit_streak

confirmed-HasEvidence : (h : Rows) (c : String) → HasEvidence h (confirmed c)
confirmed-HasEvidence h c = record { pending = tt; switching = tt; exiting = tt }

pub fresh-HasEvidence : (h : Rows) → HasEvidence h fresh
fresh-HasEvidence h = record { pending = tt; switching = tt; exiting = tt }

Backed-skip :
    (P : String → Reading → Type 0) (h : Rows) (o : Option String) (n : ℕ)
    → Backed (λ c k. Across (P c) h k) o n
    → Backed (λ c k. Across (P c) (none ∷ h) k) o n
Backed-skip P h none n b = tt
Backed-skip P h (some c) n b = Across-skip (P c) h n b

pub step_invalid-HasEvidence :
    (T : Type 0) (h : Rows) (m : AlertMachineState)
    → (m.pending_class ≢ none → m.state ≡ healthy_state)
    → HasEvidence h m
    → HasEvidence (none ∷ h) (step_invalid {T = T} m).0
unfolding step_invalid
step_invalid-HasEvidence T h m keep e = record {
  pending = pending_part m.pending_class refl;
  switching = Backed-skip Diagnoses h m.switch_class m.switch_streak e.switching;
  exiting = Across-skip IsHealthyEvidence h m.exit_streak e.exiting;
}
  where
    pending_part :
        (o : Option String)
        → m.pending_class ≡ o
        → Backed
            (λ c n. Consecutive c (none ∷ h) n)
            (if m.state == healthy_state then none else m.pending_class)
            (if m.state == healthy_state then 0 else m.pending_streak)
    pending_part none p = elim (Bool-cases (m.state == healthy_state)) [
      | inl t ↦ rw t tt
      | inr f ↦ rw (f, p) tt
    ]
    pending_part (some c) p =
        let t = (eq_iff m.state healthy_state).0 in
        rw ((eq_iff m.state healthy_state).1 (keep (λ q. cc))) tt

module _ {T Score : Type 0} (config : StateMachineConfig Score) (t : T) (h : Rows)
    (m : AlertMachineState) (r : Reading) where
  abbrev pub now : Rows
  now = some r ∷ h

  pub confirm_pending-HasEvidence :
      (o : Option String) (n : ℕ)
      → Backed (λ c k. Consecutive c now k) o n
      → m.exit_streak ≡ 0
      → m.switch_class ≡ none
      → HasEvidence now (confirm_pending config t m o n).0
  unfolding confirm_pending
  confirm_pending-HasEvidence none n b x w = record {
    pending = tt;
    switching = rw w tt;
    exiting = rw x tt;
  }
  confirm_pending-HasEvidence (some c) n b x w =
      elim (Bool-cases (leb config.entry_persistence n)) [
        | inl e ↦ rw e (confirmed-HasEvidence now c)
        | inr e ↦ rw e (record { pending = b; switching = rw w tt; exiting = rw x tt })
      ]

  pub confirm_switch-HasEvidence :
      (current : String) (x : ℕ) (o : Option String) (n : ℕ)
      → Backed (λ c k. Across (Diagnoses c) now k) o n
      → Across IsHealthyEvidence now x
      → m.pending_class ≡ none
      → HasEvidence now (confirm_switch config t m current x o n).0
  unfolding confirm_switch
  confirm_switch-HasEvidence current x none n b e p = record {
    pending = rw p tt;
    switching = tt;
    exiting = e;
  }
  confirm_switch-HasEvidence current x (some c) n b e p =
      elim (Bool-cases (leb config.entry_persistence n)) [
        | inl l ↦ rw l (confirmed-HasEvidence now c)
        | inr l ↦ rw l (record { pending = rw p tt; switching = b; exiting = e })
      ]

  pub pending_now :
      HasEvidence h m
      → Backed
          (λ c k. Consecutive c now k)
          (track r.qualifies r.diag m.pending_class m.pending_streak).0
          (track r.qualifies r.diag m.pending_class m.pending_streak).1
  pending_now e =
      track-Backed (λ c k. Consecutive c h k) (λ c k. Consecutive c now k) r.qualifies r.diag
        m.pending_class m.pending_streak (λ q. (q, refl, tt)) (λ k q b. rw add-one (q, refl, b))
        e.pending

  pub switching_now :
      (current : String)
      → HasEvidence h m
      → let tracked =
          track (not (r.diag == current) && r.qualifies) r.diag m.switch_class m.switch_streak in
        Backed (λ c k. Across (Diagnoses c) now k) tracked.0 tracked.1
  switching_now current e =
      track-Backed (λ c k. Across (Diagnoses c) h k) (λ c k. Across (Diagnoses c) now k)
        (not (r.diag == current) && r.qualifies) r.diag m.switch_class m.switch_streak
        (λ q. ((ground arith, refl), tt)) (λ k q b. rw add-one ((ground arith, refl), b))
        e.switching

  pub exiting_now :
      (evidence : Bool)
      → (evidence ≡ true → IsHealthyEvidence r)
      → HasEvidence h m
      → Across IsHealthyEvidence now (if evidence then m.exit_streak + 1 else 0)
  exiting_now true q e = rw add-one (q refl, e.exiting)
  exiting_now false q e = tt
