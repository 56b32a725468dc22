-- ===== src/AlertPolicy/Machine/Totality.antt =====
-- Over a table whose rows are as wide as the list of classes, the machine never raises.
use odis.Prelude.{
  ℕ, zero, suc, ◌<◌, String, ◌≡◌, refl, ap, ◌≢◌, Bool, true, false, not, ◌&&◌, ◌==◌, Option, none,
  some, List, [], ◌∷◌, arith, eq_iff, length, get_elem?-some, replicate, All,
}
use odis.Prelude.Result.{ok}
use odis.AlertPolicy.State.{
  Scores, healthy_state, AlertMachineState, fresh, StateMachineConfig, Step, Reading,
  StateMachineResult, index, append_event,
}
use odis.AlertPolicy.Machine.{
  step_invalid, read_row, step_state_machine, run_from, run_state_machine,
}
use odis.AlertPolicy.Machine.Invariant.{
  IsPositive, IsValid, step_invalid-IsValid, step_reading-IsValid, fresh-IsValid,
}

pub index-lt-length : (xs : List String) (x : String) (i : ℕ) → index xs x ≡ ok i → i < length xs
unfolding index
index-lt-length [] x i h = cc
index-lt-length (c ∷ cs) x i h = grind (arith, index-lt-length cs x)

-- What numpy documents of `argmax`: an index into the array, which is not empty.
abbrev pub ArgmaxLaw : Scores → Type 0
ArgmaxLaw scores = (p : List scores.Score) → p ≢ [] → scores.argmax p < length p

pub ne_nil : {A : Type 0} (xs : List A) (i : ℕ) → i < length xs → xs ≢ []
ne_nil [] i h e = elim h [ ]
ne_nil (x ∷ xs) i h e = cc

pub length-replicate : {A : Type 0} (n : ℕ) (a : A) → length (replicate n a) ≡ n
length-replicate zero a = refl
length-replicate (suc n) a = ap suc (length-replicate n a)

-- `row_valid` is left out, or has one entry to a row.
abbrev pub Flags : Option (List Bool) → ℕ → Type 0
Flags none n = Unit
Flags (some row_valid) n = length row_valid ≡ n

module _ (scores : Scores) (law : ArgmaxLaw scores) (config : StateMachineConfig scores.Score)
    (positive : IsPositive config) (classes : List String) (h : ℕ)
    (has_healthy : index classes healthy_state ≡ ok h) where
  read_row_total :
      (proba : List scores.Score)
      → length proba ≡ length classes
      → (r : Reading) × (read_row scores config classes h proba ≡ ok r)
        × (r.qualifies ≡ true → r.diag ≢ healthy_state)
  unfolding read_row
  read_row_total proba wide =
      let below = index-lt-length classes healthy_state h has_healthy in
      let top : scores.argmax proba < length proba = law proba (ne_nil proba h (omega arith)) in
      let (diag, d) = get_elem?-some classes (scores.argmax proba) (omega arith) in
      let (diag_prob, dp) = get_elem?-some proba (scores.argmax proba) top in
      let (healthy_prob, hp) = get_elem?-some proba h (omega arith) in
      (
        record {
          diag = diag;
          qualifies = not (diag == healthy_state) && scores.ge diag_prob config.entry_probability;
          healthy_evidence = scores.ge healthy_prob config.healthy_exit_probability;
        },
        rw (d, dp, hp),
        ground (arith, eq_iff diag healthy_state),
      )

  module _ {T : Type 0} where
    -- From a valid state a row of the right width never raises and leaves a valid state.
    pub step-IsValid :
        (m : AlertMachineState) (t : T) (proba : List scores.Score) (valid : Bool)
        → length proba ≡ length classes
        → IsValid config m
        → (s : Step T) × (step_state_machine scores config classes m t proba valid ≡ ok s)
          × IsValid config s.0
    unfolding step_state_machine
    step-IsValid m t proba false wide v =
        (step_invalid m, rw has_healthy, step_invalid-IsValid config T m v)
    step-IsValid m t proba true wide v =
        let (r, e, q) = read_row_total proba wide in
        let (s, f, w) = step_reading-IsValid config t m r positive v q in
        (s, rw (has_healthy, e) f, w)

    run_from-IsValid :
        (m : AlertMachineState) (ts : List T) (proba : List (List scores.Score))
        (validity : List Bool)
        → length ts ≡ length proba
        → length validity ≡ length proba
        → All (λ row. length row ≡ length classes) proba
        → IsValid config m
        → (r : StateMachineResult T) × (run_from scores config classes m ts proba validity ≡ ok r)
          × (length r.row_states ≡ length proba)
          × IsValid config r.last
    unfolding run_from
    run_from-IsValid m [] [] [] a b w v =
        (record { row_states = []; events = []; last = m }, refl, refl, v)
    run_from-IsValid m (t ∷ ts) (row ∷ proba) (valid ∷ validity) a b w v =
        let (s, e, v') = step-IsValid m t row valid w.0 v in
        let (r, f, n, u) =
          run_from-IsValid s.0 ts proba validity (omega arith) (omega arith) w.1 v' in
        (
          record r { row_states = s.1 ∷ r.row_states; events = append_event s.2 r.events },
          rw (e, f),
          omega arith,
          u,
        )
    run_from-IsValid m [] [] (valid ∷ validity) a b w v = absurd (omega arith)
    run_from-IsValid m [] (row ∷ proba) validity a b w v = absurd (omega arith)
    run_from-IsValid m (t ∷ ts) [] validity a b w v = absurd (omega arith)
    run_from-IsValid m (t ∷ ts) (row ∷ proba) [] a b w v = absurd (omega arith)

    -- With numpy's law for `argmax`, positive persistences, `healthy` among the classes, and a
    -- table as wide as the classes, `run_state_machine` never raises: it gives one row state to a
    -- row and stops in a valid state.
    pub run_state_machine-IsValid :
        (ts : List T) (proba : List (List scores.Score)) (row_valid : Option (List Bool))
        → length ts ≡ length proba
        → Flags row_valid (length proba)
        → All (λ row. length row ≡ length classes) proba
        → (r : StateMachineResult T) × (run_state_machine scores config classes ts proba row_valid
            ≡ ok r)
          × (length r.row_states ≡ length proba)
          × IsValid config r.last
    unfolding run_state_machine
    run_state_machine-IsValid ts proba none a b w =
        run_from-IsValid fresh ts proba (replicate (length proba) true) a
          (length-replicate (length proba) true) w (fresh-IsValid config positive)
    run_state_machine-IsValid ts proba (some row_valid) a b w =
        run_from-IsValid fresh ts proba row_valid a b w (fresh-IsValid config positive)
