-- ===== src/Investigations/Tests.antt =====
-- An operator's investigation at concrete inputs.
use odis.Investigations.{
  InvestigationEvent, InvestigationStatus, Register, acknowledged, resolved, level,
  get_latest_for_recommendation, record_transition,
}
use odis.Investigations.Forward.{IsForward, record_transition-IsForward}
use odis.Prelude.{ℕ, ◌≤◌, String, ◌≡◌, refl, Bool, true, not, none, some, [], ◌∷◌, arith, ◌==◌}
use odis.Prelude.Result.{ok}

abbrev by_inequality : String → String → Bool
by_inequality s t = not (s == t)

abbrev transition : String → InvestigationStatus → ℕ → InvestigationEvent
transition id status at = record {
  id = id;
  asset_id = "stack-1";
  recommendation_id = "r1";
  status = status;
  actor_id = "op";
  actor_display_name = "Operator";
  occurred_at = at;
  notes = none;
}

abbrev seen : Register
seen = record { transitions = transition "t1" acknowledged 5 ∷ []; outbox = [] }

abbrev closed : Register
closed = record {
  transitions = transition "t1" acknowledged 5 ∷ transition "t2" resolved 9 ∷ [];
  outbox = transition "t2" resolved 9 ∷ [];
}

recorded :
    record_transition by_inequality true (ok tt) (transition "t2" resolved 9) seen
    ≡ (closed, ok (transition "t2" resolved 9))
unfolding record_transition
recorded = refl

seen-IsForward : IsForward by_inequality seen.transitions
unfolding get_latest_for_recommendation
seen-IsForward r = ground arith

record_transition-IsForward_example :
    (level (get_latest_for_recommendation by_inequality "r1" seen.transitions) ≤ 2)
    × (get_latest_for_recommendation by_inequality "r1" closed.transitions
        ≡ some (transition "t2" resolved 9))
    × (get_latest_for_recommendation by_inequality "r2" closed.transitions
        ≡ get_latest_for_recommendation by_inequality "r2" seen.transitions)
    × IsForward by_inequality closed.transitions
record_transition-IsForward_example =
    record_transition-IsForward by_inequality true (ok tt) (transition "t2" resolved 9)
      (transition "t2" resolved 9) seen closed (omega arith, tt) seen-IsForward recorded "r2" refl
