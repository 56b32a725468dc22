-- ===== src/Guidance/Severity.antt =====
-- What an operator is told of an operational state.
use odis.Guidance.{
  OperationalState, NotificationSeverity, recommend, notify, normal, critical, low_risk,
  critical_severity, priority_of,
}
use odis.Prelude.{String, ◌≡◌, ◌↔◌, Option, none, some, arith}

-- The severity of the notification of a state, if there is one.
abbrev pub severity_for : (String → String) → OperationalState → Option NotificationSeverity
severity_for digest s = elim (notify (recommend digest s)) [
  | none ↦ none
  | some n ↦ some n.severity
]

-- A state gives a CRITICAL notification exactly where its health is CRITICAL, whatever the risk, and
-- none exactly where its health is NORMAL and its risk LOW.
pub notify-recommend :
    (digest : String → String) (s : OperationalState)
    → ((severity_for digest s ≡ some critical_severity) ↔ (s.health_status ≡ critical))
      × ((notify (recommend digest s) ≡ none)
          ↔ ((s.health_status ≡ normal) × (s.risk_level ≡ low_risk)))
unfolding notify recommend priority_of
notify-recommend digest s = ground arith

-- Two states of an asset with the same health and the same risk have one recommendation, by its id
-- and its priority, whatever their scores, drivers, actions and times are.
pub recommend-id :
    (digest : String → String) (s t : OperationalState)
    → s.asset_id ≡ t.asset_id
    → s.health_status ≡ t.health_status
    → s.risk_level ≡ t.risk_level
    → ((recommend digest s).id ≡ (recommend digest t).id)
      × ((recommend digest s).priority ≡ (recommend digest t).priority)
unfolding recommend
recommend-id digest s t asset health risk = grind arith
