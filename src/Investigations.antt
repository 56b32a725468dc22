-- ===== src/Investigations.antt =====
-- backend/app/application/investigation_service.py over domain/investigation.py and
-- infrastructure/repositories/investigation_repository.py: the transitions in the order of insertion.
-- `now` is the clock, `id` the identifier that `uuid4` returns, `id_before` the order of the database
-- on identifiers, `dispatched` what the outbox dispatcher returns behind the commit. The outbox keeps
-- the transition that its row describes.
pub mod Forward
mod Tests
use odis.Prelude.Result.{Result, ok, err, value_error, raise_if, ◌>>◌, transition_rejected, ◌>>=◌}
use odis.Bridge.Service.{precedes}
use odis.Prelude.{
  ℕ, suc, String, Bool, true, false, ◌||◌, Option, none, some, List, [], ◌∷◌, ◌++◌, ◌==◌, leb,
  if◌then◌else◌, any,
}

pub data InvestigationStatus : Type 0 where
  acknowledged investigating resolved : InvestigationStatus

pub record InvestigationEvent : Type 0 where
  pub id : String
  pub asset_id : String
  pub recommendation_id : String
  pub status : InvestigationStatus
  pub actor_id : String
  pub actor_display_name : String
  pub occurred_at : ℕ
  pub notes : Option String

pub record Register : Type 0 where
  pub transitions : List InvestigationEvent
  pub outbox : List InvestigationEvent

-- `INVESTIGATION_STATUS_ORDER.index(status)`
abbrev pub status_rank : InvestigationStatus → ℕ
status_rank acknowledged = 0
status_rank investigating = 1
status_rank resolved = 2

-- One more than `current_rank`, which is -1 without a transition.
abbrev pub level : Option InvestigationEvent → ℕ
level none = 0
level (some e) = suc (status_rank e.status)

abbrev pub is_about : String → InvestigationEvent → Bool
is_about recommendation_id e = e.recommendation_id == recommendation_id

-- `InvestigationEvent.__post_init__`
unfoldable pub check_transition : InvestigationEvent → Result (Unit {0})
check_transition e =
    raise_if
      ((e.id == "")
        || (e.asset_id == "")
        || (e.recommendation_id == "")
        || (e.actor_id == "")
        || (e.actor_display_name == ""))
      value_error

module _ (id_before : String → String → Bool) where
  abbrev pub later : InvestigationEvent → Option InvestigationEvent → InvestigationEvent
  later e none = e
  later e (some f) = if precedes id_before e.occurred_at e.id f.occurred_at f.id then f else e

  unfoldable pub get_latest_for_recommendation :
      String → List InvestigationEvent → Option InvestigationEvent
  get_latest_for_recommendation recommendation_id [] = none
  get_latest_for_recommendation recommendation_id (e ∷ es) =
      let rest = get_latest_for_recommendation recommendation_id es in
      if is_about recommendation_id e then some (later e rest) else rest

  -- `save`, which refuses an id that is there
  abbrev pub save : InvestigationEvent → Register → Result Register
  save e register =
      if any (λ (f : InvestigationEvent). f.id == e.id) register.transitions
      then err value_error
      else ok (record { transitions = register.transitions ++ (e ∷ []); outbox = register.outbox })

  abbrev pub add_outbox : Bool → InvestigationEvent → Register → Register
  add_outbox false e register = register
  add_outbox true e register = record {
    transitions = register.transitions;
    outbox = register.outbox ++ (e ∷ []);
  }

  -- The part before the commit, for the transition that the arguments describe.
  unfoldable pub stage_transition : Bool → InvestigationEvent → Register → Result Register
  unfolding get_latest_for_recommendation check_transition
  stage_transition bus e register =
      if leb (suc (status_rank e.status))
        (level (get_latest_for_recommendation e.recommendation_id register.transitions))
      then err transition_rejected
      else (do check_transition e; register' ← save e register; ok (add_outbox bus e register'))

  abbrev pub finish_transition :
      Bool
      → Result (Unit {0})
      → InvestigationEvent
      → Register
      → Result Register
      → Register × Result InvestigationEvent
  finish_transition bus dispatched e register (err raised) = (register, err raised)
  finish_transition bus dispatched e register (ok register') =
      (register', (if bus then dispatched else ok tt) >> ok e)

  unfoldable pub record_transition :
      Bool
      → Result (Unit {0})
      → InvestigationEvent
      → Register
      → Register × Result InvestigationEvent
  unfolding stage_transition
  record_transition bus dispatched e register =
      finish_transition bus dispatched e register (stage_transition bus e register)
