-- ===== src/Outbox/Tests.antt =====
-- The outbox at concrete rows, with times written as tallies.
use odis.Outbox.Events.{
  Datetime, naive, aware, Formats, DomainEvent, observation_created, trend_changed, risk_changed,
  deserialize_domain_event,
}
use odis.Outbox.Events.RoundTrip.{
  event_name, payload_of, IsFaithful, deserialize-payload_of, in_utc,
}
use odis.Outbox.Integration.{
  IntegrationEvent, map_domain_event_to_integration_event,
  map_domain_event_to_integration_event-Tells, Tells,
}
use odis.Outbox.Dispatcher.{
  OutboxEvent, Deployment, dispatch, confirmed_delivery, failed_delivery, undispatched, publish,
  dispatch_rows,
}
use odis.Outbox.Dispatcher.Advance.{Pairwise, Advances, dispatch-Advances, IsKeyed}
use odis.Outbox.Dispatcher.Completion.{IsSome, Works, IsReadable, IsSettled}
use odis.Outbox.Dispatcher.Outcome.{dispatch-unreadable, dispatch-IsSettled, dispatch_complete}
use odis.Outbox.Dispatcher.Order.{dispatch-order, events_in}
use odis.Bridge.Input.{Json, string, number, no_fields, field}
use odis.Prelude.Text.{concat, strip_prefix}
use odis.Prelude.Sort.{IsOrdered, sort_on}
use mathlib.Core.List.Memᴰ.{head, tail}
use odis.Prelude.{
  ℕ, zero, suc, String, ◌≡◌, refl, ap, Option, none, some, List, [], ◌∷◌, arith, sym, ◌⊎◌, Bool,
  true, false, ◌++◌, ◌==◌, if◌then◌else◌, some-injective, All,
}
use odis.Prelude.Result.{ok, Result, err, type_error, key_error}

abbrev tally : ℕ → String
tally zero = ""
tally (suc n) = concat "+" (tally n)

abbrev size : String → ℕ
size String.[] = 0
size (String.◌∷◌ c s) = suc (size s)

abbrev plain_text : Json ℕ → String
plain_text (string s) = s
plain_text _ = "?"

abbrev plain_int : Json ℕ → Result ℕ
plain_int (number n) = ok n
plain_int _ = err type_error

abbrev write_time : Datetime → String
write_time (naive t) = concat "naive" (tally t)
write_time (aware t) = concat "aware" (tally t)

abbrev read_time : String → Option Datetime
read_time s = elim (strip_prefix "naive" s) [
  | some rest ↦ some (naive (size rest))
  | none ↦ elim (strip_prefix "aware" s) [ some rest ↦ some (aware (size rest)) | none ↦ none ]
]

abbrev tallies : Formats
tallies = record {
  Number = ℕ;
  no_score = 0;
  str = plain_text;
  int = plain_int;
  isoformat = write_time;
  fromisoformat = read_time;
}

size-tally : (n : ℕ) → size (tally n) ≡ n
size-tally zero = refl
size-tally (suc n) = ap suc (size-tally n)

read_time-write_time : (d : Datetime) → read_time (write_time d) ≡ some d
read_time-write_time (naive t) = ap (λ n. some (naive n)) (size-tally t)
read_time-write_time (aware t) = ap (λ n. some (aware n)) (size-tally t)

tallies-IsFaithful : IsFaithful tallies
tallies-IsFaithful = record {
  str-string = λ s. refl;
  int-number = λ n. refl;
  fromisoformat-isoformat = read_time-write_time;
}

abbrev seen : DomainEvent ℕ
seen = observation_created "a1" "o1" (naive 3)

abbrev turned : DomainEvent ℕ
turned = trend_changed "a1" "r1" "stable" "rising" 80 10 (aware 5)

abbrev endangered : DomainEvent ℕ
endangered = risk_changed "a1" "r1" "LOW" "HIGH" 40 (aware 5)

deserialize-payload_of_example :
    deserialize_domain_event tallies "TrendChanged" (payload_of tallies turned) ≡ ok (some turned)
deserialize-payload_of_example = deserialize-payload_of tallies tallies-IsFaithful turned

abbrev written : String → ℕ → DomainEvent ℕ → OutboxEvent ℕ
written id created_at event = record {
  id = id;
  event_type = event_name event;
  payload = payload_of tallies event;
  created_at = created_at;
  dispatched_at = none;
}

abbrev torn : OutboxEvent ℕ
torn = record {
  id = "torn";
  event_type = "RiskChanged";
  payload = no_fields;
  created_at = 1;
  dispatched_at = none;
}

abbrev foreign : OutboxEvent ℕ
foreign = record {
  id = "foreign";
  event_type = "ShiftChanged";
  payload = no_fields;
  created_at = 2;
  dispatched_at = none;
}

abbrev table : List (OutboxEvent ℕ)
table = written "row-1" 7 turned ∷ written "row-2" 4 seen ∷ []

abbrev connected : Deployment tallies
connected = record {
  handlers = record { subscribed_to = "TrendChanged"; handle = λ event. ok tt } ∷ [];
  publisher = some (λ event. confirmed_delivery);
  new_id = λ row. concat "integration-" row.id;
}

abbrev offline : Deployment tallies
offline = record {
  handlers = [];
  publisher = some (λ event. failed_delivery);
  new_id = λ row. concat "integration-" row.id;
}

-- The trend's integration event is not confirmed, and its row stays.
offline-dispatch : (dispatch tallies offline 9 table).1.cycle.done ≡ "row-2" ∷ []
unfolding dispatch undispatched map_domain_event_to_integration_event deserialize_domain_event
    payload_of dispatch_rows sort_on publish
offline-dispatch = refl

-- The earlier row is published first.
connected-dispatch :
    (dispatch tallies connected 9 table).1.cycle.published
    ≡ observation_created "a1" "o1" (aware 3) ∷ turned ∷ []
unfolding dispatch undispatched map_domain_event_to_integration_event deserialize_domain_event
    payload_of dispatch_rows sort_on publish
connected-dispatch = refl

abbrev told : IntegrationEvent ℕ
told = record {
  id = "i1";
  name = "OperationalStateChanged";
  occurred_at = aware 5;
  payload = field "asset_id" (string "a1") (
      field "run_id" (string "r1") (
        field "timestamp" (string (write_time (aware 5))) (
          field "change_type" (string "risk_level") (
            field "previous_risk_level" (string "LOW") (
              field "new_risk_level" (string "HIGH")
                (field "health_score" (number 40) no_fields))))));
}

endangered-told : map_domain_event_to_integration_event tallies "i1" endangered ≡ some told
unfolding map_domain_event_to_integration_event
endangered-told = refl

map_domain_event_to_integration_event-Tells_example : Tells tallies "i1" endangered told
map_domain_event_to_integration_event-Tells_example =
    map_domain_event_to_integration_event-Tells tallies "i1" endangered told endangered-told

table-IsKeyed : IsKeyed table
table-IsKeyed row (head e) = rw e (omega arith)
table-IsKeyed row (tail (head e)) = rw e (omega arith)
table-IsKeyed row (tail (tail m)) = elim m [ ]

dispatch-Advances_example :
    Pairwise (Advances tallies offline 9) table (dispatch tallies offline 9 table).0
dispatch-Advances_example = dispatch-Advances tallies offline 9 table table-IsKeyed

torn-raises : deserialize_domain_event tallies "RiskChanged" no_fields ≡ err key_error
unfolding deserialize_domain_event
torn-raises = refl

dispatch-unreadable_example :
    IsSome (dispatch tallies connected 9 (torn ∷ table)).1.raised
    × ((dispatch tallies connected 9 (torn ∷ table)).0 ≡ torn ∷ table)
dispatch-unreadable_example =
    dispatch-unreadable tallies connected 9 (torn ∷ table) torn key_error (head refl) refl
      torn-raises

either_way : (r : Result (Unit {0})) (b : Bool) → (if b then r else r) ≡ r
either_way r true = refl
either_way r false = refl

connected-Works : Works tallies connected
unfolding publish
connected-Works = record {
  handles = λ event. either_way (ok tt) ("TrendChanged" == event_name event);
  confirms = λ send made e. ap (λ f. f made) (sym (some-injective e));
}

table-IsReadable : All (IsReadable tallies) (foreign ∷ table)
unfolding deserialize_domain_event payload_of
table-IsReadable = ((none, refl), ((some turned, refl), ((some (in_utc seen), refl), tt)))

dispatch-IsSettled_example :
    ((dispatch tallies connected 9 (foreign ∷ table)).1.raised ≡ none)
    × All (IsSettled tallies) (dispatch tallies connected 9 (foreign ∷ table)).0
dispatch-IsSettled_example =
    dispatch-IsSettled tallies connected 9 (foreign ∷ table) connected-Works table-IsReadable

dispatch_complete_example :
    All (λ row. IsSome row.dispatched_at) (dispatch tallies connected 9 table).0
dispatch_complete_example =
    dispatch_complete tallies connected 9 table tallies-IsFaithful connected-Works
      ((turned, refl, refl), ((seen, refl, refl), tt))

dispatch-order_example :
    IsOrdered (λ row. row.created_at) (undispatched table)
    × (rest : List (DomainEvent ℕ)) × ((dispatch tallies connected 9 table).1.cycle.published
          ++ rest
        ≡ events_in tallies (undispatched table))
    × ((rest ≡ []) ⊎ IsSome (dispatch tallies connected 9 table).1.raised)
dispatch-order_example = dispatch-order tallies connected 9 table
