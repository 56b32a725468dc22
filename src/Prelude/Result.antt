-- ===== src/Prelude/Result.antt =====
-- Python's exceptions as values, with the exception classes that the modelled code raises.
use Prim.Native.String.{String}
use mathlib.Core.Path.{◌≡◌, refl, ap, subst, ◌∙◌}
use mathlib.Core.Bool.{Bool, true, false}
use odis.Prelude.Tests.{if◌then◌else◌}
use mathlib.Core.Option.{Option, none, some}
use mathlib.Core.Logic.{◌⊎◌, inl, inr}

pub data Error : Type 0 where
  value_error index_error assertion_error key_error integrity_error transition_rejected
        no_result_found type_error overflow_error unsupported_event_version
        unsupported_transition_type malformed_timestamp malformed_scores healthy_class_rejected
        malformed_state unsupported_measurement duplicate_measurement unit_mismatch non_finite_value
        inconsistent_sample missing_measurement non_monotonic_timestamp invalid_asset_id
        stop_iteration :
      Error
  missing_field : String → Error
  unsupported_fault_class : String → Error

-- What a call gives back: a value, or the exception that it raised.
pub data Result {ℓ} (A : Type ℓ) : Type ℓ where
  err : Error → Result A
  ok : A → Result A

-- `if test: raise e`
abbrev pub raise_if : Bool → Error → Result (Unit {0})
raise_if true raised = err raised
raise_if false raised = ok tt

-- The value of an option, or an exception where there is none.
abbrev pub or_raise {ℓ} : {A : Type ℓ} → Option A → Error → Result A
or_raise (some value) raised = ok value
or_raise none raised = err raised

-- The value, or one to stand for it.
abbrev value_or {ℓ} : {A : Type ℓ} → A → Result A → A
value_or default (err raised) = default
value_or default (ok value) = value

pub ok-injective {ℓ} : {A : Type ℓ} {x y : A} → ok x ≡ ok y → x ≡ y
ok-injective {x} same = ap (value_or x) same

-- A call raises or returns.
pub Result-cases {ℓ} :
    {A : Type ℓ} (call : Result A)
    → ((raised : Error) × (call ≡ err raised)) ⊎ ((value : A) × (call ≡ ok value))
Result-cases (err raised) = inl (raised, refl)
Result-cases (ok value) = inr (value, refl)

-- One call behind another, which is skipped where the first raises.
infixl 5 ◌>>=◌
abbrev pub ◌>>=◌ {ℓ κ} : {A : Type ℓ} {B : Type κ} → Result A → (A → Result B) → Result B
call >>= next = elim call [ err raised ↦ err raised | ok value ↦ next value ]

-- A chain that returns has a first call that returned.
pub >>=-eq-ok {ℓ κ} :
    {A : Type ℓ} {B : Type κ} (call : Result A) (next : A → Result B) {last : B}
    → (call >>= next) ≡ ok last
    → (value : A) × (call ≡ ok value) × (next value ≡ ok last)
>>=-eq-ok (err raised) next returned = cc
>>=-eq-ok (ok value) next returned = (value, refl, returned)

infixl 5 ◌>>◌
abbrev pub ◌>>◌ {ℓ} : {B : Type ℓ} → Result (Unit {0}) → Result B → Result B
check >> rest = check >>= λ done. rest

-- Where a test raises, a value comes from the other branch.
pub guarded {ℓ} :
    {A : Type ℓ} (b : Bool) (raised : Error) (m : Result A) {x : A}
    → (if b then err raised else m) ≡ ok x
    → (b ≡ false) × (m ≡ ok x)
guarded true raised m h = cc
guarded false raised m h = (refl, h)

-- `P` holds of what a call returns, where it returns.
abbrev pub OnOk {ℓ κ} : {A : Type ℓ} → (A → Type κ) → Result A → Type κ
OnOk P (err raised) = Unit
OnOk P (ok value) = P value

pub OnOk->>= {ℓ κ υ} :
    {A : Type ℓ} {B : Type κ} (P : B → Type υ) (call : Result A) (next : A → Result B)
    → ((value : A) → call ≡ ok value → OnOk P (next value))
    → OnOk P (call >>= next)
OnOk->>= P (err raised) next f = tt
OnOk->>= P (ok value) next f = f value refl

pub OnOk-if {ℓ κ} :
    {A : Type ℓ} (P : A → Type κ) (b : Bool) (x y : Result A)
    → (b ≡ true → OnOk P x)
    → (b ≡ false → OnOk P y)
    → OnOk P (if b then x else y)
OnOk-if P true x y f g = f refl
OnOk-if P false x y f g = g refl

pub OnOk-ok {ℓ κ} :
    {A : Type ℓ} (P : A → Type κ) {call : Result A} {value : A}
    → call ≡ ok value
    → OnOk P call
    → P value
OnOk-ok P e h = subst (OnOk P) e h

pub OnOk-map {ℓ κ υ} :
    {A : Type ℓ} (P : A → Type κ) (Q : A → Type υ) (call : Result A)
    → ((value : A) → P value → Q value)
    → OnOk P call
    → OnOk Q call
OnOk-map P Q (err raised) f h = tt
OnOk-map P Q (ok value) f h = f value h

pub or_raise-ok {ℓ} :
    {A : Type ℓ} (o : Option A) (raised : Error) {value : A}
    → or_raise o raised ≡ ok value
    → o ≡ some value
or_raise-ok none raised h = cc
or_raise-ok (some value) raised h = ap some (ok-injective h)

-- Where a test lets a value through, it holds and the value is that one.
pub let_through {ℓ} :
    {A : Type ℓ} (b : Bool) (raised : Error) (a : A) {x : A}
    → (if b then ok a else err raised) ≡ ok x
    → (b ≡ true) × (a ≡ x)
let_through true raised a h = (refl, ok-injective h)
let_through false raised a h = cc

-- The call returns a value of which `P` holds.
abbrev pub Gives : {A : Type 0} → (A → Type 0) → Result A → Type 0
Gives {A} P call = (value : A) × (call ≡ ok value) × P value

pub Gives-if :
    {A : Type 0} (P : A → Type 0) (b : Bool) {x y : Result A}
    → (b ≡ true → Gives P x)
    → (b ≡ false → Gives P y)
    → Gives P (if b then x else y)
Gives-if P true f g = f refl
Gives-if P false f g = g refl

pub Gives->>= :
    {A B : Type 0} (P : A → Type 0) (Q : B → Type 0) {call : Result A} (next : A → Result B)
    → Gives P call
    → ((value : A) → P value → Gives Q (next value))
    → Gives Q (call >>= next)
Gives->>= P Q next (value, e, p) f =
    let (last, d, q) = f value p in (last, ap (λ r. r >>= next) e ∙ d, q)

-- The call returns a value with `P`, or raises an exception with `E`.
abbrev pub Settles : {A : Type 0} → (Error → Type 0) → (A → Type 0) → Result A → Type 0
Settles E P call = Gives P call ⊎ ((raised : Error) × (call ≡ err raised) × E raised)

pub Settles->>= :
    {A B : Type 0} (E : Error → Type 0) (P : A → Type 0) (Q : B → Type 0) {call : Result A}
    (next : A → Result B)
    → Gives P call
    → ((value : A) → P value → Settles E Q (next value))
    → Settles E Q (call >>= next)
Settles->>= E P Q next (value, e, p) f = elim (f value p) [
  | inl (last, d, q) ↦ inl (last, ap (λ r. r >>= next) e ∙ d, q)
  | inr (raised, d, q) ↦ inr (raised, ap (λ r. r >>= next) e ∙ d, q)
]

pub Settles-if :
    {A : Type 0} (E : Error → Type 0) (P : A → Type 0) (b : Bool) {x y : Result A}
    → (b ≡ true → Settles E P x)
    → (b ≡ false → Settles E P y)
    → Settles E P (if b then x else y)
Settles-if E P true f g = f refl
Settles-if E P false f g = g refl
