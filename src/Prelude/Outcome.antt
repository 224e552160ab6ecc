-- ===== src/Prelude/Outcome.antt =====
-- Exceptions as values: one constructor for each exception class that the backend raises or
-- handles by class. Messages are left out.
use mathlib.Core.Path.{◌≡◌, refl, sym}
use mathlib.Core.Bool.{Bool, true, false}
use mathlib.Core.Logic.{◌⊎◌, inl, inr}
use mathlib.Core.Option.{Option, none, some}

pub data Error : Type 0 where
  type_error value_error key_error runtime_error assertion_error os_error struct_error queue_full
        index_error :
      Error
  raw_can_record_error gateway_protocol_error gateway_connection_error : Error
  unknown_can_frame_error malformed_can_frame_error : Error
  telemetry_schema_error out_of_order_telemetry_error : Error
  unknown_diagnostic_code_error diagnostic_clear_error : Error
  session_format_error session_version_error session_integrity_error : Error
  session_dbc_mismatch_error session_recording_error : Error
  investigation_query_error investigation_compatibility_error investigation_limit_error : Error

pub data Result {ℓ} (A : Type ℓ) : Type ℓ where
  ok : A → Result A
  err : Error → Result A

infixl 5 ◌>>=◌ ◌>>◌
abbrev pub ◌>>=◌ {ℓ κ} : {X : Type ℓ} {Y : Type κ} → Result X → (X → Result Y) → Result Y
err raised >>= next = err raised
ok x >>= next = next x

-- if test: raise e
abbrev pub raise_if : Bool → Error → Result (Unit {0})
raise_if true e = err e
raise_if false e = ok tt

abbrev pub ◌>>◌ {ℓ} : {X : Type ℓ} → Result (Unit {0}) → Result X → Result X
check >> next = check >>= λ _. next

abbrev pub or_raise {ℓ} : {A : Type ℓ} → Option A → Error → Result A
or_raise none e = err e
or_raise (some a) e = ok a

pub Result-cases {ℓ} :
    {A : Type ℓ} (r : Result A) → ((a : A) × (r ≡ ok a)) ⊎ ((e : Error) × (r ≡ err e))
Result-cases (ok a) = inl (a, refl)
Result-cases (err e) = inr (e, refl)

-- A chain that returned: its first part did, and the rest did from there.
pub >>=-eq-ok {ℓ κ} :
    {X : Type ℓ} {Y : Type κ} (first : Result X) (next : X → Result Y) {y : Y}
    → (first >>= next) ≡ ok y
    → (x : X) × (first ≡ ok x) × (next x ≡ ok y)
>>=-eq-ok (err raised) next h = cc
>>=-eq-ok (ok x) next h = (x, refl, h)

pub ok_injective {ℓ} : {A : Type ℓ} {a b : A} → ok a ≡ ok b → a ≡ b
ok_injective h = cc

pub ok-ne-err {ℓ} : {A : Type ℓ} {a : A} {e : Error} → ok a ≡ err e → ⊥
ok-ne-err h = cc

-- What a check that passed and a lookup that succeeded tell.
pub raise_if-passed {ℓ} :
    {A : Type ℓ} (b : Bool) (e : Error) (m : Result A) {a : A}
    → (raise_if b e >> m) ≡ ok a
    → (b ≡ false) × (m ≡ ok a)
raise_if-passed true e m h = absurd (ok-ne-err (sym h))
raise_if-passed false e m h = (refl, h)

pub or_raise-found {ℓ} :
    {A : Type ℓ} (o : Option A) (e : Error) {a : A} → or_raise o e ≡ ok a → o ≡ some a
or_raise-found none e h = absurd (ok-ne-err (sym h))
or_raise-found (some a) e h = cc
