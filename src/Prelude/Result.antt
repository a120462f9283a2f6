-- ===== src/Prelude/Result.antt =====
-- A Python call returns a value or raises: a result with the class of the exception.
use mathlib.Core.Path.{◌≡◌, refl}
use mathlib.Core.Logic.{◌⊎◌, inl, inr}
use mathlib.Core.Bool.{Bool}
use llm_kv_passthrough.Prelude.Tests.{if◌then◌else◌}

pub data Error : Type 0 where
  value_error runtime_error key_error overflow_error index_error type_error zero_division : Error

pub data Result {ℓ} (A : Type ℓ) : Type ℓ where
  ok : A → Result A
  err : Error → Result A

-- `if not test: raise error`
abbrev pub guard : Bool → Error → Result (Unit {0})
guard test error = if test then ok tt else err error

infixl 5 ◌>>=◌ ◌>>◌
-- The exception of the first call leaves the second one out.
abbrev pub ◌>>=◌ {ℓ κ} : {X : Type ℓ} {Y : Type κ} → Result X → (X → Result Y) → Result Y
err raised >>= next = err raised
ok value >>= next = next value

abbrev pub ◌>>◌ {κ} : {Y : Type κ} → Result (Unit {0}) → Result Y → Result Y
first >> second = first >>= λ done. second

-- A chain that returned: its first call did, and so did the rest on that value.
pub >>=-eq-ok {ℓ κ} :
    {X : Type ℓ} {Y : Type κ} (first : Result X) (next : X → Result Y) {y : Y}
    → (first >>= next) ≡ ok y
    → (value : X) × (first ≡ ok value) × (next value ≡ ok y)
>>=-eq-ok (err raised) next returned = cc
>>=-eq-ok (ok value) next returned = (value, refl, returned)

pub Result-cases {ℓ} :
    {A : Type ℓ} (r : Result A) → ((a : A) × (r ≡ ok a)) ⊎ ((e : Error) × (r ≡ err e))
Result-cases (ok a) = inl (a, refl)
Result-cases (err e) = inr (e, refl)

pub ok-injective {ℓ} : {A : Type ℓ} {a b : A} → ok a ≡ ok b → a ≡ b
ok-injective h = cc

-- A chain that raised: its first call did, or the rest on what it returned.
pub >>=-eq-err {ℓ κ} :
    {X : Type ℓ} {Y : Type κ} (first : Result X) (next : X → Result Y) {raised : Error}
    → (first >>= next) ≡ err raised
    → (first ≡ err raised) ⊎ ((value : X) × (first ≡ ok value) × (next value ≡ err raised))
>>=-eq-err (err e) next h = inl cc
>>=-eq-err (ok value) next h = inr (value, refl, h)
