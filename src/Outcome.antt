-- ===== src/Outcome.antt =====
-- Python's exceptions as values: what a function of src/clausis that may raise comes back with.
use clausis.Prelude.{String, ◌≡◌, refl, ap, Bool, true, false}

-- The classes that the modelled code raises or lets through; `CapabilityError` of
-- src/clausis/capabilities.py is a `ValueError` of its own, `GnomeAdapterError` of
-- src/clausis/gnome_adapter.py a `RuntimeError`,
-- and `provider_error` whatever the accessibility tree raises.
pub data Exception : Type 0 where
  value_error : String → Exception
  adapter_error : String → Exception
  capability_error : String → Exception
  provider_error type_error key_error attribute_error overflow_error : Exception
  os_error subprocess_error : String → Exception

pub data Outcome {ℓ} (A : Type ℓ) : Type ℓ where
  ok : A → Outcome A
  raised : Exception → Outcome A

-- `if condition: raise ValueError(message)`
abbrev pub reject_if : Bool → String → Outcome (Unit {0})
reject_if true m = raised (value_error m)
reject_if false m = ok tt

infixl 5 ◌>>=◌ ◌>>◌
abbrev pub ◌>>=◌ {ℓa ℓb} : {A : Type ℓa} {B : Type ℓb} → Outcome A → (A → Outcome B) → Outcome B
raised exception >>= next = raised exception
ok value >>= next = next value

abbrev pub ◌>>◌ {ℓ} : {B : Type ℓ} → Outcome (Unit {0}) → Outcome B → Outcome B
m >> k = m >>= λ _. k

abbrev pub is_ok {ℓ} : {A : Type ℓ} → Outcome A → Bool
is_ok (ok a) = true
is_ok (raised e) = false

pub ok-injective {ℓ} : {A : Type ℓ} {a b : A} → ok a ≡ ok b → a ≡ b
ok-injective {a = a} h = ap (λ o. elim o [ ok x ↦ x | raised e ↦ a ]) h

pub >>=-eq-ok {ℓa ℓb} :
    {A : Type ℓa} {B : Type ℓb} (first : Outcome A) (next : A → Outcome B) {result : B}
    → (first >>= next) ≡ ok result
    → (value : A) × (first ≡ ok value) × (next value ≡ ok result)
>>=-eq-ok (raised exception) next came = cc
>>=-eq-ok (ok value) next came = (value, refl, came)
