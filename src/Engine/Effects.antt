-- ===== src/Engine/Effects.antt =====
-- Python's exceptions as results.
use mathlib.Core.Path.{subst}
use nano_qwen3tts_vllm.Common.{◌⊎◌, inl, inr, refl, ◌≡◌, sym, ap, ◌∙◌, Bool, true, false}

-- `negative_count` stands for a reference count below zero, on which the source goes on.
pub data Error : Type 0 where
  assertion_error index_error value_error key_error attribute_error type_error runtime_error
        zero_division_error :
      Error
  negative_count : Error

pub data Result {ℓ} (A : Type ℓ) : Type ℓ where
  ok : A → Result A
  raise : Error → Result A

infixl 5 ◌>>=◌ ◌>>◌
abbrev pub ◌>>=◌ {ℓ κ} : {A : Type ℓ} {B : Type κ} → Result A → (A → Result B) → Result B
ok a >>= f = f a
raise e >>= f = raise e

abbrev pub ◌>>◌ {ℓ} : {B : Type ℓ} → Result (Unit {0}) → Result B → Result B
m >> k = m >>= λ _. k

-- `assert`
abbrev pub assert : Bool → Result (Unit {0})
assert true = ok tt
assert false = raise assertion_error

-- The call returns a value, which meets `Q`.
abbrev pub Returns {ℓ κ} : {A : Type ℓ} → (A → Type κ) → Result A → Type (ℓ ⊔ κ)
Returns {A = A} Q r = (a : A) × (r ≡ ok a) × Q a

pub Result-cases {ℓ} :
    {A : Type ℓ} (r : Result A) → ((a : A) × (r ≡ ok a)) ⊎ ((e : Error) × (r ≡ raise e))
Result-cases (ok a) = inl (a, refl)
Result-cases (raise e) = inr (e, refl)

value_or {ℓ} : {A : Type ℓ} → A → Result A → A
value_or a (ok b) = b
value_or a (raise e) = a

-- The postcondition of a call at the value that it computes to.
pub Returns-at {ℓ κ} :
    {A : Type ℓ} (Q : A → Type κ) (r : Result A) (a : A) → Returns Q r → r ≡ ok a → Q a
unfolding value_or
Returns-at Q r a (b, e, q) e' = subst Q (ap (value_or a) (sym e ∙ e')) q
