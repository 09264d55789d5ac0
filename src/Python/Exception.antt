-- ===== src/Python/Exception.antt =====
-- Exceptions as values: hm6/consumer/handlers.py `ValidationError` and `HandlerError`, and what
-- else the consumer catches as `Exception`. A formatted message is a constructor that holds the
-- values which the source prints.
use service_oriented_archite.Base.{String, Bool, true, false, ◌≡◌, refl, ◌⊎◌, inl, inr}
use service_oriented_archite.Base.Int.{ℤ}

-- One constructor for each `raise ValidationError(...)`; zone, product, what is there, what is asked.
pub data Reason : Type 0 where
  invalid_quantity : ℤ → Reason
  insufficient_available : String → String → ℤ → ℤ → Reason
  insufficient_in_source : String → String → ℤ → ℤ → Reason
  same_zone : Reason
  insufficient_to_reserve : String → String → ℤ → ℤ → Reason
  insufficient_to_release : String → String → ℤ → ℤ → Reason
  negative_count : ℤ → Reason
  no_items : Reason
  insufficient_for_item : String → String → ℤ → ℤ → Reason
  order_not_found : String → Reason
  insufficient_to_complete : String → String → ℤ → ℤ → Reason

-- Exceptions of the language, and of a session whose request got no answer.
pub data Fault : Type 0 where
  key_error : String → Fault
  type_error value_error overflow_error unavailable : Fault

pub data Exn : Type 0 where
  validation : Reason → Exn
  handler_error : String → Exn
  fault : Fault → Exn

pub data Result {ℓ} (A : Type ℓ) : Type ℓ where
  ok : A → Result A
  raise : Exn → Result A

infixl 5 ◌>>=◌ ◌>>◌
unfoldable pub ◌>>=◌ {ℓ κ} : {A : Type ℓ} {B : Type κ} → Result A → (A → Result B) → Result B
ok a >>= f = f a
raise e >>= f = raise e

unfoldable pub ◌>>◌ {ℓ} : {B : Type ℓ} → Result (Unit {0}) → Result B → Result B
ok _ >> k = k
raise e >> k = raise e

-- `if b: raise e`
unfoldable pub raise_if : Bool → Exn → Result (Unit {0})
raise_if true e = raise e
raise_if false e = ok tt

pub Result-cases {ℓ} :
    {A : Type ℓ} (r : Result A) → ((a : A) × (r ≡ ok a)) ⊎ ((e : Exn) × (r ≡ raise e))
Result-cases (ok a) = inl (a, refl)
Result-cases (raise e) = inr (e, refl)
