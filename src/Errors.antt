-- ===== src/Errors.antt =====
-- The exceptions that the event path raises and catches, and computations that may raise.
use cloud_portfolio.Prelude.{◌≡◌, refl, ap, ◌∙◌, ℕ, Bool, true, false, Text, codes}

-- `authorization_error` and `owner_conflict` are subclasses of `ValueError`, `sequence_gap` of
-- `RuntimeError`. `other_error` is any exception that no handler names, by its class; `http_exception`
-- is the one with which an endpoint of the API answers.
pub data Error : Type 0 where
  value_error : Text → Error
  authorization_error : Text → Error
  owner_conflict target_missing data_error sequence_gap : Error
  operational_error interface_error runtime_error integrity_error key_error : Error
  other_error : Text → Error
  http_exception : ℕ → Text → Error

pub data Result {ℓ} (A : Type ℓ) : Type ℓ where
  ok : A → Result A
  err : Error → Result A

-- `type(exc).__name__`
unfoldable pub class_name : Error → Text
class_name (value_error m) = codes "ValueError"
class_name (authorization_error m) = codes "IngressAuthorizationError"
class_name owner_conflict = codes "RequestStatusOwnerConflict"
class_name target_missing = codes "NotificationTargetMissing"
class_name data_error = codes "DataError"
class_name sequence_gap = codes "RoomSequenceGapError"
class_name operational_error = codes "OperationalError"
class_name interface_error = codes "InterfaceError"
class_name runtime_error = codes "RuntimeError"
class_name integrity_error = codes "IntegrityError"
class_name key_error = codes "KeyError"
class_name (other_error name) = name
class_name (http_exception status detail) = codes "HTTPException"

infixl 5 ◌>>=◌
-- The computation goes on with the value, unless an exception was raised.
abbrev pub ◌>>=◌ {κ ℓ} : {V : Type κ} {A : Type ℓ} → Result V → (V → Result A) → Result A
ok value >>= next = next value
err raised >>= next = err raised

-- `if b: raise ValueError(message)`
abbrev pub raise_if : Bool → Text → Result (Unit {0})
raise_if true message = err (value_error message)
raise_if false message = ok tt

infixl 5 ◌>>◌
abbrev pub ◌>>◌ {ℓ} : {A : Type ℓ} → Result (Unit {0}) → Result A → Result A
check >> next = check >>= λ _. next

-- What a computation that returns has gone through.
pub >>=-eq-ok {κ ℓ} :
    {V : Type κ} {A : Type ℓ} (first : Result V) (next : V → Result A) {a : A}
    → (first >>= next) ≡ ok a
    → (v : V) × (first ≡ ok v) × (next v ≡ ok a)
>>=-eq-ok (ok v) next h = (v, refl, h)
>>=-eq-ok (err raised) next h = cc

-- A computation of which the first part returns is its second part.
pub >>=-ok {κ ℓ} :
    {V : Type κ} {A : Type ℓ} (first : Result V) (next : V → Result A) {v : V} {r : Result A}
    → first ≡ ok v
    → next v ≡ r
    → (first >>= next) ≡ r
>>=-ok first next e k = ap (λ f. f >>= next) e ∙ k

pub raise_if-eq-ok :
    (b : Bool) (message : Text) (u : Unit {0}) → raise_if b message ≡ ok u → b ≡ false
raise_if-eq-ok true message u h = cc
raise_if-eq-ok false message u h = refl
