-- ===== src/Errors.antt =====
-- errors.rs: the application's errors and their HTTP status; actions on a store that may fail.
use ullav_user_management.Prelude.{
  ℕ, String, Option, none, some, Bool, if◌then◌else◌, ◌≡◌, refl, ◌⊎◌, inl, inr,
}

pub data AppError : Type 0 where
  database : String → AppError
  pool : String → AppError
  not_found : AppError
  conflict : AppError
  invalid_credentials : AppError
  invalid_token : AppError
  hashing : String → AppError
  jwt : String → AppError
  validation : String → AppError
  forbidden : AppError
  email : String → AppError
  payment_provider : String → AppError
  oauth2 : String → AppError
  internal : String → AppError

-- `status_code` of `ResponseError`
unfoldable pub status_code : AppError → ℕ
status_code not_found = 404
status_code conflict = 409
status_code invalid_credentials = 401
status_code invalid_token = 401
status_code (validation _) = 400
status_code forbidden = 403
status_code (payment_provider _) = 502
status_code (oauth2 _) = 400
status_code _ = 500

-- `Result<T, AppError>`
pub data Result {ℓ} (A : Type ℓ) : Type ℓ where
  ok : A → Result A
  err : AppError → Result A

-- To split on a result and keep the equation.
pub Result-cases {ℓ} :
    {Value : Type ℓ} (r : Result Value)
    → ((value : Value) × (r ≡ ok value)) ⊎ ((failure : AppError) × (r ≡ err failure))
Result-cases (ok value) = inl (value, refl)
Result-cases (err failure) = inr (failure, refl)

-- `and_then`: the operation of `?` and of do blocks, also of those inside an action on a store.
abbrev pub and_then {ℓ κ} :
    {Value : Type ℓ} {Next : Type κ} → Result Value → (Value → Result Next) → Result Next
and_then (err failure) next = err failure
and_then (ok value) next = next value

-- `ok_or`
abbrev pub or_fail {ℓ} : {Value : Type ℓ} → Option Value → AppError → Result Value
or_fail (some value) missing = ok value
or_fail none missing = err missing

-- `return Err(e)` when the condition holds
abbrev pub fail_if : Bool → AppError → Result (Unit {0})
fail_if condition failure = if condition then err failure else ok tt

infixl 5 ◌>>=◌
abbrev pub ◌>>=◌ {ℓ κ} :
    {Value : Type ℓ} {Next : Type κ} → Result Value → (Value → Result Next) → Result Next
result >>= next = and_then result next

infixl 5 ◌>>◌
abbrev pub ◌>>◌ {ℓ} : {Next : Type ℓ} → Result (Unit {0}) → Result Next → Result Next
first >> second = and_then first (λ _. second)
