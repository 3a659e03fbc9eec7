-- ===== src/Error.antt =====
-- codebase/llmhub/app/error/error_code.py: the error codes, the table of status codes and default
-- messages, the HTTP exception, and the two functions that raise it. Other Python exceptions are
-- kept with their class and `str(e)`, a KeyError with its key. A function that may raise returns a
-- `Result`.

use rtxag.Prelude.{ℕ, String, ◌≡◌, refl, ◌⊎◌, inl, inr, Option, List, [], ◌∷◌, concat}

pub data ErrorCode : Type 0 where
  unknown_error internal_server_error object_not_found too_many_requests : ErrorCode
  request_validation_error data_model_validation_error provider_error : ErrorCode
  credentials_validation_error : ErrorCode

-- `ErrorCode.value`
abbrev pub code_value : ErrorCode → String
code_value unknown_error = "UNKNOWN_ERROR"
code_value internal_server_error = "INTERNAL_SERVER_ERROR"
code_value object_not_found = "OBJECT_NOT_FOUND"
code_value too_many_requests = "TOO_MANY_REQUESTS"
code_value request_validation_error = "REQUEST_VALIDATION_ERROR"
code_value data_model_validation_error = "DATA_MODEL_VALIDATION_ERROR"
code_value provider_error = "PROVIDER_ERROR"
code_value credentials_validation_error = "CREDENTIALS_VALIDATION_ERROR"

-- `error_messages[code]["status_code"]`
unfoldable pub status_code : ErrorCode → ℕ
status_code unknown_error = 500
status_code internal_server_error = 500
status_code object_not_found = 404
status_code too_many_requests = 429
status_code request_validation_error = 422
status_code data_model_validation_error = 400
status_code provider_error = 400
status_code credentials_validation_error = 401

-- `error_messages[code]["message"]`
unfoldable pub default_message : ErrorCode → String
default_message unknown_error = "Unknown error occurred."
default_message internal_server_error = "Internal server error."
default_message object_not_found = "Object does not exist."
default_message too_many_requests = "Too many requests."
default_message request_validation_error = "Request validation error."
default_message data_model_validation_error = "Data model validation error."
default_message provider_error = "Provider api responds error."
default_message credentials_validation_error = "Credentials validation error."

-- A `TKHttpException` with the detail that the program gives it: a code and a message.
pub record TkHttpException : Type 0 where
  pub status : ℕ
  pub error_code : ErrorCode
  pub message : String

-- The classes of the other exceptions that the program raises or catches.
pub data Kind : Type 0 where
  value_error key_error index_error type_error attribute_error validation_error : Kind
  invalid_url connection_error other_error : Kind

pub data Exception : Type 0 where
  http : TkHttpException → Exception
  raised : Kind → String → Exception

-- What a call returns, or the exception that it raises.
pub data Result {ℓ} (A : Type ℓ) : Type ℓ where
  err : Exception → Result A
  ok : A → Result A

-- What a generator has yielded, and the exception that ended it, if one did.
pub record Run {ℓ} (A : Type ℓ) : Type ℓ where
  pub yielded : List A
  pub ended : Option Exception

-- `TKHttpException(status_code=error_messages[c]["status_code"], detail={...})`
abbrev pub http_error : ErrorCode → String → Exception
http_error c message = http (record { status = status_code c; error_code = c; message = message })

abbrev pub raise_http_error {ℓ} : {A : Type ℓ} → ErrorCode → String → Result A
raise_http_error c message = err (http_error c message)

abbrev pub raise_provider_api_error {ℓ} : {A : Type ℓ} → String → Result A
raise_provider_api_error message =
    raise_http_error provider_error
      (concat ("Error on calling provider model API: " ∷ message ∷ []))

-- One statement after another: an exception skips what follows.
infixl 10 ◌>>=◌ ◌>>◌
abbrev pub ◌>>=◌ {ℓ κ} : {A : Type ℓ} {B : Type κ} → Result A → (A → Result B) → Result B
err raised_here >>= next = err raised_here
ok value >>= next = next value

abbrev pub ◌>>◌ {κ} : {B : Type κ} → Result (Unit {0}) → Result B → Result B
check >> rest = check >>= λ (_ : Unit {0}). rest

-- A list comprehension whose body may raise: the first exception ends it.
unfoldable pub traverse {ℓ κ} :
    {A : Type ℓ} {B : Type κ} → (A → Result B) → List A → Result (List B)
traverse f [] = ok []
traverse f (x ∷ xs) = do y ← f x; ys ← traverse f xs; ok (y ∷ ys)

-- What a chain that returned went through.
module _ {ℓ κ} {A : Type ℓ} {B : Type κ} (next : A → Result B) {b : B} where
  pub ok-bind : (r : Result A) → (r >>= next) ≡ ok b → (a : A) × (r ≡ ok a) × (next a ≡ ok b)
  ok-bind (ok a) q = (a, refl, q)
  ok-bind (err e) q = cc

pub ok_injective {ℓ} : {A : Type ℓ} (a b : A) → ◌≡◌ {A = Result A} (ok a) (ok b) → a ≡ b
ok_injective a b h = cc

pub Result-cases {ℓ} :
    {A : Type ℓ} (r : Result A) → ((e : Exception) × (r ≡ err e)) ⊎ ((a : A) × (r ≡ ok a))
Result-cases (err e) = inl (e, refl)
Result-cases (ok a) = inr (a, refl)
