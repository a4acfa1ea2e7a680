-- ===== src/Errors.antt =====
-- app/errors.py: the client-facing errors, with their status codes and stable codes, what a route
-- answers, and the exception handlers. `app/deps.py`: the optional API key.
use ticket_triage.Base.{
  ℕ, ◌≡◌, refl, Bool, true, ◌==◌, not, Option, none, some, List, [], ◌∷◌, ◌++◌, select, eqb,
  if◌then◌else◌,
}
use ticket_triage.Text.{Text, codes, text_eq}
use ticket_triage.Model.{Settings}

pub data AppError : Type 0 where
  not_found invalid_state unauthorized validation_error internal_error : AppError

unfoldable pub status_code : AppError → ℕ
status_code not_found = 404
status_code invalid_state = 409
status_code unauthorized = 401
status_code validation_error = 422
status_code internal_error = 500

unfoldable pub error_code : AppError → Text
error_code not_found = codes "not_found"
error_code invalid_state = codes "invalid_state"
error_code unauthorized = codes "unauthorized"
error_code validation_error = codes "validation_error"
error_code internal_error = codes "internal_error"

-- What a route answers: a status code with a body, or an error with its message.
pub data Answer (A : Type 0) : Type 0 where
  success : ℕ → A → Answer A
  error : AppError → Text → Answer A

-- `require_api_key`: with no configured key every request passes. A missing header is "".
unfoldable pub key_accepted : Settings → Text → Bool
key_accepted settings provided = elim settings.api_key [
  | [] ↦ true
  | c ∷ s ↦ provided == settings.api_key
]

-- `_error_response`: a status code, a code and a message.
pub record ErrorResponse : Type 0 where
  pub status_code : ℕ
  pub code : Text
  pub message : Text

unfoldable pub handle_app_error : AppError → Text → ErrorResponse
unfolding status_code error_code
handle_app_error e message = record {
  status_code = status_code e;
  code = error_code e;
  message = message;
}

-- An error of pydantic's list: the parts of its location, as texts, and its message, if it has one.
pub record Detail : Type 0 where
  pub loc : List Text
  pub msg : Option Text

unfoldable pub join_dots : List Text → Text
join_dots [] = []
join_dots (part ∷ []) = part
join_dots (part ∷ next ∷ parts) = part ++ (codes "." ++ join_dots (next ∷ parts))

unfoldable pub detail_message : Detail → Text
unfolding join_dots
detail_message e =
    let loc : Text = join_dots (select (λ part. not (part == codes "body")) e.loc) in
    let detail : Text = elim e.msg [ none ↦ codes "Invalid request." | some m ↦ m ] in
    elim loc [ [] ↦ detail | c ∷ s ↦ (c ∷ s) ++ (codes ": " ++ detail) ]

-- `_handle_validation`
unfoldable pub handle_validation : List Detail → ErrorResponse
unfolding detail_message
handle_validation errors = record {
  status_code = 422;
  code = codes "validation_error";
  message = elim errors [ [] ↦ codes "Request validation failed." | e ∷ es ↦ detail_message e ];
}

-- The mapping of `_handle_http`.
unfoldable pub http_code : ℕ → Text
http_code status =
    if eqb status 401
    then codes "unauthorized"
    else if eqb status 404
    then codes "not_found"
    else if eqb status 409
    then codes "invalid_state"
    else if eqb status 422
    then codes "validation_error"
    else codes "internal_error"

-- `_handle_http`; the detail of an exception may be no text.
unfoldable pub handle_http : ℕ → Option Text → ErrorResponse
unfolding http_code
handle_http status detail = record {
  status_code = status;
  code = http_code status;
  message = elim detail [ none ↦ codes "Request could not be processed." | some m ↦ m ];
}

-- `_handle_unexpected`: nothing of the exception is shown.
abbrev pub handle_unexpected : ErrorResponse
handle_unexpected = record {
  status_code = 500;
  code = codes "internal_error";
  message = codes "An unexpected error occurred.";
}

-- An HTTP exception with the status of an application error is answered as that error is.
handle_http-handle_app_error :
    (e : AppError) (message : Text)
    → handle_http (status_code e) (some message) ≡ handle_app_error e message
unfolding handle_http handle_app_error
handle_http-handle_app_error not_found message = refl
handle_http-handle_app_error invalid_state message = refl
handle_http-handle_app_error unauthorized message = refl
handle_http-handle_app_error validation_error message = refl
handle_http-handle_app_error internal_error message = refl
