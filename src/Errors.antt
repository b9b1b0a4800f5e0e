-- ===== src/Errors.antt =====
-- The errors of backend/app/errors.py. An error keeps its class, its code and the field that it
-- names; the message, a text for people, is left out. `unexpected` is any exception that is no
-- AppError, by the name of its class: the last handler turns it into a 500.
use skon_biztrip_web.Base.{ℕ, String, Bool, true, false, Option, none}

pub data AppError : Type 0 where
  validation_error auth_error forbidden_error not_found_error conflict_error :
      String → Option String → AppError
  unexpected : String → AppError

-- `status_code` of the classes, and of the handler of the rest.
unfoldable pub status_code : AppError → ℕ
status_code (validation_error code field) = 400
status_code (auth_error code field) = 401
status_code (forbidden_error code field) = 403
status_code (not_found_error code field) = 404
status_code (conflict_error code field) = 409
status_code (unexpected class_name) = 500

-- The JSON body of a response: its `error` object without the message.
pub record Body : Type 0 where
  pub code : String
  pub field : Option String

-- `handle_app_error` and `handle_unexpected`
unfoldable pub error_body : AppError → Body
error_body (validation_error c f) = record { code = c; field = f }
error_body (auth_error c f) = record { code = c; field = f }
error_body (forbidden_error c f) = record { code = c; field = f }
error_body (not_found_error c f) = record { code = c; field = f }
error_body (conflict_error c f) = record { code = c; field = f }
error_body (unexpected class_name) = record { code = "INTERNAL_ERROR"; field = none }

pub data Result {ℓ} (A : Type ℓ) : Type ℓ where
  ok : A → Result A
  err : AppError → Result A

abbrev pub is_ok {ℓ} : {A : Type ℓ} → Result A → Bool
is_ok (ok a) = true
is_ok (err e) = false

-- `if not b: raise e`
abbrev pub check : Bool → AppError → Result (Unit {0})
check true e = ok tt
check false e = err e

-- A raise ends the function; else the next statement runs.
infixl 5 ◌>>◌
abbrev pub ◌>>◌ {ℓ} : {B : Type ℓ} → Result (Unit {0}) → Result B → Result B
err raised >> next = err raised
ok _ >> next = next

infixl 5 ◌>>=◌
abbrev pub ◌>>=◌ {ℓ κ} : {A : Type κ} {B : Type ℓ} → Result A → (A → Result B) → Result B
err raised >>= next = err raised
ok a >>= next = next a
