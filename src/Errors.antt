-- ===== src/Errors.antt =====
-- common/exceptions/base.py and the helpers `_validation`, `_not_found` and `_conflict` at the end
-- of each services.py: the failures that a service raises. The title and the subject are fixed by
-- the module that raises; the model keeps the code, the field and the text.
use apparel_network.Prelude.{ℕ, String}

pub data AppError : Type 0 where
  validation : (field message : String) → AppError
  not_found : (subject : String) → AppError
  conflict : (detail : String) → AppError
  -- an exception of Python that no service catches, such as the `ValueError` of a `__post_init__`
  value_error : (message : String) → AppError

-- The HTTP status under which the failure crosses the boundary.
unfoldable pub status_code : AppError → ℕ
status_code (validation field message) = 422
status_code (not_found subject) = 404
status_code (conflict detail) = 409
status_code (value_error message) = 500

pub data Result {ℓ} (A : Type ℓ) : Type ℓ where
  ok : A → Result A
  err : AppError → Result A
