-- ===== src/Go/Error.antt =====
-- Error values: `errors.New`, `errors.Wrap` and `fmt.Errorf("...: %w")`, `sql.ErrNoRows`,
-- `fiber.NewError` and `status.Error`.
use users_api.Base.{ℕ, String, ◌<>◌, Bool, true, false}

pub data Error : Type 0 where
  err_no_rows : Error
  message : String → Error
  wrap : Error → String → Error
  fiber_error : ℕ → String → Error
  status_error : ℕ → String → Error

-- `errors.Is(err, sql.ErrNoRows)`: the chain of wrapped errors is followed.
unfoldable pub is_no_rows : Error → Bool
is_no_rows err_no_rows = true
is_no_rows (wrap e context) = is_no_rows e
is_no_rows (message text) = false
is_no_rows (fiber_error code text) = false
is_no_rows (status_error code text) = false

-- `err.Error()`. The text of a gRPC status error is never read by the modelled code.
unfoldable pub error_text : Error → String
error_text err_no_rows = "sql: no rows in result set"
error_text (message text) = text
error_text (wrap e context) = context <> (": " <> error_text e)
error_text (fiber_error code text) = text
error_text (status_error code text) = text
