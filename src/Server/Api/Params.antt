-- ===== src/Server/Api/Params.antt =====
-- internal/server/api/openapi.gen.go: the errors of the parameters of a request, and which of them
-- the wrapper makes of an error of the binder.
use april_homework.Common.{ℕ, Text, codes, Option, none, some, Result, ok, err, ◌++◌}
use april_homework.Strings.{print_nat}

-- The error types, each with the name of its parameter; a wrapped error is its message.
pub data ParamError : Type 0 where
  unescaped_cookie : Text → Text → ParamError
  unmarshaling : Text → Text → ParamError
  required_param : Text → ParamError
  required_header : Text → Text → ParamError
  invalid_format : Text → Text → ParamError
  too_many_values : Text → ℕ → ParamError

-- The methods Error.
unfoldable pub error_message : ParamError → Text
error_message (unescaped_cookie name e) =
    codes "error unescaping cookie parameter '" ++ name ++ codes "'"
error_message (unmarshaling name e) =
    codes "Error unmarshaling parameter " ++ name ++ codes " as JSON: " ++ e
error_message (required_param name) =
    codes "Query argument " ++ name ++ codes " is required, but not found"
error_message (required_header name e) =
    codes "Header parameter " ++ name ++ codes " is required, but not found"
error_message (invalid_format name e) =
    codes "Invalid format for parameter " ++ name ++ codes ": " ++ e
error_message (too_many_values name n) =
    codes "Expected one value for " ++ name ++ codes ", got " ++ print_nat n

-- The methods Unwrap, where a type has one.
unfoldable pub unwrap : ParamError → Option Text
unwrap (unescaped_cookie name e) = some e
unwrap (unmarshaling name e) = some e
unwrap (required_param name) = none
unwrap (required_header name e) = some e
unwrap (invalid_format name e) = some e
unwrap (too_many_values name n) = none

-- What the binder of the runtime does with a query parameter: its error is a RequiredParameterError
-- or another one.
pub data Binding (A : Type 0) : Type 0 where
  bound : A → Binding A
  required_missing : Binding A
  unbound : Text → Binding A

-- The test of the error of a query parameter.
unfoldable pub query_error : {A : Type 0} → Text → Binding A → Option ParamError
query_error name (bound a) = none
query_error name required_missing = some (required_param name)
query_error name (unbound e) = some (invalid_format name e)

-- The test of the error of a path parameter.
unfoldable pub path_error : {A : Type 0} → Text → Result A → Option ParamError
path_error name (ok a) = none
path_error name (err e) = some (invalid_format name e)
