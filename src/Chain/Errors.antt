-- ===== src/Chain/Errors.antt =====
-- libs/chain/src/errors/errors.ts. A thrown value is seen through the fields that the code reads.
use kvorum.Base.{leb, if◌then◌else◌, ℕ, String, Bool, false, ◌&&◌, ◌||◌, Option, none, some, str_eq}

pub data ErrorReason : Type 0 where
  timeout network_error http_5xx http_429 unknown : ErrorReason

-- `ErrorReason | 'transparent'`.
pub data ErrorCategory : Type 0 where
  transparent : ErrorCategory
  reason : ErrorReason → ErrorCategory

pub record ErrorFields : Type 0 where
  pub code : Option String  -- `none` where it is no string
  pub status_code : Option ℕ  -- `response?.statusCode`, where it is a number
  pub inner_code : Bool  -- whether `error?.code` is a number

pub data JsError : Type 0 where
  not_object : JsError
  object : ErrorFields → JsError

abbrev pub is_transparent_code : String → Bool
is_transparent_code c =
    str_eq c "CALL_EXCEPTION"
    || str_eq c "INVALID_ARGUMENT"
    || str_eq c "MISSING_ARGUMENT"
    || str_eq c "NOT_IMPLEMENTED"

abbrev pub is_5xx : Option ℕ → Bool
is_5xx none = false
is_5xx (some s) = leb 500 s && leb s 599

categorize_code : Option String → ErrorFields → ErrorCategory
categorize_code none e = reason unknown
categorize_code (some c) e =
    if str_eq c "TIMEOUT"
    then reason timeout
    else if str_eq c "ECONNREFUSED" || str_eq c "NETWORK_ERROR"
    then reason network_error
    else if str_eq c "SERVER_ERROR"
    then (if is_5xx e.status_code then reason http_5xx else reason unknown)
    else if str_eq c "UNKNOWN_ERROR"
    then (if e.inner_code then transparent else reason unknown)
    else if str_eq c "UNSUPPORTED_OPERATION"
    then reason unknown
    else if is_transparent_code c
    then transparent
    else reason unknown

unfoldable pub categorize_error : JsError → ErrorCategory
unfolding categorize_code
categorize_error not_object = reason unknown
categorize_error (object e) = categorize_code e.code e
