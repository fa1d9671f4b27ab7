-- ===== src/Protocol/Results.antt =====
-- truenas_pyjsonrpc/protocol.py and query.py: the checks on params and results that several
-- handlers share, and the errors that application code turns into.
use truenas_jsonrpc.Base.{String, Bool, false, Option, none, some, if◌then◌else◌}
use truenas_jsonrpc.Value.{Value, null, bool, num, str, arr, obj, nil, cons, truthy}
use truenas_jsonrpc.Types.{
  Attempt, returned, raised_rpc, raised, Response, success, failure, error_envelope, code_int,
  internal_error, not_authorized, request_failed,
}
use truenas_jsonrpc.Redaction.{field_value}
use truenas_jsonrpc.Protocol.{Checked, valid, invalid, Validator, AuthReply, response, other_reply}

validated : Value → Attempt (Option Value) → Checked
validated v (returned none) = valid v
validated v (returned (some u)) = valid u
validated v (raised_rpc c m d t) = invalid t
validated v (raised t) = invalid t

-- A validator may replace the value that a decoder or `convert` has passed, or reject it.
unfoldable pub validate : Option Validator → Checked → Checked
unfolding validated
validate f (invalid t) = invalid t
validate none (valid v) = valid v
validate (some f) (valid v) = validated v (f v)

-- `msgspec.convert(result, type=returns)`, where a type is declared.
unfoldable pub convert : Option (Value → Checked) → Value → Checked
convert none v = valid v
convert (some f) v = f v

-- The reply that a checked result makes.
unfoldable pub result_response : Option String → Checked → Response
result_response rid (valid v) = success rid v
result_response rid (invalid t) = error_envelope rid internal_error "Invalid result" (str t)

unfoldable pub internal_failure : Option String → String → Response
internal_failure rid t = error_envelope rid internal_error "Internal error" (str t)

-- What a call returned, or the error that its exception makes.
pub data Outcome {ℓ} (A : Type ℓ) : Type ℓ where
  value : A → Outcome A
  refused : Response → Outcome A

-- `except JsonRpcError` and `except Exception` round a handler.
unfoldable pub caught {ℓ} : {A : Type ℓ} → Option String → Attempt A → Outcome A
unfolding internal_failure
caught rid (returned v) = value v
caught rid (raised_rpc c m d t) = refused (failure rid c m d)
caught rid (raised t) = refused (internal_failure rid t)

-- The reply to a handler's result: converted, then passed through the validator.
unfoldable pub handler_response :
    Option String → Option (Value → Checked) → Option Validator → Outcome Value → Response
unfolding validate convert result_response
handler_response rid returns f (value v) = result_response rid (validate f (convert returns v))
handler_response rid returns f (refused r) = r

-- What the authorization handler's call makes of a request: none where it may go on.
unfoldable pub denial : Option String → Attempt AuthReply → Option Response
unfolding internal_failure
denial rid (returned (response a)) =
    if a.authorized then none else some (error_envelope rid not_authorized a.message a.detail)
denial rid (returned other_reply) =
    some (internal_failure rid "authorization_handler must return an AuthorizationResponse")
denial rid (raised_rpc c m d t) = some (internal_failure rid t)
denial rid (raised t) = some (internal_failure rid t)

-- A flag of `query-options`.
option_flag : String → Value → Bool
unfolding field_value truthy
option_flag k (obj fs) = elim (field_value k fs) [ none ↦ false | some v ↦ truthy v ]
option_flag k _ = false

no_record : Attempt Value
no_record =
    raised_rpc (code_int request_failed) "no record matched query with get=True" null
      "[-32803] no record matched query with get=True"

first_character : String → String
first_character String.[] = String.[]
first_character (String.◌∷◌ c s) = String.◌∷◌ c String.[]

-- `result[0]` of a result that is true.
first_of_result : Value → Attempt Value
first_of_result (arr (cons v vs)) = returned v
first_of_result (arr nil) = raised "list index out of range"
first_of_result null = raised "'NoneType' object is not subscriptable"
first_of_result (bool b) = raised "'bool' object is not subscriptable"
first_of_result (num n) = raised "'int' object is not subscriptable"
first_of_result (str s) = returned (str (first_character s))
first_of_result (obj fs) = raised "0"

-- `finalize_result`
unfoldable pub finalize_result : Value → Value → Attempt Value
unfolding option_flag truthy no_record first_of_result first_character
finalize_result result options =
    if option_flag "count" options
    then returned result
    else if option_flag "get" options
    then (if truthy result then first_of_result result else no_record)
    else returned result

pub finalize_attempt : Attempt Value → Value → Attempt Value
finalize_attempt (returned v) options = finalize_result v options
finalize_attempt (raised_rpc c m d t) options = raised_rpc c m d t
finalize_attempt (raised t) options = raised t
