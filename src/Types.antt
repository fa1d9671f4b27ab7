-- ===== src/Types.antt =====
-- truenas_pyjsonrpc/types.py and errors.py: the enumerations, the error codes, the permissive
-- envelope, the request context and the authorization result; and the two shapes of a reply.
use truenas_jsonrpc.Base.{String, Bool, true, false, Option, none, some, List, ℤ, negsuc}
use truenas_jsonrpc.Value.{Value, null, num, str, obj, end, pair}

-- `JSONRPCError`
pub data ErrorCode : Type 0 where
  invalid_json invalid_request method_not_found invalid_params internal_error : ErrorCode
  not_authorized : ErrorCode
  request_failed request_cancelled session_not_established : ErrorCode

-- `int(code)` of a member
unfoldable pub code_int : ErrorCode → ℤ
code_int invalid_json = negsuc 32699
code_int invalid_request = negsuc 32599
code_int method_not_found = negsuc 32600
code_int invalid_params = negsuc 32601
code_int internal_error = negsuc 32602
code_int not_authorized = negsuc 31999
code_int request_failed = negsuc 32802
code_int request_cancelled = negsuc 32799
code_int session_not_established = negsuc 32001

pub data SessionLifecycle : Type 0 where
  fresh init established closed : SessionLifecycle

abbrev pub is_fresh : SessionLifecycle → Bool
is_fresh fresh = true
is_fresh _ = false

abbrev pub is_init : SessionLifecycle → Bool
is_init init = true
is_init _ = false

abbrev pub is_established : SessionLifecycle → Bool
is_established established = true
is_established _ = false

abbrev pub is_closed : SessionLifecycle → Bool
is_closed closed = true
is_closed _ = false

pub data MessageDirection : Type 0 where
  client_server server_client : MessageDirection

abbrev pub is_server_client : MessageDirection → Bool
is_server_client server_client = true
is_server_client client_server = false

-- `TransferDirection` of transfer.py
pub data TransferDirection : Type 0 where
  download upload : TransferDirection

-- The member's wire text, `direction.value`.
abbrev pub direction_text : TransferDirection → String
direction_text download = "download"
direction_text upload = "upload"

-- `JSONRPCEnvelope`: `none` is UNSET; `params` is the undecoded text.
pub record JsonrpcEnvelope : Type 0 where
  pub jsonrpc : Option Value
  pub method : Option Value
  pub id : Option Value
  pub params : Option String

pub record AuthorizationResponse : Type 0 where
  pub authorized : Bool
  pub message : String
  pub detail : Value

-- `JSONRPCRequest`
pub record Request : Type 0 where
  pub method : String
  pub id : Option String
  pub params : Value
  pub roles : List String

-- What a call into application code does: it returns, raises `JsonRpcError`, or raises another
-- `Exception` whose `str` is the text. `text` of the first is its own `str`.
pub data Attempt {ℓ} (A : Type ℓ) : Type ℓ where
  returned : A → Attempt A
  raised_rpc : (code : ℤ) (message : String) (detail : Value) (text : String) → Attempt A
  raised : (text : String) → Attempt A

-- A response envelope; the error's `data` is left out of the wire object when it is None.
pub data Response : Type 0 where
  success : (id : Option String) (value : Value) → Response
  failure : (id : Option String) (code : ℤ) (message : String) (detail : Value) → Response

abbrev pub response_id : Response → Option String
response_id (success i v) = i
response_id (failure i c m d) = i

abbrev pub is_success : Response → Bool
is_success (success i v) = true
is_success (failure i c m d) = false

-- An id on the wire: a text, or null.
abbrev pub id_value : Option String → Value
id_value none = null
id_value (some i) = str i

-- The dict that a response stands for: `{"jsonrpc", "result", "id"}` or `{"jsonrpc", "error", "id"}`.
unfoldable pub error_object : ℤ → String → Value → Value
error_object c m null = obj (pair "code" (num c) (pair "message" (str m) end))
error_object c m d = obj (pair "code" (num c) (pair "message" (str m) (pair "data" d end)))

unfoldable pub response_value : Response → Value
unfolding error_object
response_value (success i v) =
    obj (pair "jsonrpc" (str "2.0") (pair "result" v (pair "id" (id_value i) end)))
response_value (failure i c m d) =
    obj
      (pair "jsonrpc" (str "2.0") (pair "error" (error_object c m d) (pair "id" (id_value i) end)))

-- `_error_envelope(rid, code, message, data)` for a member of the enumeration.
unfoldable pub error_envelope : Option String → ErrorCode → String → Value → Response
error_envelope rid code message detail = failure rid (code_int code) message detail
