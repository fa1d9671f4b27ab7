-- ===== src/Protocol/Dispatch.antt =====
-- truenas_pyjsonrpc/protocol.py: `dispatch` and `_dispatch_one`. What is encoded for the wire is
-- the response; the encoder is msgspec's.
pub mod Audited
pub mod Traces
pub mod Gate
pub mod Lifecycle
pub mod Replies
use truenas_jsonrpc.Base.{
  ℕ, String, Bool, true, false, not, Option, none, some, ◌==◌, ◌&&◌, ◌||◌, is_some, lookup,
  if◌then◌else◌,
}
use truenas_jsonrpc.Value.{Value, null, bool, num, str, arr, obj, truthy_text}
use truenas_jsonrpc.Types.{
  JsonrpcEnvelope, Request, Response, error_envelope, invalid_json, invalid_request, invalid_params,
  method_not_found, session_not_established, is_closed, is_established, is_server_client,
}
use truenas_jsonrpc.Protocol.{
  World, Protocol, Codec, Decoded, envelope, not_object, malformed, Checked, valid, invalid, Method,
  MethodKind, plain, filterable, fd_transfer,
}
use truenas_jsonrpc.Protocol.Results.{validate}
use truenas_jsonrpc.Protocol.Handlers.{Dispatched, authorize_and_dispatch}
use truenas_jsonrpc.Protocol.Control.{
  Answered, unless_note, invalid_request_error, handle_cancel, handle_server_info,
  handle_session_setup, handle_session_continue, handle_session_close,
}
use truenas_jsonrpc.Protocol.Transfers.{Reply, silent, respond, transfer, begin_transfer}
use truenas_jsonrpc.Protocol.Audit.{audit}
use truenas_jsonrpc.Uuid.{is_uuid}

abbrev reply_of : Option Response → Reply
reply_of none = silent
reply_of (some r) = respond r

abbrev answer : Answered → World × Reply
answer a = (a.0, reply_of a.1)

abbrev pub reply_unless : Bool → Response → Reply
reply_unless note r = reply_of (unless_note note r)

-- The id of an envelope: absent, a UUID text, or anything else.
pub data ResolvedId : Type 0 where
  no_id bad_id : ResolvedId
  uuid_id : String → ResolvedId

unfoldable pub resolve_id : Option Value → ResolvedId
resolve_id none = no_id
resolve_id (some (str i)) = if is_uuid i then uuid_id i else bad_id
resolve_id (some _) = bad_id

-- `env.jsonrpc != _VERSION`
unfoldable pub is_version : Option Value → Bool
is_version (some (str t)) = t == "2.0"
is_version _ = false

-- A method name is a text that is not empty.
unfoldable pub method_name : Option Value → Option String
method_name (some (str t)) = if truthy_text t then some t else none
method_name _ = none

-- `_EMPTY` stands for params that are left out.
abbrev pub raw_params : Option String → String
raw_params none = "{}"
raw_params (some t) = t

detail_of : Dispatched → Option String
detail_of d = elim d.request_state [
  | none ↦ none
  | some r ↦ (d.world.registry.requests r).audit_message
]

-- The normal path: authorize, dispatch, audit, and the reply unless it is a notification.
unfoldable pub run_method :
    Protocol → Codec → String → Method → Request → Option String → Bool → ℕ → World → World × Reply
unfolding authorize_and_dispatch audit detail_of
run_method p codec uuid m req rid note s w =
    let d = authorize_and_dispatch p codec uuid m req req.params rid s w in
    (
      audit p m.audit req d.response s (some m.info) (detail_of d) d.world,
      reply_unless note d.response,
    )

by_kind :
    Protocol
    → Codec
    → String
    → Method
    → MethodKind
    → Request
    → Option String
    → Bool
    → ℕ
    → World
    → World × Reply
unfolding run_method begin_transfer
by_kind p codec uuid m (fd_transfer parts) req rid note s w =
    begin_transfer p codec m parts req rid s w
by_kind p codec uuid m plain req rid note s w = run_method p codec uuid m req rid note s w
by_kind p codec uuid m filterable req rid note s w = run_method p codec uuid m req rid note s w

with_params :
    Protocol
    → Codec
    → String
    → String
    → Method
    → Checked
    → Option String
    → Bool
    → ℕ
    → World
    → World × Reply
unfolding by_kind
with_params p codec uuid name m (invalid t) rid note s w =
    (w, reply_unless note (error_envelope rid invalid_params "Invalid params" (str t)))
with_params p codec uuid name m (valid v) rid note s w =
    by_kind p codec uuid m m.kind (record { method = name; id = rid; params = v; roles = m.roles })
      rid note s w

-- A method that may be called before the session is established, or an open protocol.
unfoldable pub gate_open : Protocol → Method → ℕ → World → Bool
gate_open p m s w =
    not (is_some p.session_setup) || m.pre_auth || is_established (w.sessions s).lifecycle

-- A registered method: the subscribe check, the session gate, the params.
unfoldable pub dispatch_registered :
    Protocol
    → Codec
    → String
    → String
    → Method
    → String
    → Option String
    → Bool
    → ℕ
    → World
    → World × Reply
unfolding gate_open with_params validate
dispatch_registered p codec uuid name m raw rid note s w =
    if is_server_client m.direction && note
    then (w, respond (invalid_request_error none "a subscribe request requires an 'id'"))
    else if gate_open p m s w
    then with_params p codec uuid name m (validate m.accepts_validator (m.decode_params raw)) rid
        note s w
    else (
      w,
      reply_unless note (error_envelope rid session_not_established "Session not established" null),
    )

by_method :
    Protocol
    → Codec
    → String
    → String
    → Option Method
    → String
    → Option String
    → Bool
    → ℕ
    → World
    → World × Reply
unfolding dispatch_registered
by_method p codec uuid name none raw rid note s w =
    (w, reply_unless note (error_envelope rid method_not_found "Method not found" null))
by_method p codec uuid name (some m) raw rid note s w =
    dispatch_registered p codec uuid name m raw rid note s w

-- The name decides: a control message, or a method of the table.
unfoldable pub route :
    Protocol → Codec → String → String → String → Option String → Bool → ℕ → World → World × Reply
unfolding by_method handle_cancel handle_server_info handle_session_setup handle_session_continue
    handle_session_close
route p codec uuid name raw rid note s w =
    if name == "$/cancelRequest"
    then answer (handle_cancel p codec raw rid note s w)
    else if name == "$/serverInfo"
    then answer (handle_server_info p rid note s w)
    else if name == "$/sessionSetup"
    then answer (handle_session_setup p raw rid note s w)
    else if name == "$/sessionSetupContinue"
    then answer (handle_session_continue p raw rid note s w)
    else if name == "$/sessionClose"
    then answer (handle_session_close p rid note s w)
    else by_method p codec uuid name (lookup name p.methods) raw rid note s w

-- A message whose structure is valid. A CLOSED session accepts nothing further.
unfoldable pub dispatch_message :
    Protocol → Codec → String → String → String → Option String → Bool → ℕ → World → World × Reply
unfolding route
dispatch_message p codec uuid name raw rid note s w =
    if is_closed (w.sessions s).lifecycle
    then (
      w,
      reply_unless note (error_envelope rid session_not_established "Session is closed" null),
    )
    else route p codec uuid name raw rid note s w

named :
    Protocol
    → Codec
    → String
    → Option String
    → String
    → Option String
    → Bool
    → ℕ
    → World
    → World × Reply
unfolding dispatch_message
named p codec uuid none raw rid note s w =
    (w, respond (invalid_request_error rid "'method' must be a non-empty string"))
named p codec uuid (some name) raw rid note s w =
    dispatch_message p codec uuid name raw rid note s w

versioned :
    Protocol → Codec → String → JsonrpcEnvelope → Option String → Bool → ℕ → World → World × Reply
unfolding named is_version method_name
versioned p codec uuid env rid note s w =
    if is_version env.jsonrpc
    then named p codec uuid (method_name env.method) (raw_params env.params) rid note s w
    else (w, respond (invalid_request_error rid "'jsonrpc' must be exactly '2.0'"))

-- The id is resolved first, so that later errors can echo it.
unfoldable pub dispatch_envelope :
    Protocol → Codec → String → JsonrpcEnvelope → ResolvedId → ℕ → World → World × Reply
unfolding versioned
dispatch_envelope p codec uuid env bad_id s w =
    (w, respond (invalid_request_error none "'id' must be a UUID string"))
dispatch_envelope p codec uuid env no_id s w = versioned p codec uuid env none true s w
dispatch_envelope p codec uuid env (uuid_id i) s w = versioned p codec uuid env (some i) false s w

dispatch_decoded : Protocol → Codec → String → Decoded → ℕ → World → World × Reply
unfolding dispatch_envelope resolve_id
dispatch_decoded p codec uuid (not_object t) s w =
    (w, respond (error_envelope none invalid_request "Invalid request" (str t)))
dispatch_decoded p codec uuid (malformed t) s w =
    (w, respond (error_envelope none invalid_json "Parse error" (str t)))
dispatch_decoded p codec uuid (envelope env) s w =
    dispatch_envelope p codec uuid env (resolve_id env.id) s w

-- `_dispatch_one`; `uuid` is what a `uuid4()` of this dispatch would draw.
unfoldable pub dispatch_one : Protocol → Codec → String → String → ℕ → World → World × Reply
unfolding dispatch_decoded
dispatch_one p codec uuid msg s w = dispatch_decoded p codec uuid (codec.decode_envelope msg) s w
