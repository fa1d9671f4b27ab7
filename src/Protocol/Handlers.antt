-- ===== src/Protocol/Handlers.antt =====
-- truenas_pyjsonrpc/protocol.py: `_authorize_and_dispatch`, with the registration of the request
-- for the time of its handler, and query.py's `compile_query`.
pub mod Delivery
pub mod Replies
use truenas_jsonrpc.Base.{ℕ, String, Bool, true, false, Option, none, some, ◌<>◌, if◌then◌else◌}
use truenas_jsonrpc.Value.{Value, null, str, obj}
use truenas_jsonrpc.Types.{
  Attempt, returned, raised_rpc, raised, Request, Response, success, failure, error_envelope,
  code_int, invalid_params, internal_error, server_client, client_server, MessageDirection,
}
use truenas_jsonrpc.Redaction.{field_value}
use truenas_jsonrpc.Registry.{register_request, complete, subscribe}
use truenas_jsonrpc.Protocol.{
  World, Protocol, Codec, Method, plain, filterable, fd_transfer, MethodKind, Call, Callback,
  compiled, bad_query, query_failed, Compiled, TargetArgument, no_argument,
}
use truenas_jsonrpc.Protocol.Steps.{on_registry, run_callback}
use truenas_jsonrpc.Protocol.Results.{denial, caught, handler_response, finalize_attempt}

-- `authorize(...)`, and the reply where it does not let the request pass. With no handler
-- registered every request passes.
unfoldable pub authorize : Protocol → Request → ℕ → TargetArgument → World → World × Option Response
unfolding run_callback denial
authorize p req s target w = elim p.authorization_handler [
  | none ↦ (w, none)
  | some f ↦ let (w', reply) = run_callback (f req s target) w in (w', denial req.id reply)
]

member_or_null : String → Value → Value
unfolding field_value
member_or_null k (obj fs) = elim (field_value k fs) [ none ↦ null | some v ↦ v ]
member_or_null k _ = null

-- The handler of a filterable method is called with the compiled query, if it compiles.
with_query : Value → (Value → Value → Callback Value) → Compiled → World → World × Attempt Value
unfolding run_callback
with_query options f (compiled cf co) w =
    let (w', result) = run_callback (f cf co) w in (w', finalize_attempt result options)
with_query options f (bad_query t) w = (
  w,
  raised_rpc (code_int invalid_params) ("invalid query: " <> t) null
      ("[-32602] invalid query: " <> t),
)
with_query options f (query_failed t) w = (w, raised t)

run_query : Codec → (Call → Callback Value) → Call → World → World × Attempt Value
unfolding with_query member_or_null
run_query codec f c w =
    let options = member_or_null "query-options" c.request in
    with_query options (λ cf co. f (record c { query = some (cf, co) }))
      (codec.compile_filters (member_or_null "query-filters" c.request) options) w

-- The call of the handler, by the method's class.
unfoldable pub invoke :
    Codec → MethodKind → (Call → Callback Value) → Call → World → World × Attempt Value
unfolding run_query run_callback
invoke codec filterable f c w = run_query codec f c w
invoke codec plain f c w = run_callback (f c) w
invoke codec (fd_transfer parts) f c w = run_callback (f c) w

-- What `_authorize_and_dispatch` returns: the reply, and the request's RequestState if the
-- handler ran.
pub record Dispatched : Type 0 where
  pub world : World
  pub response : Response
  pub request_state : Option ℕ

-- Register the request, call the handler, complete the request, then check the result.
unfoldable pub run_handler :
    Codec → Method → (Call → Callback Value) → Value → Option String → ℕ → World → Dispatched
unfolding invoke handler_response caught
run_handler codec m f params rid s w =
    let r = w.registry.next_request in
    let (w', result) =
      invoke codec m.kind f
        (record { request = params; session_state = s; request_state = r; query = none })
        (on_registry (register_request rid s m.cancellable) w) in
    record {
      world = on_registry (complete r) w';
      response = handler_response rid m.returns m.returns_validator (caught rid result);
      request_state = some r;
    }

-- After authorization: a subscription for a topic, the handler for a method.
unfoldable pub dispatch_method :
    Codec → String → Method → Value → Option String → ℕ → World → Dispatched
unfolding run_handler
dispatch_method codec uuid m params rid s w = elim m.direction [
  | server_client ↦ record {
    world = on_registry (subscribe m.name uuid s params) w;
    response = success rid (str uuid);
    request_state = none;
  }
  | client_server ↦ elim m.handler [
    | none ↦ record {
      world = w;
      response = error_envelope rid internal_error "No handler registered for method" null;
      request_state = none;
    }
    | some f ↦ run_handler codec m f params rid s w
  ]
]

-- `_authorize_and_dispatch`; `uuid` is the `uuid4()` that a subscription draws.
unfoldable pub authorize_and_dispatch :
    Protocol → Codec → String → Method → Request → Value → Option String → ℕ → World → Dispatched
unfolding authorize dispatch_method
authorize_and_dispatch p codec uuid m req params rid s w =
    let (w', denied) = authorize p req s no_argument w in
    elim denied [
      | some r ↦ record { world = w'; response = r; request_state = none }
      | none ↦ dispatch_method codec uuid m params rid s w'
    ]
