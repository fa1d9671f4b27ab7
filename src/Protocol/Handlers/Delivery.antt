-- ===== src/Protocol/Handlers/Delivery.antt =====
-- truenas_pyjsonrpc/protocol.py: a dispatched request is registered for the time of its handler
-- and no longer.
use truenas_jsonrpc.Base.{ℕ, String, ◌≡◌, none, some, lookup}
use truenas_jsonrpc.Value.{Value}
use truenas_jsonrpc.Registry.{register_request, complete}
use truenas_jsonrpc.Registry.Delivery.{
  Inv, IsQuiet, register_request-Inv, complete-Inv, done-IsQuiet,
}
use truenas_jsonrpc.Registry.Done.{completed-IsDone}
use truenas_jsonrpc.Registry.Identity.{Has, registered-Has}
use truenas_jsonrpc.Protocol.{
  World, Codec, Method, MethodKind, plain, filterable, fd_transfer, Call, Callback, Compiled,
  compiled, bad_query, query_failed,
}
use truenas_jsonrpc.Protocol.Steps.{on_registry, perform_all}
use truenas_jsonrpc.Protocol.Steps.Delivery.{IsNew, AllAllowed, perform_all-Inv, perform_all-Has}
use truenas_jsonrpc.Protocol.Handlers.{invoke, with_query, run_handler}

-- Whatever a handler and the threads beside it do, new requests come under new ids.
abbrev pub IsOrderly : (Call → Callback Value) → Type 0
IsOrderly f = (c : Call) (w : World) → AllAllowed w (f c w).0

-- What the steps of a handler keep, its call keeps, with a query or without.
module _ (P : World → Type 0) (f : Call → Callback Value)
    (keep : (w : World) (c : Call) → P w → P (perform_all (f c w).0 w)) where
  with_query_keeps :
      (options : Value) (c : Call) (w : World) (q : Compiled)
      → P w
      → P (with_query options (λ cf co. f (record c { query = some (cf, co) })) q w).0
  unfolding with_query
  with_query_keeps options c w (compiled cf co) h = keep w (record c { query = some (cf, co) }) h
  with_query_keeps options c w (bad_query t) h = h
  with_query_keeps options c w (query_failed t) h = h

  pub invoke_keeps :
      (codec : Codec) (k : MethodKind) (c : Call) (w : World) → P w → P (invoke codec k f c w).0
  unfolding invoke
  invoke_keeps codec plain c w h = keep w c h
  invoke_keeps codec (fd_transfer parts) c w h = keep w c h
  invoke_keeps codec filterable c w h = with_query_keeps _ c w _ h

-- From a registry that satisfies its invariant, for a request id that no request state has yet and a
-- handler that is orderly (in whatever state it is called, the requests registered while it runs come
-- under ids that no request state had before), when `run_handler` returns, whether its handler
-- returned or raised, the registry satisfies its invariant, the id is not in flight and no progress of
-- it is queued.
pub run_handler-IsQuiet :
    (codec : Codec) (m : Method) (f : Call → Callback Value) (params : Value) (i : String) (s : ℕ)
    (w : World)
    → Inv w.registry
    → IsNew (some i) w.registry
    → IsOrderly f
    → let g = (run_handler codec m f params (some i) s w).world.registry in
      Inv g × (lookup i g.inflight ≡ none) × IsQuiet i g.outbound
unfolding run_handler
run_handler-IsQuiet codec m f params i s w inv new orderly =
    (inv'', done, done-IsQuiet _ inv'' i done)
  where
    r : ℕ
    r = w.registry.next_request

    started : World
    started = on_registry (register_request (some i) s m.cancellable) w

    call : Call
    call = record { request = params; session_state = s; request_state = r; query = none }

    ended : World
    ended = (invoke codec m.kind f call started).0

    inv' : Inv ended.registry
    inv' =
        invoke_keeps (λ v. Inv v.registry) f (λ v c. perform_all-Inv (f c v).0 v (orderly c v))
          codec m.kind call started
          (register_request-Inv w.registry inv (some i) s m.cancellable new)

    has : Has r (some i) ended.registry
    has =
        invoke_keeps (λ v. Has r (some i) v.registry) f
          (λ v c. perform_all-Has r (some i) (f c v).0 v) codec m.kind call started
          (registered-Has w.registry (some i) s m.cancellable)

    inv'' : Inv (complete r ended.registry)
    inv'' = complete-Inv ended.registry inv' r

    done : lookup i (complete r ended.registry).inflight ≡ none
    done = (completed-IsDone ended.registry r i has.id_is).out
