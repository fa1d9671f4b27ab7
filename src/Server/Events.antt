-- ===== src/Server/Events.antt =====
-- truenas_pyjsonrpc_server/connection.py and server.py: what may happen on the server's event loop,
-- one step each, and the notification drain's part of it.
use truenas_jsonrpc.Base.{
  ℕ, String, Bool, Option, none, some, List, [], ◌∷◌, ◌++◌, nat_eq, if◌then◌else◌,
}
use truenas_jsonrpc.Value.{Value, str}
use truenas_jsonrpc.Types.{Response, error_envelope, invalid_request}
use truenas_jsonrpc.Protocol.Transfers.{Reply, silent, respond, transfer, raises}
use truenas_jsonrpc.Client.Subscriptions.{contains, remove}
use truenas_jsonrpc.Server.{
  Server, Connection, Stage, is_closed_stage, await_negotiate, bound, closed, send_response,
  enqueue_outbound, on_connection, conn_for, close_connection,
}
use truenas_jsonrpc.Server.Negotiate.{Decoders, handle_negotiate}
use truenas_jsonrpc.Server.Outbound.{take_outbound, write_held, stop_writing}
use truenas_jsonrpc.Server.Takeover.{next_task, end_transfer, break_transfer, after_go}

-- A frame is received; `uuid` and `future` are what it may need, a session's id and the number of
-- the executor's future; `ready` are the futures that are done when the connection is closed. `answers` is `_on_dispatch_done`, `goes` the end of the wait for
-- `$/transferGo`, `routes` one round of `_notification_drain`, `enqueues` the call that it asked for.
pub data Event : Type 0 where
  receives : (conn : ℕ) (msg uuid : String) (future : ℕ) → Event
  too_large : (conn : ℕ) (text : String) (ready : List ℕ) → Event
  ends : (conn : ℕ) (ready : List ℕ) → Event
  answers : (conn future : ℕ) → Reply → Event
  begins : (conn : ℕ) (target : Bool) (wait : ℕ) → Event
  goes : (conn wait : ℕ) → Event
  completes : (conn : ℕ) → Response → Event
  breaks : (conn : ℕ) → Event
  takes writes stops : (conn : ℕ) → Event
  routes : (session : String) → Value → Event
  enqueues : Event

-- `_dispatch`, on the executor's side of which the protocol's `dispatch` runs.
abbrev pub submit : ℕ → Connection → Connection
submit f c = record c { inflight = c.inflight ++ (f ∷ []) }

-- A frame of `serve`'s loop, by what is awaited and by the stage.
unfoldable pub take_frame : Decoders → ℕ → String → String → ℕ → Option ℕ → Stage → Server → Server
unfolding handle_negotiate
take_frame d k msg uuid f (some t) stage sv =
    let c = sv.connections k in
    on_connection k
      (record c { awaiting = none; arrived = λ i. if nat_eq t i then some msg else c.arrived i }) sv
take_frame d k msg uuid f none await_negotiate sv = handle_negotiate d k msg uuid sv
take_frame d k msg uuid f none bound sv = on_connection k (submit f (sv.connections k)) sv
take_frame d k msg uuid f none closed sv = sv

-- A closed connection's loop has ended.
unfoldable pub receive : Decoders → ℕ → String → String → ℕ → Server → Server
unfolding take_frame
receive d k msg uuid f sv =
    let c = sv.connections k in
    if is_closed_stage c.stage then sv else take_frame d k msg uuid f c.awaiting c.stage sv

-- The loop ends, and its `finally` closes the connection.
unfoldable pub end_serve : ℕ → List ℕ → Server → Server
unfolding close_connection
end_serve k ready sv =
    if is_closed_stage (sv.connections k).stage then sv else close_connection k ready sv

-- `FrameTooLarge`
abbrev pub too_large_response : String → Response
too_large_response text = error_envelope none invalid_request "Message too large" (str text)

unfoldable pub refuse_frame : ℕ → String → List ℕ → Server → Server
unfolding end_serve error_envelope
refuse_frame k text ready sv =
    let c = sv.connections k in
    if is_closed_stage c.stage
    then sv
    else end_serve k ready (on_connection k (send_response (too_large_response text) c) sv)

abbrev pub with_reply : Reply → Connection → Connection
with_reply silent c = c
with_reply raises c = c
with_reply (respond r) c = send_response r c
with_reply (transfer x) c = record c { tasks = c.tasks ++ (x ∷ []) }

-- `_on_dispatch_done`; a future that was cancelled at the close has no result, and the exception of one
-- that raised is dropped.
unfoldable pub on_dispatch_done : ℕ → Reply → Connection → Connection
unfolding contains remove
on_dispatch_done f r c =
    if contains f c.inflight then with_reply r (record c { inflight = remove f c.inflight }) else c

-- `_notification_drain`, for a notification that it polled.
abbrev pub route_to : Option ℕ → String → Value → Server → Server
route_to none uuid v sv = sv
route_to (some k) uuid v sv = record sv { soon = sv.soon ++ ((k, uuid, v) ∷ []) }

unfoldable pub route_notification : String → Value → Server → Server
route_notification uuid v sv = route_to (conn_for uuid sv) uuid v sv

abbrev pub run_first : List (ℕ × String × Value) → Server → Server
run_first [] sv = sv
run_first ((k, uuid, v) ∷ rest) sv =
    on_connection k (enqueue_outbound v (sv.connections k)) (record sv { soon = rest })

abbrev pub at_connection : ℕ → (Connection → Connection) → Server → Server
at_connection k f sv = on_connection k (f (sv.connections k)) sv

module _ (d : Decoders) where
  unfoldable pub serve : Event → Server → Server
  unfolding receive end_serve refuse_frame on_dispatch_done next_task after_go end_transfer
      break_transfer take_outbound write_held stop_writing route_notification enqueue_outbound
  serve (receives k msg uuid f) sv = receive d k msg uuid f sv
  serve (too_large k text ready) sv = refuse_frame k text ready sv
  serve (ends k ready) sv = end_serve k ready sv
  serve (answers k f r) sv = at_connection k (on_dispatch_done f r) sv
  serve (begins k target t) sv = at_connection k (λ c. next_task target t c.tasks c) sv
  serve (goes k t) sv = at_connection k (λ c. after_go d.decode_envelope (c.arrived t) c) sv
  serve (completes k r) sv = at_connection k (end_transfer r) sv
  serve (breaks k) sv = at_connection k break_transfer sv
  serve (takes k) sv = at_connection k take_outbound sv
  serve (writes k) sv = at_connection k write_held sv
  serve (stops k) sv = at_connection k stop_writing sv
  serve (routes uuid v) sv = route_notification uuid v sv
  serve enqueues sv = run_first sv.soon sv

  unfoldable pub serve_all : List Event → Server → Server
  unfolding serve
  serve_all [] sv = sv
  serve_all (e ∷ es) sv = serve_all es (serve e sv)
