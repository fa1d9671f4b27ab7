-- ===== src/Server.antt =====
-- truenas_pyjsonrpc_server/connection.py and server.py: the connections of a server on its event loop,
-- and the registry of sessions that the notification drains route through. A connection is a place
-- (a number), a message on the wire a Value, an asyncio future of the executor a number.
pub mod Negotiate
pub mod Outbound
pub mod Takeover
pub mod Events
pub mod Tasks
pub mod Routing
pub mod Drains
pub mod Exclusive
pub mod Order
pub mod Negotiated
pub mod Config
use truenas_jsonrpc.Base.{
  ℕ, String, Bool, true, false, Option, none, some, List, [], ◌∷◌, ◌++◌, Dict, lookup, insert,
  erase, keys, nat_eq, if◌then◌else◌,
}
use truenas_jsonrpc.Value.{Value}
use truenas_jsonrpc.Types.{Response, response_value}
use truenas_jsonrpc.Session.{Peer}
use truenas_jsonrpc.Registry.{update}
use truenas_jsonrpc.Client.Subscriptions.{contains}
use truenas_jsonrpc.Protocol.{Protocol}
use truenas_jsonrpc.Protocol.Transfers.{Transfer}

-- `_State`
pub data Stage : Type 0 where
  await_negotiate bound closed : Stage

-- `_protocol`, by its name, and `_session`, by its uuid.
pub record Binding : Type 0 where
  pub protocol : String
  pub session : String

-- `Connection`. In `outbound` none is the sentinel. `held` is what the writer has taken and not yet
-- written; it waits for the gate. `awaiting` is the `$/transferGo` future that the next frame goes
-- to, and `arrived` the frames that such futures have got. `tasks` are the transfers to run.
pub record Connection : Type 0 where
  pub peer : Option Peer
  pub stage : Stage
  pub binding : Option Binding
  pub outbound : List (Option Value)
  pub held : Option Value
  pub writing : Bool
  pub gate : Bool
  pub written : List Value
  pub inflight : List ℕ
  pub tasks : List Transfer
  pub awaiting : Option ℕ
  pub arrived : ℕ → Option String
  pub paused : Bool

-- `JSONRPCServer`; `soon` are the calls of `enqueue_outbound` that the drains have asked the loop
-- for, each with the session that it was routed by.
pub record Server : Type 0 where
  pub name : Option String
  pub protocols : Dict Protocol
  pub sessions : Dict ℕ
  pub connections : ℕ → Connection
  pub soon : List (ℕ × String × Value)

abbrev pub is_closed_stage : Stage → Bool
is_closed_stage closed = true
is_closed_stage _ = false

-- `_send`
abbrev pub put : Option Value → Connection → Connection
put v c = record c { outbound = c.outbound ++ (v ∷ []) }

abbrev pub send_response : Response → Connection → Connection
send_response r c = put (some (response_value r)) c

-- `enqueue_outbound`
unfoldable pub enqueue_outbound : Value → Connection → Connection
enqueue_outbound v c = if is_closed_stage c.stage then c else put (some v) c

-- One connection of the server is changed.
abbrev pub on_connection : ℕ → Connection → Server → Server
on_connection k c sv = record sv { connections = update sv.connections k c }

-- `_register`, `_unregister`, `_conn_for`, `protocol_names`
unfoldable pub register_session : String → ℕ → Server → Server
register_session uuid k sv = record sv { sessions = insert uuid k sv.sessions }

unfoldable pub unregister_session : String → Server → Server
unregister_session uuid sv = record sv { sessions = erase uuid sv.sessions }

abbrev pub conn_for : String → Server → Option ℕ
conn_for uuid sv = lookup uuid sv.sessions

abbrev pub protocol_names : Server → List String
protocol_names sv = keys sv.protocols

unfoldable pub unregister_binding : Option Binding → Server → Server
unfolding unregister_session
unregister_binding none sv = sv
unregister_binding (some b) sv = unregister_session b.session sv

-- Of the futures in flight those that are done: the others are cancelled, which drops them.
unfoldable pub keep_done : List ℕ → List ℕ → List ℕ
unfolding contains
keep_done ready [] = []
keep_done ready (f ∷ fs) =
    let rest = keep_done ready fs in if contains f ready then f ∷ rest else rest

-- `_close`, where the futures `ready` are done: they are not cancelled, and their `_on_dispatch_done`
-- runs after it. The session of the protocol is closed there too.
unfoldable pub close_connection : ℕ → List ℕ → Server → Server
unfolding unregister_binding keep_done
close_connection k ready sv =
    let c = sv.connections k in
    on_connection k
      (record c {
        stage = closed;
        gate = true;
        awaiting = none;
        inflight = keep_done ready c.inflight;
        outbound = c.outbound ++ (none ∷ []);
      })
      (unregister_binding c.binding sv)
