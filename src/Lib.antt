-- ===== src/Lib.antt =====
-- truenas_pyjsonrpc: a JSON-RPC 2.0 library with sessions, raw-fd file transfers, progress and
-- subscriptions, auditing with redaction of secrets. Paths are from the repository's root.
--
-- The program. `python/truenas_pyjsonrpc/` is the transport-independent core: `protocol.py` owns the
-- method table, dispatches one message at a time against a session, and keeps the registry that all
-- threads share (requests in flight, the outbound queue, subscriptions); `redaction.py` masks the
-- secrets of what is audited; `query.py` and `transfer.py` serve the two special kinds of method.
-- `python/truenas_pyjsonrpc_server/` and `python/truenas_pyjsonrpc_client/` put it on sockets.
--
-- The model.
--   Base        names and lemmas that the parts share; Base.Dicts a Python dict in insertion order.
--   Value       Python values as msgspec's `to_builtins` gives them.
--   Types       types.py, errors.py and the response envelope.
--   Redaction   redaction.py: `_apply` and `redact` over plans (`redact` unfolds a class that is met
--               again once more than the value is deep). Children: that bound, paths into a value,
--               the secrets of a plan; Compile is `compile_plan` and `_compile`, on fuel (one more
--               than there are classes is enough), and Schemas the secrets that a class declares.
--   Uuid        `_is_uuid` of protocol.py.
--   Session     `SessionState`, with what the server and the auth stack keep in it.
--   Registry    what protocol.py keeps under its condition variable, one function per critical
--               section: `_update_progress`, `_complete`, `send_notification`, `poll_notification`,
--               `unsubscribe`, `unsubscribe_all`, `_find_subscription`. Children: the invariants.
--   Protocol    the configuration, the state that the threads share (World), the steps that a thread
--               may make on it (Step), and calls into application code (Callback): a callback is given
--               the state it is called in and answers with the steps that are made while it runs, its
--               own and other threads', and with what it returns or raises.
--     Steps     what each step does.           Setup      `register`, `add_session_setup`, `new_session`.
--     Results   checks and errors that handlers share.
--     Audit     `_audit`, `_audit_record`, `poll_audit`.
--     Handlers  `_authorize_and_dispatch`.     Control    the control messages.
--     Transfers `_begin_transfer`, `_run_transfer`.
--     Dispatch  `_dispatch_one`; its parts follow the order of the function's checks.
--   Framing     `frame` and `read_message` of python/truenas_pyjsonrpc_server/framing.py, with the
--               reader's loop of connection.py's `serve` (on fuel; more than the stream is long is
--               enough).
--   AuthStack   `_on_setup` and `_on_continue` of python/truenas_pyjsonrpc/mixins/auth/stack.py, with the
--               messages of messages.py; the verifiers that a subclass overrides are an Engine.
--   Client      the state of BaseClient in python/truenas_pyjsonrpc_client/client.py and the life of a
--               request. Messages is `_on_message`, Subscriptions `_do_subscribe`, `_drop_cb` and
--               `_remove_sub`, Transfers `_transfer_prep` and `_transfer_finish`, Calls the guards of
--               the public calls; Events has one constructor for each thing that may happen on the
--               client's loop between two waits, and the other children are theorems on their runs.
--   Server      the connections of python/truenas_pyjsonrpc_server/connection.py and the registry of
--               server.py. Negotiate is `_handle_negotiate`, Outbound `_drain_outbound`, Takeover
--               `_run_transfer` up to each of its waits, Events one constructor for each thing that
--               may happen on the loop, Config the checks of JSONRPCServer's constructor; the other
--               children are theorems on runs. `drain_outbound` is on a list of rounds.
--   Streams     the loops of python/truenas_pyjsonrpc/transfer.py that move bytes, over system calls that
--               are parameters, on fuel: a round for each byte and one more is enough.
--   Formatter   `AuditFormatter` of python/truenas_pyjsonrpc/mixins/audit/record.py with the default
--               extractors.
--   Declarations  the checks of the constructors in python/truenas_pyjsonrpc/method.py, on arguments of
--               any kind (Arg).
--   Tests       the theorems at concrete inputs.
-- Sessions and RequestStates are Python objects that several threads hold: they are places (a number)
-- in a store, so that aliasing is kept.
--
-- Parameters. msgspec's decoders, encoders, `to_builtins` and `convert`, what `msgspec.inspect` tells
-- of a type, truenas_pyfilter's compilers, `uuid4` (an argument of what draws one), Python's `int` and
-- `str` of a value, the system calls, every handler, validator and callback, the verifiers of the auth
-- stack.
-- Nothing is assumed of them but what a theorem states among its hypotheses.
--
-- Not modelled: how the client connects and its typed helpers, the zero-copy path of recvfile, the
-- syslog sink; sockets, listeners, asyncio, threads' scheduling beyond the order of their steps, TLS
-- and kTLS, PAM, GSSAPI and syslog, encoding to bytes by msgspec, the code generators and the examples.
pub mod Base
pub mod Value
pub mod Types
pub mod Redaction
pub mod Uuid
pub mod Framing
pub mod Session
pub mod AuthStack
pub mod Client
pub mod Server
pub mod Streams
pub mod Formatter
pub mod Declarations
pub mod Registry
pub mod Protocol
mod Tests
