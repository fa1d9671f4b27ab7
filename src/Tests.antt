-- ===== src/Tests.antt =====
-- A small protocol with one connection, on which the theorems are applied: a method with a
-- handler that reports progress, session setup that lets everybody in, an audit handler.
mod Protocols
mod Formats
mod Frames
mod Clients
mod Copies
mod Logins
mod Methods
mod Redactions
mod Schemas
mod Servers
use truenas_jsonrpc.Base.{
  ℕ, String, ◌≡◌, refl, ◌==◌, true, false, Option, none, some, List, [], ◌∷◌, if◌then◌else◌,
}
use truenas_jsonrpc.Value.{Value, null, bool, str}
use truenas_jsonrpc.Types.{
  returned, fresh, established, client_server, JsonrpcEnvelope, AuthorizationResponse, Request,
}
use truenas_jsonrpc.Registry.{empty_registry, Progress}
use truenas_jsonrpc.Session.{Session, nothing}
use truenas_jsonrpc.Protocol.{
  World, Protocol, Codec, Method, AuditInfo, Call, Callback, SetupMethod, plain, Checked, valid,
  invalid, progresses, audits, outcome, Decoded, envelope, malformed, cancel_params, compiled,
  response,
}

abbrev pub request_uuid : String
request_uuid = "f81d4fae-7dec-11d0-a765-00a0c91e6bf6"

abbrev pub progress : Progress
progress = record { percent = some (str "50"); description = none; extra = none }

abbrev pub info : AuditInfo
info = record { accepts_plan = none; returns_plan = none; audit_message = some "Ping" }

abbrev pub ping_handler : Call → Callback Value
ping_handler c w =
    (progresses c.request_state progress ∷ audits c.request_state "now" ∷ [], returned (str "pong"))

abbrev pub ping : Method
ping = record {
  name = "ping";
  direction = client_server;
  kind = plain;
  pre_auth = false;
  audit = true;
  cancellable = true;
  roles = [];
  info = info;
  decode_params = λ t. valid (str t);
  accepts_validator = none;
  handler = some ping_handler;
  returns = some (λ v. valid v);
  returns_validator = none;
}

abbrev pub login : SetupMethod
login = record {
  decode_params = λ t. valid (str t);
  accepts_validator = none;
  handler = λ v s w. ([], returned (outcome established (bool true)));
  returns = λ v. valid v;
  info = info;
}

abbrev pub demo : Protocol
demo = record {
  name = "demo";
  version = "1.0";
  methods = ("ping", ping) ∷ [];
  authorization_handler = some (λ req s t w.
      ([], returned (response (record { authorized = true; message = ""; detail = null }))));
  audit_handler = some 0;
  cancellation_handler = none;
  server_info = none;
  session_setup = some login;
  session_setup_continue = none;
  use_audit_queue = false;
  classes = [];
}

abbrev pub request_for : String → Decoded
request_for name = envelope (record {
  jsonrpc = some (str "2.0");
  method = some (str name);
  id = some (str request_uuid);
  params = none;
})

-- The decoder of a test: three messages that it knows, and anything else is no JSON.
abbrev pub codec : Codec
codec = record {
  decode_envelope = λ t.
      if t == "ping"
      then request_for "ping"
      else if t == "login"
      then request_for "$/sessionSetup"
      else if t == "logout"
      then request_for "$/sessionClose"
      else malformed "no JSON";
  decode_cancel = λ t. cancel_params t;
  compile_filters = λ f o. compiled f o;
  to_builtins = λ v. some v;
}

abbrev pub session : Session
session = record {
  session_uuid = "s";
  protocol_name = "demo";
  lifecycle = fresh;
  internal = nothing;
  external = null;
}

abbrev pub start : World
start = record {
  sessions = λ _. session;
  registry = empty_registry;
  audit_queue = [];
  audit_log = [];
}
