-- ===== src/Session.antt =====
-- truenas_pyjsonrpc/protocol.py's SessionState, with what the server and the auth stack keep in
-- it: truenas_pyjsonrpc_server/peercred.py's Peer and the pending records of mixins/auth/stack.py.
use truenas_jsonrpc.Base.{ℕ, String, Bool, Option}
use truenas_jsonrpc.Types.{SessionLifecycle}
use truenas_jsonrpc.Value.{Value}

pub data Transport : Type 0 where
  unix tcp : Transport

-- `Peer`; `address`, `peercert` and `cipher` are whatever the socket layer gives.
pub record Peer : Type 0 where
  pub transport : Transport
  pub uid : Option ℕ
  pub gid : Option ℕ
  pub pid : Option ℕ
  pub address : Value
  pub tls : Bool
  pub peercert : Value
  pub cipher : Value

-- What `server_state_internal` holds: nothing, the server's Peer, an exchange that is under way
-- (`_Pending`, `_ScramPending`, `_GssapiPending`), or the authenticated identity.
pub data Internal : Type 0 where
  nothing : Internal
  seeded : Peer → Internal
  otp_pending : Internal → Value → Internal
  scram_pending : Internal → Value → Internal
  gssapi_pending : Internal → Value → Internal
  identity : Value → Internal

-- `SessionState`
pub record Session : Type 0 where
  pub session_uuid : String
  pub protocol_name : String
  pub lifecycle : SessionLifecycle
  pub internal : Internal
  pub external : Value
