-- ===== src/Protocol.antt =====
-- truenas_pyjsonrpc/protocol.py and method.py: what a protocol is configured with, the state that
-- its threads share, and how a call into application code is modelled. The dispatch itself is in
-- the modules below.
--
-- A callback (a handler, an authorization handler, ...) is given the state that it is called in.
-- It answers with the steps that are made while it runs, its own and those of the other threads
-- in their order, and with what it returns or raises.
pub mod Steps
pub mod Setup
pub mod Results
pub mod Audit
pub mod Handlers
pub mod Control
pub mod Transfers
pub mod Dispatch
use truenas_jsonrpc.Base.{ℕ, String, Bool, Option, List, Dict}
use truenas_jsonrpc.Value.{Value}
use truenas_jsonrpc.Types.{
  Attempt, Request, Response, AuthorizationResponse, SessionLifecycle, MessageDirection,
  TransferDirection, JsonrpcEnvelope,
}
use truenas_jsonrpc.Redaction.{Plan, ClassPlans}
use truenas_jsonrpc.Registry.{Registry, Progress, RequestState, Subscription}
use truenas_jsonrpc.Session.{Session, Internal}

-- What the audit path reads of a method.
pub record AuditInfo : Type 0 where
  pub accepts_plan : Option Plan
  pub returns_plan : Option Plan
  pub audit_message : Option String

-- `_AuditJob`; the handler is named by a number, since it is only called.
pub record AuditJob : Type 0 where
  pub handler : ℕ
  pub request : Request
  pub response : Response
  pub session_state : ℕ
  pub info : Option AuditInfo
  pub detail : Option String

-- `AuditRecord`
pub record AuditRecord : Type 0 where
  pub handler : ℕ
  pub request : Request
  pub response : Response
  pub session_state : ℕ
  pub audit_message : Option String

-- The shared state: the SessionState objects, the registry, the audit queue, and the calls that
-- were made to the audit handler.
pub record World : Type 0 where
  pub sessions : ℕ → Session
  pub registry : Registry
  pub audit_queue : List AuditJob
  pub audit_log : List AuditRecord

-- One atomic step of some thread: a critical section, or an assignment to a session.
pub data Step : Type 0 where
  registers : Option String → ℕ → Bool → Step
  completes : ℕ → Step
  progresses : ℕ → Progress → Step
  publishes : String → Value → Step
  polls : Step
  subscribes : String → String → ℕ → Value → Step
  unsubscribes : String → Step
  cancels : ℕ → Step
  audits : ℕ → String → Step
  closes : ℕ → Step
  commits : ℕ → SessionLifecycle → Value → Step
  sets_internal : ℕ → Internal → Step

abbrev pub Callback {ℓ} : Type ℓ → Type ℓ
Callback A = World → List Step × Attempt A

-- What a msgspec decoder or `convert` answers: a value, or a ValidationError or DecodeError.
pub data Checked : Type 0 where
  valid : Value → Checked
  invalid : String → Checked

-- `_ENV_DEC.decode`
pub data Decoded : Type 0 where
  envelope : JsonrpcEnvelope → Decoded
  not_object : String → Decoded
  malformed : String → Decoded

-- `_CANCEL_DEC.decode`: the `target_id`, or the decoder's complaint.
pub data CancelDecoded : Type 0 where
  cancel_params : String → CancelDecoded
  bad_params : String → CancelDecoded

-- The compiled filters and options; or a ValueError or TypeError; or another exception.
pub data Compiled : Type 0 where
  compiled : Value → Value → Compiled
  bad_query : String → Compiled
  query_failed : String → Compiled

-- What the core calls of msgspec and truenas_pyfilter; none where `to_builtins` raises.
pub record Codec : Type 0 where
  pub decode_envelope : String → Decoded
  pub decode_cancel : String → CancelDecoded
  pub compile_filters : Value → Value → Compiled
  pub to_builtins : Value → Option Value

-- What a handler is called with; `query` is `filters=` and `options=`.
pub record Call : Type 0 where
  pub request : Value
  pub session_state : ℕ
  pub request_state : ℕ
  pub query : Option (Value × Value)

-- The transfer callback's view of `FileTransfer`.
pub record FileTransfer : Type 0 where
  pub direction : TransferDirection
  pub params : Value
  pub session_state : ℕ
  pub result : Value
  pub fileno : ℕ

-- `JSONRPCFdTransferMethod`; `af_unix` marks the subclass `JSONRPCFdPassMethod`.
pub record TransferParts : Type 0 where
  pub transfer_direction : TransferDirection
  pub negotiate : Value → ℕ → Callback Value
  pub transfer : FileTransfer → Callback Value
  pub af_unix : Bool

pub data MethodKind : Type 0 where
  plain filterable : MethodKind
  fd_transfer : TransferParts → MethodKind

abbrev pub Validator : Type 0
Validator = Value → Attempt (Option Value)

-- `JSONRPCMethod`
pub record Method : Type 0 where
  pub name : String
  pub direction : MessageDirection
  pub kind : MethodKind
  pub pre_auth : Bool
  pub audit : Bool
  pub cancellable : Bool
  pub roles : List String
  pub info : AuditInfo
  pub decode_params : String → Checked
  pub accepts_validator : Option Validator
  pub handler : Option (Call → Callback Value)
  pub returns : Option (Value → Checked)
  pub returns_validator : Option Validator

-- What a session-setup handler returns: a pair of a lifecycle and a result, a pair whose first
-- component is no SessionLifecycle, or no pair at all.
pub data SetupOutcome : Type 0 where
  outcome : SessionLifecycle → Value → SetupOutcome
  no_lifecycle no_pair : SetupOutcome

-- A method that `add_session_setup` has accepted: it has a handler and a `returns`.
pub record SetupMethod : Type 0 where
  pub decode_params : String → Checked
  pub accepts_validator : Option Validator
  pub handler : Value → ℕ → Callback SetupOutcome
  pub returns : Value → Checked
  pub info : AuditInfo

-- The target of a cancel, as the authorization handler sees it.
pub data Target : Type 0 where
  request_target : ℕ → Target
  subscription_target : Subscription → Target

-- `target=` is passed for a cancel only, and may be None there.
pub data TargetArgument : Type 0 where
  no_argument : TargetArgument
  argument : Option Target → TargetArgument

pub data AuthReply : Type 0 where
  response : AuthorizationResponse → AuthReply
  other_reply : AuthReply

pub record ServerInfoHandler : Type 0 where
  pub handler : ℕ → Callback Value
  pub returns : Value → Checked

-- `JSONRPCProtocol`'s configuration, which dispatch only reads.
pub record Protocol : Type 0 where
  pub name : String
  pub version : String
  pub methods : Dict Method
  pub authorization_handler : Option (Request → ℕ → TargetArgument → Callback AuthReply)
  pub audit_handler : Option ℕ
  pub cancellation_handler : Option (Request → ℕ → ℕ → Callback (Unit {0}))
  pub server_info : Option ServerInfoHandler
  pub session_setup : Option SetupMethod
  pub session_setup_continue : Option SetupMethod
  pub use_audit_queue : Bool
  pub classes : ClassPlans
