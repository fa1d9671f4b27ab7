-- ===== src/Protocol/Control.antt =====
-- truenas_pyjsonrpc/protocol.py: the control messages `$/cancelRequest`, `$/serverInfo`,
-- `$/sessionSetup`, `$/sessionSetupContinue` and `$/sessionClose`.
pub mod Replies
pub mod Lifecycle
use truenas_jsonrpc.Base.{
  ℕ, String, Bool, true, false, Option, none, some, List, [], ◌<>◌, ◌||◌, lookup, if◌then◌else◌,
}
use truenas_jsonrpc.Value.{Value, null, bool, str, obj, pair, end}
use truenas_jsonrpc.Types.{
  Attempt, returned, raised_rpc, raised, Request, Response, success, failure, error_envelope,
  invalid_request, invalid_params, internal_error, method_not_found, request_failed,
  SessionLifecycle, closed, is_fresh, is_init, is_established,
}
use truenas_jsonrpc.Registry.{Registry, find_subscription, set_cancelled, unsubscribe}
use truenas_jsonrpc.Protocol.{
  World, Protocol, Codec, CancelDecoded, cancel_params, bad_params, Callback, Checked, valid,
  invalid, Target, request_target, subscription_target, TargetArgument, argument, SetupMethod,
  SetupOutcome, outcome, no_lifecycle, no_pair, ServerInfoHandler,
}
use truenas_jsonrpc.Protocol.Steps.{
  on_registry, set_lifecycle, drop_subscriptions, commit_setup, run_callback,
}
use truenas_jsonrpc.Protocol.Results.{
  validate, result_response, internal_failure, Outcome, value, refused, caught,
}
use truenas_jsonrpc.Protocol.Handlers.{authorize}
use truenas_jsonrpc.Protocol.Audit.{audit}

-- What a dispatch leaves: nothing to send, or a response envelope.
abbrev pub Answered : Type 0
Answered = World × Option Response

-- `None if note else ...`
abbrev pub unless_note : Bool → Response → Option Response
unless_note true r = none
unless_note false r = some r

abbrev pub invalid_request_error : Option String → String → Response
invalid_request_error rid t = error_envelope rid invalid_request "Invalid request" (str t)

abbrev pub request_failed_error : Option String → String → Response
request_failed_error rid t = error_envelope rid request_failed "Request failed" (str t)

-- `{target_id!r}` of a text that holds no quote and no escape.
abbrev quoted : String → String
quoted t = "'" <> t <> "'"

-- `_inflight.get(target_id)`, then `_find_subscription(target_id)`.
unfoldable pub find_target : String → Registry → Option Target
find_target i g = elim (lookup i g.inflight) [
  | some r ↦ some (request_target r)
  | none ↦ elim (find_subscription i g.subscriptions) [
    | none ↦ none
    | some s ↦ some (subscription_target s)
  ]
]

abort_result : Option String → Attempt (Unit {0}) → Response
abort_result rid (returned _) = success rid (bool true)
abort_result rid (raised_rpc c m d t) = internal_failure rid t
abort_result rid (raised t) = internal_failure rid t

-- The active-abort callback, after the event is set.
unfoldable pub abort : Protocol → Request → ℕ → ℕ → World → World × Response
unfolding run_callback abort_result internal_failure
abort p req r s w = elim p.cancellation_handler [
  | none ↦ (w, success req.id (bool true))
  | some f ↦ let (w', result) = run_callback (f req r s) w in (w', abort_result req.id result)
]

-- What a cancel that may go on does to its target.
unfoldable pub cancel_target :
    Protocol → Request → String → Option Target → ℕ → World → World × Response
unfolding abort
cancel_target p req i none s w =
    (w, request_failed_error req.id ("no active request or subscription with id " <> quoted i))
cancel_target p req i (some (subscription_target sub)) s w =
    (on_registry (λ g. (unsubscribe i g).0) w, success req.id (bool true))
cancel_target p req i (some (request_target r)) s w = elim (w.registry.requests r).cancel_event [
  | none ↦ (w, request_failed_error req.id ("request " <> quoted i <> " is not cancellable"))
  | some b ↦ abort p req r s (on_registry (set_cancelled r) w)
]

-- `_authorize_and_cancel`
unfoldable pub authorize_and_cancel : Protocol → Request → String → ℕ → World → World × Response
unfolding find_target authorize cancel_target
authorize_and_cancel p req i s w =
    let target = find_target i w.registry in
    let (w', denied) = authorize p req s (argument target) w in
    elim denied [ some r ↦ (w', r) | none ↦ cancel_target p req i target s w' ]

cancel_request : Option String → String → Request
cancel_request rid i = record {
  method = "$/cancelRequest";
  id = rid;
  params = obj (pair "target_id" (str i) end);
  roles = [];
}

cancel_checked : Protocol → CancelDecoded → Option String → ℕ → World → Answered
unfolding cancel_request authorize_and_cancel audit
cancel_checked p (bad_params t) rid s w =
    (w, some (error_envelope rid invalid_params "Invalid params" (str t)))
cancel_checked p (cancel_params i) rid s w =
    let req = cancel_request rid i in
    let (w', r) = authorize_and_cancel p req i s w in (audit p true req r s none none w', some r)

-- `_handle_cancel`; the decoder gives the `target_id`.
unfoldable pub handle_cancel :
    Protocol → Codec → String → Option String → Bool → ℕ → World → Answered
unfolding cancel_checked
handle_cancel p codec raw rid note s w =
    if note
    then (w, some (invalid_request_error none "a $/cancelRequest requires an 'id'"))
    else cancel_checked p (codec.decode_cancel raw) rid s w

info_response : Option String → (Value → Checked) → Outcome Value → Response
info_response rid returns (value v) = result_response rid (returns v)
info_response rid returns (refused r) = r

-- `_handle_server_info`
unfoldable pub handle_server_info : Protocol → Option String → Bool → ℕ → World → Answered
unfolding run_callback caught info_response result_response
handle_server_info p rid note s w = elim p.server_info [
  | none ↦ (w, unless_note note (error_envelope rid method_not_found "Method not found" null))
  | some i ↦
      if note
      then (w, some (invalid_request_error none "a $/serverInfo requires an 'id'"))
      else let (w', result) = run_callback (i.handler s) w in
        (w', some (info_response rid i.returns (caught rid result)))
]

-- The lifecycle and the external state are set once the result has been checked.
commit_checked : Option String → SessionLifecycle → ℕ → Checked → World → World × Response
unfolding commit_setup result_response
commit_checked rid l s (valid v) w = (commit_setup s l v w, success rid v)
commit_checked rid l s (invalid t) w = (w, result_response rid (invalid t))

setup_outcome : SetupMethod → Option String → ℕ → Outcome SetupOutcome → World → World × Response
unfolding commit_checked
setup_outcome m rid s (refused r) w = (w, r)
setup_outcome m rid s (value no_pair) w =
    (w, internal_failure rid "session setup handler must return (lifecycle, result)")
setup_outcome m rid s (value no_lifecycle) w =
    (w, internal_failure rid "session setup handler must return a SessionLifecycle")
setup_outcome m rid s (value (outcome l v)) w = commit_checked rid l s (m.returns v) w

-- `_dispatch_session_setup`
unfoldable pub dispatch_session_setup :
    SetupMethod → Value → Option String → ℕ → World → World × Response
unfolding run_callback caught setup_outcome
dispatch_session_setup m params rid s w =
    let (w', result) = run_callback (m.handler params s) w in
    setup_outcome m rid s (caught rid result) w'

setup_checked :
    Protocol → SetupMethod → String → Checked → Option String → ℕ → World → World × Response
unfolding dispatch_session_setup audit
setup_checked p m name (invalid t) rid s w =
    (w, error_envelope rid invalid_params "Invalid params" (str t))
setup_checked p m name (valid v) rid s w =
    let req : Request = record { method = name; id = rid; params = v; roles = [] } in
    let (w', r) = dispatch_session_setup m v rid s w in
    (audit p true req r s (some m.info) none w', r)

-- `_run_session_setup`
unfoldable pub run_session_setup :
    Protocol → SetupMethod → String → String → Option String → ℕ → World → World × Response
unfolding setup_checked validate
run_session_setup p m name raw rid s w =
    setup_checked p m name (validate m.accepts_validator (m.decode_params raw)) rid s w

-- The two setup steps differ in the method, the lifecycle that they want, and their texts.
setup_step :
    Protocol
    → Option SetupMethod
    → String
    → (SessionLifecycle → Bool)
    → String
    → String
    → Option String
    → Bool
    → ℕ
    → World
    → Answered
unfolding run_session_setup
setup_step p method name wanted refusal raw rid note s w = elim method [
  | none ↦ (w, unless_note note (error_envelope rid method_not_found "Method not found" null))
  | some m ↦
      if note
      then (w, some (invalid_request_error none ("a " <> name <> " requires an 'id'")))
      else if wanted (w.sessions s).lifecycle
      then (let (w', r) = run_session_setup p m name raw rid s w in (w', some r))
      else (w, some (request_failed_error rid refusal))
]

abbrev setup_refusal : String
setup_refusal = "session setup is already in progress or established"

abbrev continue_refusal : String
continue_refusal = "no session setup is in progress"

-- `_handle_session_setup`: allowed at NONE only.
unfoldable pub handle_session_setup :
    Protocol → String → Option String → Bool → ℕ → World → Answered
unfolding setup_step
handle_session_setup p = setup_step p p.session_setup "$/sessionSetup" is_fresh setup_refusal

-- `_handle_session_continue`: allowed at INIT only.
unfoldable pub handle_session_continue :
    Protocol → String → Option String → Bool → ℕ → World → Answered
unfolding setup_step
handle_session_continue p =
    setup_step p p.session_setup_continue "$/sessionSetupContinue" is_init continue_refusal

close_request : Option String → Request
close_request rid = record { method = "$/sessionClose"; id = rid; params = null; roles = [] }

-- `_handle_session_close`
unfoldable pub handle_session_close : Protocol → Option String → Bool → ℕ → World → Answered
unfolding close_request drop_subscriptions audit
handle_session_close p rid note s w =
    let l = (w.sessions s).lifecycle in
    if note
    then (w, some (invalid_request_error none "a $/sessionClose requires an 'id'"))
    else if is_init l || is_established l
    then (let r = success rid (bool true) in
        let w' = drop_subscriptions s (set_lifecycle s closed w) in
        (audit p true (close_request rid) r s none none w', some r))
    else (w, some (request_failed_error rid "no session to close"))
