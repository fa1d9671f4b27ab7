-- ===== src/Protocol/Control/Replies.antt =====
-- truenas_pyjsonrpc/protocol.py: the replies to control messages. A control request with an id is
-- answered under that id, and one without is refused or ignored.
use truenas_jsonrpc.Base.{
  ℕ, String, ◌≡◌, refl, Bool, true, false, Option, none, some, Option-cases, inl, inr, arith,
  is_none,
}
use truenas_jsonrpc.Value.{Value}
use truenas_jsonrpc.Types.{
  Attempt, Request, Response, response_id, is_success, error_envelope, SessionLifecycle, is_fresh,
  is_init, returned, raised, raised_rpc,
}
use truenas_jsonrpc.Protocol.{
  World, Protocol, Codec, Target, CancelDecoded, cancel_params, bad_params, Checked, SetupMethod,
  SetupOutcome, valid, invalid, request_target, subscription_target, argument, outcome,
  no_lifecycle, no_pair,
}
use truenas_jsonrpc.Protocol.Results.{caught, internal_failure, validate}
use truenas_jsonrpc.Protocol.Handlers.{authorize}
use truenas_jsonrpc.Protocol.Handlers.Replies.{authorize-id, result_response-id}
use truenas_jsonrpc.Protocol.Control.{
  abort, cancel_target, authorize_and_cancel, find_target, cancel_checked, handle_cancel,
  info_response, handle_server_info, commit_checked, setup_outcome, setup_checked, setup_step,
  handle_session_setup, handle_session_continue, handle_session_close, setup_refusal,
  continue_refusal,
}

-- What may be sent for a message whose id is `rid`: for a request a response under its id; for a
-- notification nothing, or a failure under a null id.
abbrev pub IsAnswerTo : Option String → Option Response → Type 0
IsAnswerTo none none = Unit {0}
IsAnswerTo none (some r) = (response_id r ≡ none) × (is_success r ≡ false)
IsAnswerTo (some i) none = ⊥
IsAnswerTo (some i) (some r) = response_id r ≡ some i

abort-id :
    (p : Protocol) (req : Request) (r s : ℕ) (w : World)
    → response_id (abort p req r s w).1 ≡ req.id
unfolding abort error_envelope
abort-id p req r s w = ground arith

cancel_target-id :
    (p : Protocol) (req : Request) (i : String) (t : Option Target) (s : ℕ) (w : World)
    → response_id (cancel_target p req i t s w).1 ≡ req.id
unfolding cancel_target error_envelope
cancel_target-id p req i none s w = refl
cancel_target-id p req i (some (subscription_target x)) s w = refl
cancel_target-id p req i (some (request_target r)) s w = grind (arith, abort-id)

pub authorize_and_cancel-id :
    (p : Protocol) (req : Request) (i : String) (s : ℕ) (w : World)
    → response_id (authorize_and_cancel p req i s w).1 ≡ req.id
unfolding authorize_and_cancel
authorize_and_cancel-id p req i s w =
    elim (Option-cases (authorize p req s (argument (find_target i w.registry)) w).1) [
      | inl e ↦
          rw (e, authorize_and_cancel)
            (cancel_target-id p req i (find_target i w.registry) s
              (authorize p req s (argument (find_target i w.registry)) w).0)
      | inr (r, e) ↦ rw (e, authorize_and_cancel) (authorize-id p req s _ w r e)
    ]

cancel_checked-id :
    (p : Protocol) (c : CancelDecoded) (i : String) (s : ℕ) (w : World)
    → IsAnswerTo (some i) (cancel_checked p c (some i) s w).1
unfolding cancel_checked error_envelope
cancel_checked-id p (bad_params t) i s w = refl
cancel_checked-id p (cancel_params t) i s w = authorize_and_cancel-id p _ t s w

pub handle_cancel-IsAnswerTo :
    (p : Protocol) (codec : Codec) (raw : String) (rid : Option String) (s : ℕ) (w : World)
    → IsAnswerTo rid (handle_cancel p codec raw rid (is_none rid) s w).1
unfolding handle_cancel error_envelope
handle_cancel-IsAnswerTo p codec raw (some i) s w =
    cancel_checked-id p (codec.decode_cancel raw) i s w
handle_cancel-IsAnswerTo p codec raw none s w = (refl, refl)

info_response-id :
    (rid : Option String) (returns : Value → Checked) (a : Attempt Value)
    → response_id (info_response rid returns (caught rid a)) ≡ rid
unfolding info_response caught error_envelope internal_failure
info_response-id rid returns (returned v) = result_response-id rid (returns v)
info_response-id rid returns (raised_rpc c m d t) = refl
info_response-id rid returns (raised t) = refl

pub handle_server_info-IsAnswerTo :
    (p : Protocol) (rid : Option String) (s : ℕ) (w : World)
    → IsAnswerTo rid (handle_server_info p rid (is_none rid) s w).1
unfolding handle_server_info error_envelope
handle_server_info-IsAnswerTo p none s w = ground arith
handle_server_info-IsAnswerTo p (some i) s w = elim (Option-cases p.server_info) [
  | inl e ↦ rw (e, handle_server_info)
  | inr (h, e) ↦ rw (e, handle_server_info) (info_response-id (some i) h.returns _)
]

commit_checked-id :
    (rid : Option String) (l : SessionLifecycle) (s : ℕ) (c : Checked) (w : World)
    → response_id (commit_checked rid l s c w).1 ≡ rid
unfolding commit_checked
commit_checked-id rid l s (valid v) w = refl
commit_checked-id rid l s (invalid t) w = result_response-id rid (invalid t)

setup_outcome-id :
    (m : SetupMethod) (rid : Option String) (s : ℕ) (a : Attempt SetupOutcome) (w : World)
    → response_id (setup_outcome m rid s (caught rid a) w).1 ≡ rid
unfolding setup_outcome caught error_envelope internal_failure
setup_outcome-id m rid s (returned (outcome l v)) w = commit_checked-id rid l s (m.returns v) w
setup_outcome-id m rid s (returned no_pair) w = refl
setup_outcome-id m rid s (returned no_lifecycle) w = refl
setup_outcome-id m rid s (raised_rpc c x d t) w = refl
setup_outcome-id m rid s (raised t) w = refl

setup_checked-id :
    (p : Protocol) (m : SetupMethod) (name : String) (c : Checked) (rid : Option String) (s : ℕ)
    (w : World)
    → response_id (setup_checked p m name c rid s w).1 ≡ rid
unfolding setup_checked error_envelope
setup_checked-id p m name (invalid t) rid s w = refl
setup_checked-id p m name (valid v) rid s w = setup_outcome-id m rid s _ _

setup_step-IsAnswerTo :
    (p : Protocol) (o : Option SetupMethod) (name : String) (wanted : SessionLifecycle → Bool)
    (refusal raw : String) (i : String) (s : ℕ) (w : World)
    → IsAnswerTo (some i) (setup_step p o name wanted refusal raw (some i) false s w).1
unfolding setup_step error_envelope
setup_step-IsAnswerTo p none name wanted refusal raw i s w = refl
setup_step-IsAnswerTo p (some m) name wanted refusal raw i s w = ground (
  arith,
  setup_checked-id p m name (validate m.accepts_validator (m.decode_params raw)) (some i) s w,
)

setup_step_note :
    (p : Protocol) (o : Option SetupMethod) (name : String) (wanted : SessionLifecycle → Bool)
    (refusal raw : String) (s : ℕ) (w : World)
    → IsAnswerTo none (setup_step p o name wanted refusal raw none true s w).1
unfolding setup_step error_envelope
setup_step_note p none name wanted refusal raw s w = tt
setup_step_note p (some m) name wanted refusal raw s w = (refl, refl)

pub handle_session_setup-IsAnswerTo :
    (p : Protocol) (raw : String) (rid : Option String) (s : ℕ) (w : World)
    → IsAnswerTo rid (handle_session_setup p raw rid (is_none rid) s w).1
unfolding handle_session_setup
handle_session_setup-IsAnswerTo p raw (some i) s w =
    setup_step-IsAnswerTo p p.session_setup "$/sessionSetup" is_fresh setup_refusal raw i s w
handle_session_setup-IsAnswerTo p raw none s w =
    setup_step_note p p.session_setup "$/sessionSetup" is_fresh setup_refusal raw s w

pub handle_session_continue-IsAnswerTo :
    (p : Protocol) (raw : String) (rid : Option String) (s : ℕ) (w : World)
    → IsAnswerTo rid (handle_session_continue p raw rid (is_none rid) s w).1
unfolding handle_session_continue
handle_session_continue-IsAnswerTo p raw (some i) s w =
    setup_step-IsAnswerTo p p.session_setup_continue "$/sessionSetupContinue" is_init
      continue_refusal raw i s w
handle_session_continue-IsAnswerTo p raw none s w =
    setup_step_note p p.session_setup_continue "$/sessionSetupContinue" is_init continue_refusal raw
      s w

pub handle_session_close-IsAnswerTo :
    (p : Protocol) (rid : Option String) (s : ℕ) (w : World)
    → IsAnswerTo rid (handle_session_close p rid (is_none rid) s w).1
unfolding handle_session_close error_envelope
handle_session_close-IsAnswerTo p (some i) s w = ground arith
handle_session_close-IsAnswerTo p none s w = (refl, refl)
