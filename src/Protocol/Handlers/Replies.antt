-- ===== src/Protocol/Handlers/Replies.antt =====
-- truenas_pyjsonrpc/protocol.py: the replies of the handlers carry the id of the request.
use truenas_jsonrpc.Base.{ℕ, String, ◌≡◌, refl, Option, some, Option-cases, inl, inr, arith}
use truenas_jsonrpc.Value.{Value}
use truenas_jsonrpc.Types.{
  Attempt, Request, Response, response_id, error_envelope, returned, raised, raised_rpc,
}
use truenas_jsonrpc.Protocol.{
  World, Protocol, Codec, Method, Call, Callback, Checked, Validator, TargetArgument, no_argument,
  AuthReply,
}
use truenas_jsonrpc.Protocol.Steps.{run_callback}
use truenas_jsonrpc.Protocol.Results.{
  refused, caught, handler_response, denial, result_response, validate, convert, internal_failure,
}
use truenas_jsonrpc.Protocol.Handlers.{
  authorize, run_handler, dispatch_method, authorize_and_dispatch,
}

pub denial-id :
    (rid : Option String) (a : Attempt AuthReply) (r : Response)
    → denial rid a ≡ some r
    → response_id r ≡ rid
unfolding denial error_envelope internal_failure
denial-id rid (returned x) r e = ground (arith, e)
denial-id rid (raised_rpc c m d t) r e = ground arith
denial-id rid (raised t) r e = ground arith

pub caught-id {ℓ} :
    {A : Type ℓ} (rid : Option String) (a : Attempt A) (r : Response)
    → caught rid a ≡ refused r
    → response_id r ≡ rid
unfolding caught error_envelope internal_failure
caught-id rid (returned v) r e = cc
caught-id rid (raised_rpc c m d t) r e = cc
caught-id rid (raised t) r e = cc

pub result_response-id :
    (rid : Option String) (c : Checked) → response_id (result_response rid c) ≡ rid
unfolding result_response error_envelope
result_response-id rid c = ground arith

pub handler_response-id :
    (rid : Option String) (returns : Option (Value → Checked)) (f : Option Validator)
    (a : Attempt Value)
    → response_id (handler_response rid returns f (caught rid a)) ≡ rid
unfolding handler_response caught error_envelope internal_failure
handler_response-id rid returns f (returned v) =
    result_response-id rid (validate f (convert returns v))
handler_response-id rid returns f (raised_rpc c m d t) = refl
handler_response-id rid returns f (raised t) = refl

pub authorize-id :
    (p : Protocol) (req : Request) (s : ℕ) (t : TargetArgument) (w : World) (r : Response)
    → (authorize p req s t w).1 ≡ some r
    → response_id r ≡ req.id
unfolding authorize
authorize-id p req s t w r h = elim (Option-cases p.authorization_handler) [
  | inl e ↦ ground (arith, e, h)
  | inr (f, e) ↦ denial-id req.id (run_callback (f req s t) w).1 r (rw (e, authorize) at h)
]

pub run_handler-id :
    (codec : Codec) (m : Method) (f : Call → Callback Value) (v : Value) (rid : Option String)
    (s : ℕ) (w : World)
    → response_id (run_handler codec m f v rid s w).response ≡ rid
unfolding run_handler
run_handler-id codec m f v rid s w = handler_response-id rid m.returns m.returns_validator _

pub dispatch_method-id :
    (codec : Codec) (uuid : String) (m : Method) (v : Value) (rid : Option String) (s : ℕ)
    (w : World)
    → response_id (dispatch_method codec uuid m v rid s w).response ≡ rid
unfolding dispatch_method error_envelope
dispatch_method-id codec uuid m v rid s w = grind (arith, run_handler-id)

-- Whatever the authorization handler and the method's handler do, the response of
-- `_authorize_and_dispatch` carries the id of the request.
pub authorize_and_dispatch-id :
    (p : Protocol) (codec : Codec) (uuid : String) (m : Method) (req : Request) (v : Value) (s : ℕ)
    (w : World)
    → response_id (authorize_and_dispatch p codec uuid m req v req.id s w).response ≡ req.id
unfolding authorize_and_dispatch
authorize_and_dispatch-id p codec uuid m req v s w =
    elim (Option-cases (authorize p req s no_argument w).1) [
      | inl e ↦ rw (e, authorize_and_dispatch) (dispatch_method-id codec uuid m v req.id s _)
      | inr (r, e) ↦ rw (e, authorize_and_dispatch) (authorize-id p req s no_argument w r e)
    ]
