-- ===== src/Protocol/Dispatch/Replies.antt =====
-- truenas_pyjsonrpc/protocol.py: what `dispatch` sends back, on every path.
use truenas_jsonrpc.Base.{
  ℕ, String, ◌≡◌, refl, false, Option, none, some, arith, is_none, if_both, lookup, ◌==◌,
}
use truenas_jsonrpc.Types.{
  Request, Response, response_id, is_success, error_envelope, JsonrpcEnvelope, is_closed,
}
use truenas_jsonrpc.Protocol.{
  World, Protocol, Codec, Method, MethodKind, plain, filterable, fd_transfer, Decoded, envelope,
  malformed, not_object, Checked, valid, invalid,
}
use truenas_jsonrpc.Protocol.Results.{validate}
use truenas_jsonrpc.Protocol.Handlers.Replies.{authorize_and_dispatch-id}
use truenas_jsonrpc.Protocol.Control.{
  Answered, handle_cancel, handle_server_info, handle_session_setup, handle_session_continue,
  handle_session_close,
}
use truenas_jsonrpc.Protocol.Control.Replies.{
  IsAnswerTo, handle_cancel-IsAnswerTo, handle_server_info-IsAnswerTo,
  handle_session_setup-IsAnswerTo, handle_session_continue-IsAnswerTo,
  handle_session_close-IsAnswerTo,
}
use truenas_jsonrpc.Protocol.Transfers.{Reply, respond}
use truenas_jsonrpc.Protocol.Dispatch.{
  ResolvedId, no_id, bad_id, uuid_id, resolve_id, reply_unless, answer, run_method, by_kind,
  with_params, dispatch_registered, by_method, route, dispatch_message, named, versioned,
  dispatch_envelope, dispatch_decoded, dispatch_one, method_name, is_version, raw_params,
}
use truenas_jsonrpc.Protocol.Transfers.Replies.{begin_transfer-IsReplyTo, IsReplyTo}

reply_unless-IsReplyTo :
    (codec : Codec) (rid : Option String) (r : Response)
    → response_id r ≡ rid
    → IsReplyTo codec rid (reply_unless (is_none rid) r)
reply_unless-IsReplyTo codec none r e = tt
reply_unless-IsReplyTo codec (some i) r e = e

answer-IsReplyTo :
    (codec : Codec) (rid : Option String) (a : Answered)
    → IsAnswerTo rid a.1
    → IsReplyTo codec rid (answer a).1
answer-IsReplyTo codec rid (w, none) h = h
answer-IsReplyTo codec rid (w, some r) h = h

module _ (p : Protocol) (codec : Codec) (uuid : String) where
  run_method-IsReplyTo :
      (m : Method) (req : Request) (s : ℕ) (w : World)
      → IsReplyTo codec req.id (run_method p codec uuid m req req.id (is_none req.id) s w).1
  unfolding run_method
  run_method-IsReplyTo m req s w =
      reply_unless-IsReplyTo codec req.id _
        (authorize_and_dispatch-id p codec uuid m req req.params s w)

  by_kind-IsReplyTo :
      (m : Method) (k : MethodKind) (req : Request) (s : ℕ) (w : World)
      → IsReplyTo codec req.id (by_kind p codec uuid m k req req.id (is_none req.id) s w).1
  unfolding by_kind
  by_kind-IsReplyTo m plain req s w = run_method-IsReplyTo m req s w
  by_kind-IsReplyTo m filterable req s w = run_method-IsReplyTo m req s w
  by_kind-IsReplyTo m (fd_transfer parts) req s w = begin_transfer-IsReplyTo codec p m parts req s w

  with_params-IsReplyTo :
      (name : String) (m : Method) (c : Checked) (rid : Option String) (s : ℕ) (w : World)
      → IsReplyTo codec rid (with_params p codec uuid name m c rid (is_none rid) s w).1
  unfolding with_params error_envelope
  with_params-IsReplyTo name m (invalid t) rid s w = reply_unless-IsReplyTo codec rid _ refl
  with_params-IsReplyTo name m (valid v) rid s w = by_kind-IsReplyTo m m.kind _ s w

  dispatch_registered-IsReplyTo :
      (name : String) (m : Method) (raw : String) (rid : Option String) (s : ℕ) (w : World)
      → IsReplyTo codec rid (dispatch_registered p codec uuid name m raw rid (is_none rid) s w).1
  unfolding dispatch_registered error_envelope
  dispatch_registered-IsReplyTo name m raw none s w = ground (
    arith,
    with_params-IsReplyTo name m (validate m.accepts_validator (m.decode_params raw)) none s w,
  )
  dispatch_registered-IsReplyTo name m raw (some i) s w = ground (
    arith,
    with_params-IsReplyTo name m (validate m.accepts_validator (m.decode_params raw)) (some i) s w,
  )

  by_method-IsReplyTo :
      (name : String) (o : Option Method) (raw : String) (rid : Option String) (s : ℕ) (w : World)
      → IsReplyTo codec rid (by_method p codec uuid name o raw rid (is_none rid) s w).1
  unfolding by_method error_envelope
  by_method-IsReplyTo name none raw rid s w = reply_unless-IsReplyTo codec rid _ refl
  by_method-IsReplyTo name (some m) raw rid s w = dispatch_registered-IsReplyTo name m raw rid s w

  route-IsReplyTo :
      (name raw : String) (rid : Option String) (s : ℕ) (w : World)
      → IsReplyTo codec rid (route p codec uuid name raw rid (is_none rid) s w).1
  unfolding route
  route-IsReplyTo name raw rid s w =
      if_both P (name == "$/cancelRequest") _ _
        (answer-IsReplyTo codec rid (handle_cancel p codec raw rid (is_none rid) s w)
          (handle_cancel-IsAnswerTo p codec raw rid s w))
        (if_both P (name == "$/serverInfo") _ _
          (answer-IsReplyTo codec rid (handle_server_info p rid (is_none rid) s w)
            (handle_server_info-IsAnswerTo p rid s w))
          (if_both P (name == "$/sessionSetup") _ _
            (answer-IsReplyTo codec rid (handle_session_setup p raw rid (is_none rid) s w)
              (handle_session_setup-IsAnswerTo p raw rid s w))
            (if_both P (name == "$/sessionSetupContinue") _ _
              (answer-IsReplyTo codec rid (handle_session_continue p raw rid (is_none rid) s w)
                (handle_session_continue-IsAnswerTo p raw rid s w))
              (if_both P (name == "$/sessionClose") _ _
                (answer-IsReplyTo codec rid (handle_session_close p rid (is_none rid) s w)
                  (handle_session_close-IsAnswerTo p rid s w))
                (by_method-IsReplyTo name (lookup name p.methods) raw rid s w)))))
    where
      P : World × Reply → Type 0
      P x = IsReplyTo codec rid x.1

  dispatch_message-IsReplyTo :
      (name raw : String) (rid : Option String) (s : ℕ) (w : World)
      → IsReplyTo codec rid (dispatch_message p codec uuid name raw rid (is_none rid) s w).1
  unfolding dispatch_message error_envelope
  dispatch_message-IsReplyTo name raw rid s w =
      if_both (λ (x : World × Reply). IsReplyTo codec rid x.1) (is_closed (w.sessions s).lifecycle)
        _ _ (reply_unless-IsReplyTo codec rid _ refl) (route-IsReplyTo name raw rid s w)

  named-IsReplyTo :
      (o : Option String) (raw : String) (rid : Option String) (s : ℕ) (w : World)
      → IsReplyTo codec rid (named p codec uuid o raw rid (is_none rid) s w).1
  unfolding named error_envelope
  named-IsReplyTo none raw none s w = (refl, refl)
  named-IsReplyTo none raw (some i) s w = refl
  named-IsReplyTo (some name) raw rid s w = dispatch_message-IsReplyTo name raw rid s w

  versioned-IsReplyTo :
      (env : JsonrpcEnvelope) (rid : Option String) (s : ℕ) (w : World)
      → IsReplyTo codec rid (versioned p codec uuid env rid (is_none rid) s w).1
  unfolding versioned error_envelope
  versioned-IsReplyTo env none s w =
      if_both (λ (x : World × Reply). IsReplyTo codec none x.1) (is_version env.jsonrpc) _ _
        (named-IsReplyTo (method_name env.method) (raw_params env.params) none s w) (refl, refl)
  versioned-IsReplyTo env (some i) s w =
      if_both (λ (x : World × Reply). IsReplyTo codec (some i) x.1) (is_version env.jsonrpc) _ _
        (named-IsReplyTo (method_name env.method) (raw_params env.params) (some i) s w) refl

-- What the sender of a message may be sent: for one that is no object, or has an id that is no UUID
-- text, a failure with a null id; for a request an answer under its id, a transfer, or an exception
-- where `to_builtins` raises one; for a notification nothing, or a failure with a null id.
abbrev pub IsFailureFor : Option String → Reply → Type 0
IsFailureFor rid x =
    (r : Response) × (x ≡ respond r) × (response_id r ≡ rid) × (is_success r ≡ false)

abbrev pub IsExpectedFor : Codec → ResolvedId → Reply → Type 0
IsExpectedFor codec bad_id x = IsFailureFor none x
IsExpectedFor codec no_id x = IsReplyTo codec none x
IsExpectedFor codec (uuid_id i) x = IsReplyTo codec (some i) x

abbrev pub IsExpected : Codec → Decoded → Reply → Type 0
IsExpected codec (malformed t) x = IsFailureFor none x
IsExpected codec (not_object t) x = IsFailureFor none x
IsExpected codec (envelope env) x = IsExpectedFor codec (resolve_id env.id) x

pub dispatch_one-IsExpected :
    (p : Protocol) (codec : Codec) (uuid msg : String) (s : ℕ) (w : World)
    → IsExpected codec (codec.decode_envelope msg) (dispatch_one p codec uuid msg s w).1
unfolding dispatch_one error_envelope
dispatch_one-IsExpected p codec uuid msg s w = of_decoded (codec.decode_envelope msg)
  where
    of_id :
        (env : JsonrpcEnvelope) (i : ResolvedId)
        → IsExpectedFor codec i (dispatch_envelope p codec uuid env i s w).1
    of_id env bad_id = (_, refl, refl, refl)
    of_id env no_id = versioned-IsReplyTo p codec uuid env none s w
    of_id env (uuid_id i) = versioned-IsReplyTo p codec uuid env (some i) s w

    of_decoded : (d : Decoded) → IsExpected codec d (dispatch_decoded p codec uuid d s w).1
    of_decoded (malformed t) = (_, refl, refl, refl)
    of_decoded (not_object t) = (_, refl, refl, refl)
    of_decoded (envelope env) = of_id env (resolve_id env.id)
