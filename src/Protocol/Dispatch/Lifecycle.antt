-- ===== src/Protocol/Dispatch/Lifecycle.antt =====
-- truenas_pyjsonrpc/protocol.py: the session lifecycle under dispatch, message by message.
use truenas_jsonrpc.Base.{
  ℕ, String, ◌≡◌, refl, ◌∙◌, inl, inr, Bool, true, false, Option, none, some, Option-cases, arith,
  lookup, if_both, ◌==◌, ◌&&◌,
}
use truenas_jsonrpc.Value.{Value}
use truenas_jsonrpc.Types.{Request, is_closed, JsonrpcEnvelope, is_server_client}
use truenas_jsonrpc.Protocol.{
  World, Protocol, Codec, Method, MethodKind, plain, filterable, fd_transfer, Call, Callback,
  no_argument, Checked, valid, invalid, Decoded, envelope, not_object, malformed,
}
use truenas_jsonrpc.Protocol.Steps.Lifecycle.{lifecycle_of, IsCalm, perform_all-lifecycle}
use truenas_jsonrpc.Protocol.Results.{validate}
use truenas_jsonrpc.Protocol.Handlers.{
  authorize, run_handler, dispatch_method, authorize_and_dispatch,
}
use truenas_jsonrpc.Protocol.Handlers.Delivery.{invoke_keeps}
use truenas_jsonrpc.Protocol.Control.Lifecycle.{
  IsSequential, Change, stays, audit-lifecycle, authorize-lifecycle, handle_cancel-lifecycle,
  handle_server_info-lifecycle, handle_session_setup-Change, handle_session_continue-Change,
  handle_session_close-Change,
}
use truenas_jsonrpc.Protocol.Transfers.{Reply}
use truenas_jsonrpc.Protocol.Transfers.Lifecycle.{begin_transfer-lifecycle}
use truenas_jsonrpc.Protocol.Dispatch.{
  ResolvedId, no_id, bad_id, uuid_id, resolve_id, run_method, by_kind, with_params,
  dispatch_registered, gate_open, by_method, route, dispatch_message, named, versioned,
  dispatch_envelope, dispatch_decoded, dispatch_one, method_name, is_version, raw_params,
}

module _ (p : Protocol) (s : ℕ) (calm : IsSequential p s) (codec : Codec) (uuid : String) where
  run_handler-lifecycle :
      (m : Method) (f : Call → Callback Value) (v : Value) (rid : Option String) (w : World)
      → ((c : Call) → IsCalm s (f c))
      → lifecycle_of s (run_handler codec m f v rid s w).world ≡ lifecycle_of s w
  unfolding run_handler
  run_handler-lifecycle m f v rid w h =
      invoke_keeps (λ u. lifecycle_of s u ≡ lifecycle_of s w) f
        (λ u c e. perform_all-lifecycle s (f c u).0 u (h c u) ∙ e) codec m.kind _ _ refl

  -- A method of the table, whose handlers are calm.
  abbrev IsMethod : Method → Type 0
  IsMethod m = (name : String) × (lookup name p.methods ≡ some m)

  dispatch_method-lifecycle :
      (m : Method) (v : Value) (rid : Option String) (w : World)
      → IsMethod m
      → lifecycle_of s (dispatch_method codec uuid m v rid s w).world ≡ lifecycle_of s w
  unfolding dispatch_method
  dispatch_method-lifecycle m v rid w (name, e) = elim (Option-cases m.handler) [
    | inl h ↦ ground (arith, h)
    | inr (f, h) ↦ ground (arith, h, run_handler-lifecycle m f v rid w (calm.handling name m f e h))
  ]

  authorize_and_dispatch-lifecycle :
      (m : Method) (req : Request) (v : Value) (rid : Option String) (w : World)
      → IsMethod m
      → lifecycle_of s (authorize_and_dispatch p codec uuid m req v rid s w).world
        ≡ lifecycle_of s w
  unfolding authorize_and_dispatch
  authorize_and_dispatch-lifecycle m req v rid w k =
      let same = authorize-lifecycle p s calm req s no_argument w in
      elim (Option-cases (authorize p req s no_argument w).1) [
        | inl e ↦
            rw (e, authorize_and_dispatch)
              (dispatch_method-lifecycle m v rid (authorize p req s no_argument w).0 k ∙ same)
        | inr (r, e) ↦ rw (e, authorize_and_dispatch) same
      ]

  by_kind-lifecycle :
      (m : Method) (k : MethodKind) (req : Request) (rid : Option String) (note : Bool) (w : World)
      → m.kind ≡ k
      → IsMethod m
      → lifecycle_of s (by_kind p codec uuid m k req rid note s w).0 ≡ lifecycle_of s w
  unfolding by_kind run_method
  by_kind-lifecycle m plain req rid note w e k =
      audit-lifecycle p m.audit req _ s _ _ s _
      ∙ authorize_and_dispatch-lifecycle m req req.params rid w k
  by_kind-lifecycle m filterable req rid note w e k =
      audit-lifecycle p m.audit req _ s _ _ s _
      ∙ authorize_and_dispatch-lifecycle m req req.params rid w k
  by_kind-lifecycle m (fd_transfer parts) req rid note w e (name, k) =
      begin_transfer-lifecycle p codec s calm m parts req rid w (calm.negotiating name m parts k e)

  with_params-lifecycle :
      (name : String) (m : Method) (c : Checked) (rid : Option String) (note : Bool) (w : World)
      → IsMethod m
      → lifecycle_of s (with_params p codec uuid name m c rid note s w).0 ≡ lifecycle_of s w
  unfolding with_params
  with_params-lifecycle name m (invalid t) rid note w k = refl
  with_params-lifecycle name m (valid v) rid note w k =
      by_kind-lifecycle m m.kind _ rid note w refl k

  by_method-lifecycle :
      (name raw : String) (o : Option Method) (rid : Option String) (note : Bool) (w : World)
      → lookup name p.methods ≡ o
      → lifecycle_of s (by_method p codec uuid name o raw rid note s w).0 ≡ lifecycle_of s w
  unfolding by_method dispatch_registered
  by_method-lifecycle name raw none rid note w e = refl
  by_method-lifecycle name raw (some m) rid note w e =
      let P : World × Reply → Type 0 = λ x. lifecycle_of s x.0 ≡ lifecycle_of s w in
      if_both P (is_server_client m.direction && note) _ _ refl (
        if_both P (gate_open p m s w) _ _
          (with_params-lifecycle name m (validate m.accepts_validator (m.decode_params raw)) rid
            note w (name, e))
          refl)

  abbrev ChangeOf : World → World × Reply → Type 0
  ChangeOf w x = Change p s w (lifecycle_of s x.0)

  route-Change :
      (name raw : String) (rid : Option String) (note : Bool) (w : World)
      → ChangeOf w (route p codec uuid name raw rid note s w)
  unfolding route
  route-Change name raw rid note w =
      if_both (ChangeOf w) (name == "$/cancelRequest") _ _
        (stays (handle_cancel-lifecycle p s calm codec raw rid note s w))
        (if_both (ChangeOf w) (name == "$/serverInfo") _ _
          (stays (handle_server_info-lifecycle p s calm rid note s w))
          (if_both (ChangeOf w) (name == "$/sessionSetup") _ _
            (handle_session_setup-Change p s calm raw rid note w)
            (if_both (ChangeOf w) (name == "$/sessionSetupContinue") _ _
              (handle_session_continue-Change p s calm raw rid note w)
              (if_both (ChangeOf w) (name == "$/sessionClose") _ _
                (handle_session_close-Change p s calm rid note w)
                (stays (by_method-lifecycle name raw (lookup name p.methods) rid note w refl))))))

  dispatch_message-Change :
      (name raw : String) (rid : Option String) (note : Bool) (w : World)
      → ChangeOf w (dispatch_message p codec uuid name raw rid note s w)
  unfolding dispatch_message
  dispatch_message-Change name raw rid note w =
      if_both (ChangeOf w) (is_closed (w.sessions s).lifecycle) _ _ (stays refl)
        (route-Change name raw rid note w)

  named-Change :
      (o : Option String) (raw : String) (rid : Option String) (note : Bool) (w : World)
      → ChangeOf w (named p codec uuid o raw rid note s w)
  unfolding named
  named-Change none raw rid note w = stays refl
  named-Change (some name) raw rid note w = dispatch_message-Change name raw rid note w

  versioned-Change :
      (env : JsonrpcEnvelope) (rid : Option String) (note : Bool) (w : World)
      → ChangeOf w (versioned p codec uuid env rid note s w)
  unfolding versioned
  versioned-Change env rid note w =
      if_both (ChangeOf w) (is_version env.jsonrpc) _ _
        (named-Change (method_name env.method) (raw_params env.params) rid note w) (stays refl)

  decoded-Change : (d : Decoded) (w : World) → ChangeOf w (dispatch_decoded p codec uuid d s w)
  unfolding dispatch_decoded dispatch_envelope
  decoded-Change (not_object t) w = stays refl
  decoded-Change (malformed t) w = stays refl
  decoded-Change (envelope env) w = of_id (resolve_id env.id)
    where
      of_id : (i : ResolvedId) → ChangeOf w (dispatch_envelope p codec uuid env i s w)
      of_id bad_id = stays refl
      of_id no_id = versioned-Change env none true w
      of_id (uuid_id i) = versioned-Change env (some i) false w

-- On a connection that is driven sequentially, one message leaves the session's lifecycle alone,
-- or closes it from INIT or ESTABLISHED, or sets it to what the `$/sessionSetup` handler (from NONE)
-- or the `$/sessionSetupContinue` handler (from INIT) returned.
pub dispatch_one-Change :
    (p : Protocol) (s : ℕ) (codec : Codec) (uuid msg : String) (w : World)
    → IsSequential p s
    → Change p s w (lifecycle_of s (dispatch_one p codec uuid msg s w).0)
unfolding dispatch_one
dispatch_one-Change p s codec uuid msg w calm =
    decoded-Change p s calm codec uuid (codec.decode_envelope msg) w
