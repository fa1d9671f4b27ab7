-- ===== src/Protocol/Dispatch/Gate.antt =====
-- truenas_pyjsonrpc/protocol.py: what a session that is not established can reach.
use truenas_jsonrpc.Base.{
  ℕ, String, ◌≡◌, refl, sym, ap, ◌∙◌, Bool-cases, if_both, ◌&&◌, inl, inr, Bool, true, false,
  Option, none, some, lookup, ◌==◌, eq_iff, is_some,
}
use mathlib.Core.Bool.{false≢true}
use truenas_jsonrpc.Types.{
  Response, is_success, is_closed, is_server_client, is_established, closed, error_envelope,
  JsonrpcEnvelope,
}
use truenas_jsonrpc.Protocol.{
  World, Protocol, Codec, Method, Decoded, envelope, malformed, not_object,
}
use truenas_jsonrpc.Protocol.Setup.{IsTable, is_reserved}
use truenas_jsonrpc.Protocol.Transfers.{Reply, silent, respond, transfer, raises}
use truenas_jsonrpc.Protocol.Dispatch.{
  dispatch_registered, gate_open, by_method, route, dispatch_message, reply_unless, ResolvedId,
  bad_id, no_id, uuid_id, resolve_id, is_version, method_name, raw_params, dispatch_one,
  dispatch_decoded, dispatch_envelope, versioned, named,
}

-- Nothing is sent, or a failure.
abbrev pub IsRefusal : Reply → Type 0
IsRefusal silent = Unit {0}
IsRefusal (respond r) = is_success r ≡ false
IsRefusal (transfer t) = ⊥
IsRefusal raises = ⊥

-- A name that is not reserved is not a control message's.
not_control :
    (name k : String) → is_reserved k ≡ true → is_reserved name ≡ false → (name == k) ≡ false
not_control name k r f = elim (Bool-cases (name == k)) [
  | inl same ↦ absurd (false≢true (sym f ∙ ap is_reserved ((eq_iff name k).0 same) ∙ r))
  | inr differ ↦ differ
]

module _ (p : Protocol) (codec : Codec) (uuid : String) where
  route-method :
      (name raw : String) (rid : Option String) (note : Bool) (s : ℕ) (w : World)
      → is_reserved name ≡ false
      → route p codec uuid name raw rid note s w
        ≡ by_method p codec uuid name (lookup name p.methods) raw rid note s w
  unfolding route is_reserved
  route-method name raw rid note s w f = rw (
    not_control name "$/cancelRequest" refl f,
    not_control name "$/serverInfo" refl f,
    not_control name "$/sessionSetup" refl f,
    not_control name "$/sessionSetupContinue" refl f,
    not_control name "$/sessionClose" refl f,
  )

  reply_unless-IsRefusal :
      (note : Bool) (r : Response) → is_success r ≡ false → IsRefusal (reply_unless note r)
  reply_unless-IsRefusal true r e = tt
  reply_unless-IsRefusal false r e = e

  registered_blocks :
      (name raw : String) (rid : Option String) (note : Bool) (s : ℕ) (w : World) (m : Method)
      → gate_open p m s w ≡ false
      → let x = dispatch_registered p codec uuid name m raw rid note s w in
        (x.0 ≡ w) × IsRefusal x.1
  unfolding dispatch_registered error_envelope
  registered_blocks name raw rid note s w m e = rw e (
      if_both (λ (x : World × Reply). (x.0 ≡ w) × IsRefusal x.1)
        (is_server_client m.direction && note) _ _ (refl, refl)
        (refl, reply_unless-IsRefusal note _ refl))

  -- With session setup configured, and a session that is not ESTABLISHED, a message for a
  -- registered method that is not marked `pre_auth` changes nothing, whatever its params and its
  -- method are, and is answered by a failure or, for a notification, by nothing.
  pub gate_blocks :
      (name raw : String) (rid : Option String) (note : Bool) (s : ℕ) (w : World) (m : Method)
      → IsTable p
      → is_some p.session_setup ≡ true
      → is_established (w.sessions s).lifecycle ≡ false
      → lookup name p.methods ≡ some m
      → m.pre_auth ≡ false
      → let x = dispatch_message p codec uuid name raw rid note s w in (x.0 ≡ w) × IsRefusal x.1
  unfolding dispatch_message by_method error_envelope
  gate_blocks name raw rid note s w m t setup not_established found not_pre_auth =
      if_both (λ (x : World × Reply). (x.0 ≡ w) × IsRefusal x.1)
        (is_closed (w.sessions s).lifecycle) _ _ (refl, reply_unless-IsRefusal note _ refl)
        (rw (route-method name raw rid note s w (t.entry name m found).1)
          (rw (found, by_method) (registered_blocks name raw rid note s w m gate_shut)))
    where
      gate_shut : gate_open p m s w ≡ false
      gate_shut = unfold gate_open in rw (setup, not_established, not_pre_auth)

  -- A CLOSED session accepts nothing: any bytes leave the shared state as it is, and are answered by
  -- a failure or by nothing.
  pub closed_refuses :
      (msg : String) (s : ℕ) (w : World)
      → (w.sessions s).lifecycle ≡ closed
      → let x = dispatch_one p codec uuid msg s w in (x.0 ≡ w) × IsRefusal x.1
  unfolding dispatch_one dispatch_decoded dispatch_envelope versioned named dispatch_message
      error_envelope
  closed_refuses msg s w e = of_decoded (codec.decode_envelope msg)
    where
      P : World × Reply → Type 0
      P x = (x.0 ≡ w) × IsRefusal x.1

      of_name :
          (o : Option String) (raw : String) (rid : Option String) (note : Bool)
          → P (named p codec uuid o raw rid note s w)
      of_name none raw rid note = (refl, refl)
      of_name (some name) raw rid note =
          rw (e, is_closed) (refl, reply_unless-IsRefusal note _ refl)

      of_version :
          (env : JsonrpcEnvelope) (rid : Option String) (note : Bool)
          → P (versioned p codec uuid env rid note s w)
      of_version env rid note =
          if_both P (is_version env.jsonrpc) _ _
            (of_name (method_name env.method) (raw_params env.params) rid note) (refl, refl)

      of_id :
          (env : JsonrpcEnvelope) (i : ResolvedId) → P (dispatch_envelope p codec uuid env i s w)
      of_id env bad_id = (refl, refl)
      of_id env no_id = of_version env none true
      of_id env (uuid_id i) = of_version env (some i) false

      of_decoded : (d : Decoded) → P (dispatch_decoded p codec uuid d s w)
      of_decoded (malformed t) = (refl, refl)
      of_decoded (not_object t) = (refl, refl)
      of_decoded (envelope env) = of_id env (resolve_id env.id)
