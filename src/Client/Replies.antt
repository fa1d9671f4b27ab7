-- ===== src/Client/Replies.antt =====
-- truenas_pyjsonrpc_client/client.py with truenas_pyjsonrpc/protocol.py: what the server's responses
-- do to the requests of a client.
use truenas_jsonrpc.Base.{
  ℕ, ◌<◌, String, ◌≡◌, refl, sym, subst, ap, ◌∙◌, inl, inr, Bool, true, false, Option, none, some,
  List, [], ◌∷◌, ◌++◌, lookup, lookup-insert, ℤ, arith, eq_refl, All,
}
use truenas_jsonrpc.Value.{Value, Fields, null, bool, num, str, arr, obj, pair, end, truthy}
use truenas_jsonrpc.Types.{
  JsonrpcEnvelope, Response, success, failure, response_id, response_value, error_object,
}
use truenas_jsonrpc.Protocol.{World, Protocol, Codec, envelope}
use truenas_jsonrpc.Protocol.Transfers.{Reply, respond}
use truenas_jsonrpc.Protocol.Dispatch.{resolve_id, uuid_id, dispatch_one}
use truenas_jsonrpc.Protocol.Dispatch.Replies.{dispatch_one-IsExpected, IsExpected, IsExpectedFor}
use truenas_jsonrpc.Protocol.Transfers.Replies.{IsReplyTo}
use truenas_jsonrpc.Redaction.{field_value}
use truenas_jsonrpc.Client.{
  Client, Future, resolved, failed_rpc, is_waiting, settle, begin_invoke, register,
}
use truenas_jsonrpc.Client.Messages.{
  on_message, on_reply, settle_reply, by_request, reply_outcome, error_outcome, error_fields,
  rpc_error, int_value, on_notification,
}
use truenas_jsonrpc.Client.Events.{Event, invokes, receives, perform, perform_all}
use truenas_jsonrpc.Client.Futures.{perform-Keeps, perform_all-settled, on_message-Keeps}
use truenas_jsonrpc.Client.Waits.{IsOther, Tracked, perform-Tracked}

-- What a response means for the one who waits.
abbrev pub outcome_of : Response → Future
outcome_of (success i v) = resolved v
outcome_of (failure i code message detail) = failed_rpc code (str message) detail

dispatch_one-response_id :
    (p : Protocol) (codec : Codec) (uuid msg : String) (s : ℕ) (w : World) (env : JsonrpcEnvelope)
    (rid : String) (r : Response)
    → codec.decode_envelope msg ≡ envelope env
    → resolve_id env.id ≡ uuid_id rid
    → (dispatch_one p codec uuid msg s w).1 ≡ respond r
    → response_id r ≡ some rid
dispatch_one-response_id p codec uuid msg s w env rid r d i e =
    subst (IsReplyTo codec (some rid)) e (
      subst (λ j. IsExpectedFor codec j reply) i
        (subst (λ x. IsExpected codec x reply) d (dispatch_one-IsExpected p codec uuid msg s w)))
  where
    reply : Reply
    reply = (dispatch_one p codec uuid msg s w).1

module _ (read : String → Option ℤ) where
  reply_outcome-success :
      (v i : Value)
      → reply_outcome read (pair "jsonrpc" (str "2.0") (pair "result" v (pair "id" i end)))
        ≡ some (resolved v)
  unfolding reply_outcome field_value
  reply_outcome-success v i = refl

  reply_outcome-failure :
      (n : ℤ) (m : String) (d i : Value)
      → reply_outcome read
          (pair "jsonrpc" (str "2.0") (pair "error" (error_object n m d) (pair "id" i end)))
        ≡ some (failed_rpc n (str m) d)
  unfolding reply_outcome error_outcome error_fields rpc_error int_value field_value error_object
      truthy
  reply_outcome-failure n m null i = refl
  reply_outcome-failure n m (bool b) i = refl
  reply_outcome-failure n m (num x) i = refl
  reply_outcome-failure n m (str s) i = refl
  reply_outcome-failure n m (arr vs) i = refl
  reply_outcome-failure n m (obj fs) i = refl

  on_reply-settles :
      (f : ℕ) (fs : Fields) (x : Future) (c : Client)
      → reply_outcome read fs ≡ some x
      → is_waiting (c.futures f) ≡ true
      → on_reply read f fs c ≡ (settle f x c, false)
  unfolding on_reply settle_reply settle
  on_reply-settles f fs x c e h = ground (arith, e, h)

  on_message-pending :
      (fs : Fields) (i : Option Value) (f : ℕ) (c : Client)
      → field_value "id" fs ≡ i
      → by_request i c.pending ≡ some f
      → on_message read (obj fs) c ≡ on_reply read f fs c
  unfolding on_message
  on_message-pending fs i f c e h =
      subst
        (λ j.
          (elim (by_request j c.pending) [
            | none ↦ (on_notification fs c, false)
            | some g ↦ on_reply read g fs c
          ])
          ≡ on_reply read f fs c)
        (sym e) (ground (arith, h))

  -- A response settles the future that waits for its id, with the result, or with the error's code,
  -- message and data, and changes nothing else.
  pub on_message-response :
      (r : Response) (rid : String) (f : ℕ) (c : Client)
      → response_id r ≡ some rid
      → lookup rid c.pending ≡ some f
      → is_waiting (c.futures f) ≡ true
      → on_message read (response_value r) c ≡ (settle f (outcome_of r) c, false)
  unfolding response_value field_value
  on_message-response (success i v) rid f c e l h = rw e (
      on_message-pending _ (some (str rid)) f c refl l
      ∙ on_reply-settles f _ (resolved v) c (reply_outcome-success v (str rid)) h)
  on_message-response (failure i n m d) rid f c e l h = rw e (
      on_message-pending _ (some (str rid)) f c refl l
      ∙ on_reply-settles f _ (failed_rpc n (str m) d) c (reply_outcome-failure n m d (str rid)) h)

  -- A failure with a null id, which the server sends where it could read no id, settles nothing.
  on_message-no_id :
      (n : ℤ) (m : String) (d : Value) (c : Client)
      → on_message read (response_value (failure none n m d)) c ≡ (c, false)
  unfolding on_message on_notification response_value field_value
  on_message-no_id n m d c = refl

  module _ (rid : String) (f : ℕ) where
    perform_all-Tracked :
        (es : List Event) (c : Client)
        → All (IsOther rid) es
        → f < c.next_future
        → Tracked rid f c
        → (f < (perform_all read es c).next_future) × Tracked rid f (perform_all read es c)
    unfolding perform_all
    perform_all-Tracked [] c o l t = (l, t)
    perform_all-Tracked (e ∷ es) c o l t =
        perform_all-Tracked es (perform read e c) o.1
          (omega (arith, l, (perform-Keeps f c read e l).grows))
          (perform-Tracked read rid f e c o.0 l t)

  perform_all-append :
      (es fs : List Event) (c : Client)
      → perform_all read (es ++ fs) c ≡ perform_all read fs (perform_all read es c)
  unfolding perform_all
  perform_all-append [] fs c = refl
  perform_all-append (e ∷ es) fs c = perform_all-append es fs (perform read e c)

  begin_invoke-lookup :
      (rid method : String) (params : Value) (progress : Option ℕ) (c : Client)
      → c.connected ≡ true
      → lookup rid (begin_invoke rid method params progress c).0.pending ≡ some c.next_future
  unfolding begin_invoke register
  begin_invoke-lookup rid method params progress c h =
      ground (arith, h, lookup-insert rid rid c.next_future c.pending, eq_refl rid)

  begin_invoke-next :
      (rid method : String) (params : Value) (progress : Option ℕ) (c : Client)
      → c.next_future < (begin_invoke rid method params progress c).0.next_future
  unfolding begin_invoke register
  begin_invoke-next rid method params progress c = ground arith

  answered_from :
      (r : Response) (rid : String) (f : ℕ) (before after : List Event) (c : Client)
      → response_id r ≡ some rid
      → lookup rid c.pending ≡ some f
      → f < c.next_future
      → All (IsOther rid) before
      → is_waiting ((perform_all read before c).futures f) ≡ true
      → (perform_all read (before ++ (receives (response_value r) ∷ after)) c).futures f
        ≡ outcome_of r
  unfolding perform_all perform
  answered_from r rid f before after c e l b o h =
      let c' = perform_all read before c in
      let (b', t) = perform_all-Tracked rid f before c o b (inl l) in
      let l' : lookup rid c'.pending ≡ some f = elim t [ inl l ↦ l | inr d ↦ cc ] in
      let once = on_message-response r rid f c' e l' h in
      let now = ap (λ (x : Client × Bool). x.0.futures f) once ∙ settle_now r f c' h in
      let d = (on_message read (response_value r) c').0 in
      let grows = (on_message-Keeps f c' read (response_value r)).grows in
      rw (perform_all-append before (receives (response_value r) ∷ after) c) (
        perform_all-settled f read after d (omega (arith, grows, b')) (rw now (outcome-done r))
        ∙ now)
    where
      settle_now :
          (r : Response) (f : ℕ) (c : Client)
          → is_waiting (c.futures f) ≡ true
          → (settle f (outcome_of r) c).futures f ≡ outcome_of r
      settle_now r f c h = unfold settle in ground (arith, h)

      outcome-done : (r : Response) → is_waiting (outcome_of r) ≡ false
      outcome-done (success i v) = refl
      outcome-done (failure i n m d) = refl

  -- A call ends with what the server dispatched for it. Where `_invoke` is connected, other things
  -- happen on the loop (no second use of the id, no end of the call), the call still waits, and then
  -- the response arrives that `dispatch` returned for a message with the call's id, the call's future
  -- is that response's result or error from then on, whatever happens later.
  pub perform_all-answered :
      (p : Protocol) (codec : Codec) (uuid msg : String) (s : ℕ) (w : World) (env : JsonrpcEnvelope)
      (r : Response) (rid method : String) (params : Value) (progress : Option ℕ)
      (before after : List Event) (c : Client)
      → codec.decode_envelope msg ≡ envelope env
      → resolve_id env.id ≡ uuid_id rid
      → (dispatch_one p codec uuid msg s w).1 ≡ respond r
      → c.connected ≡ true
      → All (IsOther rid) before
      → is_waiting
          ((perform_all read (invokes rid method params progress ∷ before) c).futures c.next_future)
        ≡ true
      → (perform_all read
            (invokes rid method params progress ∷ (before ++ (receives (response_value r) ∷ after)))
            c).futures
          c.next_future
        ≡ outcome_of r
  unfolding perform_all perform
  perform_all-answered p codec uuid msg s w env r rid method params progress before after c d i e h
        o k =
      answered_from r rid c.next_future before after (begin_invoke rid method params progress c).0
        (dispatch_one-response_id p codec uuid msg s w env rid r d i e)
        (begin_invoke-lookup rid method params progress c h)
        (begin_invoke-next rid method params progress c) o k
