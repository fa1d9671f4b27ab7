-- ===== src/Server/Order.antt =====
-- truenas_pyjsonrpc_server/connection.py: the order of what the writer writes.
pub mod Steps
use truenas_jsonrpc.Base.{
  ℕ, ◌≡◌, refl, sym, ap, ◌∙◌, true, false, Option, none, some, List, [], ◌∷◌, ◌++◌, All, arith,
  String, lookup, not, ◌||◌, is_none, if_both, nat_eq, Bool, Bool-cases, inl, inr, subst,
}
use mathlib.Core.List.{append_assoc, append-nil}
use truenas_jsonrpc.Value.{Value}
use truenas_jsonrpc.Types.{Response, response_value, JsonrpcEnvelope}
use truenas_jsonrpc.Registry.{update}
use truenas_jsonrpc.Protocol.Dispatch.{raw_params, is_version}
use truenas_jsonrpc.Protocol.{Protocol, Decoded, envelope, malformed, not_object}
use truenas_jsonrpc.Protocol.Transfers.{Reply, silent, respond, transfer, raises}
use truenas_jsonrpc.Server.{
  Server, Connection, put, Stage, await_negotiate, bound, closed, enqueue_outbound, on_connection,
  send_response, register_session, keep_done, close_connection, is_closed_stage,
}
use truenas_jsonrpc.Server.Negotiate.{
  Decoders, id_text, is_method, handle_negotiate, with_decoded, with_envelope, with_negotiation,
  with_protocol, bind, refuse, Negotiation, names_protocol, undecodable,
}
use truenas_jsonrpc.Server.Outbound.{
  is_idle, take_next, take_outbound, write_now, write_held, stop_writing,
}
use truenas_jsonrpc.Client.Subscriptions.{contains, remove}
use truenas_jsonrpc.Server.Takeover.{after_go, break_transfer, resume_rpc, end_transfer, is_go}
use truenas_jsonrpc.Server.Routing.{unregister-rest}
use truenas_jsonrpc.Server.Drains.{held_items}
use truenas_jsonrpc.Server.Events.{
  too_large_response, receives, too_large, ends, answers, begins, goes, completes, breaks, takes,
  writes, stops, routes, enqueues, on_dispatch_done, with_reply, Event, route_notification,
  route_to, run_first, take_frame, receive, end_serve, refuse_frame, serve, serve_all,
}
use truenas_jsonrpc.Server.Order.Steps.{
  queued, Extends, unchanged-Extends, compose-Extends, put-Extends, send_response-Extends,
  take_outbound-Extends, write_held-Extends, enqueue_outbound-Extends, after_go-Extends,
  on_dispatch_done-Extends,
}

abbrev ExtendsFor : ℕ → Server → Server → Type 0
ExtendsFor k sv tv = Extends (sv.connections k) (tv.connections k)

module _ (k : ℕ) (sv : Server) where
  unchanged-ExtendsFor : ExtendsFor k sv sv
  unchanged-ExtendsFor = unchanged-Extends (sv.connections k)

  at-Extends :
      (j : ℕ) (c : Connection)
      → Extends (sv.connections j) c
      → ExtendsFor k sv (on_connection j c sv)
  at-Extends j c h = elim (Bool-cases (nat_eq j k)) [
    | inl same ↦
        let e : j ≡ k = ground (arith, same) in
        rw same (subst (λ i. Extends (sv.connections i) c) e h)
    | inr other ↦ rw other unchanged-ExtendsFor
  ]

  elsewhere : (j : ℕ) (c : Connection) → nat_eq j k ≡ false → ExtendsFor k sv (on_connection j c sv)
  elsewhere j c n = rw n unchanged-ExtendsFor

  end_serve-Extends : (j : ℕ) (fs : List ℕ) → ExtendsFor k sv (end_serve j fs sv)
  unfolding end_serve close_connection
  end_serve-Extends j fs =
      let c = sv.connections j in
      let closing = record c {
        stage = closed;
        gate = true;
        awaiting = none;
        inflight = keep_done fs c.inflight;
        outbound = c.outbound ++ (none ∷ []);
      } in
      if_both (ExtendsFor k sv) (is_closed_stage c.stage) sv _ unchanged-ExtendsFor
        (rw (unregister-rest c.binding sv).0 (at-Extends j closing (put-Extends c none)))

  refuse-Extends : (j : ℕ) (r : Response) → ExtendsFor k sv (refuse j r sv)
  unfolding refuse
  refuse-Extends j r = at-Extends j _ (send_response-Extends (sv.connections j) r)

  module _ (j : ℕ) (uuid : String) where
    with_protocol-Extends :
        (name : String) (rid : Option String) (o : Option Protocol)
        → ExtendsFor k sv (with_protocol j name uuid rid o sv)
    unfolding with_protocol bind register_session
    with_protocol-Extends name rid none = refuse-Extends j _
    with_protocol-Extends name rid (some p) = at-Extends j _ (
        send_response-Extends
          (record (sv.connections j) {
            stage = bound;
            binding = some (record { protocol = name; session = uuid });
          })
          _)

    with_negotiation-Extends :
        (rid : Option String) (n : Negotiation) → ExtendsFor k sv (with_negotiation j uuid rid n sv)
    unfolding with_negotiation
    with_negotiation-Extends rid (undecodable t) = refuse-Extends j _
    with_negotiation-Extends rid (names_protocol name) =
        with_protocol-Extends name rid (lookup name sv.protocols)

    with_envelope-Extends :
        (d : Decoders) (env : JsonrpcEnvelope) → ExtendsFor k sv (with_envelope d j uuid env sv)
    unfolding with_envelope
    with_envelope-Extends d env =
        if_both (ExtendsFor k sv) (not (is_method "$/negotiate" env.method)) _ _
          (refuse-Extends j _)
          (if_both (ExtendsFor k sv) (not (is_version env.jsonrpc) || is_none (id_text env.id)) _ _
            (refuse-Extends j _)
            (with_negotiation-Extends (id_text env.id)
              (d.decode_negotiate (raw_params env.params))))

    with_decoded-Extends :
        (d : Decoders) (x : Decoded) → ExtendsFor k sv (with_decoded d j uuid x sv)
    unfolding with_decoded
    with_decoded-Extends d (malformed t) = refuse-Extends j _
    with_decoded-Extends d (not_object t) = refuse-Extends j _
    with_decoded-Extends d (envelope env) = with_envelope-Extends d env

    take_frame-Extends :
        (d : Decoders) (msg : String) (f : ℕ) (o : Option ℕ) (stage : Stage)
        → ExtendsFor k sv (take_frame d j msg uuid f o stage sv)
    unfolding take_frame handle_negotiate
    take_frame-Extends d msg f (some t) stage =
        at-Extends j _ (unchanged-Extends (sv.connections j))
    take_frame-Extends d msg f none await_negotiate = with_decoded-Extends d (d.decode_envelope msg)
    take_frame-Extends d msg f none bound = at-Extends j _ (unchanged-Extends (sv.connections j))
    take_frame-Extends d msg f none closed = unchanged-ExtendsFor

    receive-Extends :
        (d : Decoders) (msg : String) (f : ℕ) → ExtendsFor k sv (receive d j msg uuid f sv)
    unfolding receive
    receive-Extends d msg f =
        if_both (ExtendsFor k sv) (is_closed_stage (sv.connections j).stage) sv _
          unchanged-ExtendsFor
          (take_frame-Extends d msg f (sv.connections j).awaiting (sv.connections j).stage)

-- An event that is not the start of a transfer on `k`, nor the end of its writer by a broken channel.
abbrev pub IsQueued : ℕ → Event → Type 0
IsQueued k (begins j target t) = nat_eq j k ≡ false
IsQueued k (stops j) = nat_eq j k ≡ false
IsQueued k e = Unit {0}

module _ (k : ℕ) (sv : Server) where
  refuse_frame-Extends :
      (j : ℕ) (text : String) (fs : List ℕ) → ExtendsFor k sv (refuse_frame j text fs sv)
  unfolding refuse_frame
  refuse_frame-Extends j text fs =
      let c = send_response (too_large_response text) (sv.connections j) in
      if_both (ExtendsFor k sv) (is_closed_stage (sv.connections j).stage) sv _
        (unchanged-ExtendsFor k sv)
        (compose-Extends (sv.connections k) ((on_connection j c sv).connections k)
          ((end_serve j fs (on_connection j c sv)).connections k)
          (at-Extends k sv j c (send_response-Extends (sv.connections j) (too_large_response text)))
          (end_serve-Extends k (on_connection j c sv) j fs))

  route_to-Extends : (o : Option ℕ) (u : String) (v : Value) → ExtendsFor k sv (route_to o u v sv)
  route_to-Extends none u v = unchanged-ExtendsFor k sv
  route_to-Extends (some j) u v = unchanged-ExtendsFor k sv

  run_first-Extends : (xs : List (ℕ × String × Value)) → ExtendsFor k sv (run_first xs sv)
  run_first-Extends [] = unchanged-ExtendsFor k sv
  run_first-Extends ((j, u, v) ∷ xs) =
      at-Extends k (record sv { soon = xs }) j _ (enqueue_outbound-Extends (sv.connections j) v)

  serve-Extends : (d : Decoders) (e : Event) → IsQueued k e → ExtendsFor k sv (serve d e sv)
  unfolding serve route_notification
  serve-Extends d (receives j msg uuid f) a = receive-Extends k sv j uuid d msg f
  serve-Extends d (too_large j text fs) a = refuse_frame-Extends j text fs
  serve-Extends d (ends j fs) a = end_serve-Extends k sv j fs
  serve-Extends d (answers j f r) a =
      at-Extends k sv j _ (on_dispatch_done-Extends f r (sv.connections j))
  serve-Extends d (begins j target t) a = elsewhere k sv j _ a
  serve-Extends d (goes j t) a =
      at-Extends k sv j _ (after_go-Extends (sv.connections j) d ((sv.connections j).arrived t))
  serve-Extends d (completes j r) a =
      unfold end_transfer resume_rpc in
      at-Extends k sv j _ (send_response-Extends (sv.connections j) r)
  serve-Extends d (breaks j) a =
      unfold break_transfer resume_rpc in at-Extends k sv j _ (unchanged-Extends (sv.connections j))
  serve-Extends d (takes j) a = at-Extends k sv j _ (take_outbound-Extends (sv.connections j))
  serve-Extends d (writes j) a = at-Extends k sv j _ (write_held-Extends (sv.connections j))
  serve-Extends d (stops j) a = elsewhere k sv j _ a
  serve-Extends d (routes u v) a = route_to-Extends (lookup u sv.sessions) u v
  serve-Extends d enqueues a = run_first-Extends sv.soon

-- Messages are written in the order in which they are queued. What has been written on a connection,
-- then what its writer holds, then what is queued before the sentinel: after any events of the server's
-- loop that sequence begins with what it was before, so that nothing is lost, doubled or overtaken. The
-- events are any but the start of a raw-fd transfer on the connection, whose `$/transferReady` does not
-- go through the queue, and the end of its writer at a broken channel.
pub serve_all-in_order :
    (d : Decoders) (k : ℕ) (es : List Event) (sv : Server)
    → All (IsQueued k) es
    → let c = sv.connections k in
      let e = (serve_all d es sv).connections k in
      (added : List Value) × (e.written ++ (held_items e.held ++ queued e.outbound)
        ≡ (c.written ++ (held_items c.held ++ queued c.outbound)) ++ added)
unfolding serve_all
serve_all-in_order d k [] sv a = unchanged-ExtendsFor k sv
serve_all-in_order d k (e ∷ es) sv a =
    compose-Extends (sv.connections k) ((serve d e sv).connections k)
      ((serve_all d es (serve d e sv)).connections k) (serve-Extends k sv d e a.0)
      (serve_all-in_order d k es (serve d e sv) a.1)
