-- ===== src/Server/Negotiated.antt =====
-- truenas_pyjsonrpc_server/connection.py: how a connection comes to be bound.
use truenas_jsonrpc.Base.{
  ℕ, ◌≡◌, ◌⊎◌, inl, inr, refl, sym, ap, ◌∙◌, subst, Bool-cases, true, false, Option, none, some,
  List, [], ◌∷◌, ◌++◌, arith, String, lookup, is_some, is_none, if_both, nat_eq,
}
use mathlib.Core.Option.{none-ne-some}
use truenas_jsonrpc.Value.{Value}
use truenas_jsonrpc.Types.{Response, JsonrpcEnvelope}
use truenas_jsonrpc.Protocol.{Protocol, Decoded, envelope, malformed, not_object}
use truenas_jsonrpc.Protocol.Dispatch.{raw_params, is_version}
use truenas_jsonrpc.Server.{
  Server, Connection, Binding, Stage, await_negotiate, bound, closed, on_connection, send_response,
  register_session, close_connection, is_closed_stage,
}
use truenas_jsonrpc.Server.Negotiate.{
  Decoders, id_text, is_method, handle_negotiate, with_decoded, with_envelope, with_negotiation,
  with_protocol, bind, refuse, Negotiation, names_protocol, undecodable,
}
use truenas_jsonrpc.Server.Outbound.{stop_writing}
use truenas_jsonrpc.Server.Takeover.{break_transfer, resume_rpc, end_transfer}
use truenas_jsonrpc.Server.Routing.{unregister-rest}
use truenas_jsonrpc.Server.Tasks.{
  take_outbound-IsSame, write_held-IsSame, on_dispatch_done-IsSame, next_task-IsSame,
  after_go-IsSame, enqueue_outbound-IsSame,
}
use truenas_jsonrpc.Server.Events.{
  too_large_response, receives, too_large, ends, answers, begins, goes, completes, breaks, takes,
  writes, stops, routes, enqueues, Event, route_notification, route_to, run_first, take_frame,
  receive, end_serve, refuse_frame, serve, serve_all,
}

-- A message that is a request `$/negotiate`, of version 2.0 and with a text as its id, for a protocol
-- that the server has.
pub record IsNegotiation (d : Decoders) (sv : Server) (msg name : String) : Type 0 where
  pub env : JsonrpcEnvelope
  pub decoded : d.decode_envelope msg ≡ envelope env
  pub method : is_method "$/negotiate" env.method ≡ true
  pub version : is_version env.jsonrpc ≡ true
  pub id : is_none (id_text env.id) ≡ false
  pub params : d.decode_negotiate (raw_params env.params) ≡ names_protocol name
  pub found : is_some (lookup name sv.protocols) ≡ true

-- The step binds connection `k`.
pub record Binds (d : Decoders) (sv : Server) (e : Event) (k : ℕ) (b : Binding) : Type 0 where
  pub msg : String
  pub future : ℕ
  pub event : e ≡ receives k msg b.session future
  pub fresh : (sv.connections k).stage ≡ await_negotiate
  pub negotiation : IsNegotiation d sv msg b.protocol

abbrev From : Decoders → Server → Event → ℕ → Server → Type 0
From d sv e k tv =
    (b : Binding)
    → (tv.connections k).binding ≡ some b
    → ((sv.connections k).binding ≡ some b) ⊎ Binds d sv e k b

module _ (d : Decoders) (sv : Server) (e : Event) (k : ℕ) where
  same-From :
      (j : ℕ) (c : Connection)
      → c.binding ≡ (sv.connections j).binding
      → From d sv e k (on_connection j c sv)
  same-From j c h b g = ground (arith, h, g)

module _ (d : Decoders) (sv : Server) (k j : ℕ) (msg uuid : String) (f : ℕ) where
  abbrev event : Event
  event = receives j msg uuid f

  unchanged : From d sv event k sv
  unchanged b g = inl g

  refuse-From : (r : Response) → From d sv event k (refuse j r sv)
  unfolding refuse
  refuse-From r = same-From d sv event k j _ refl

  module _ (h : (sv.connections j).stage ≡ await_negotiate) where
    bind-From :
        (name : String) (rid : Option String)
        → IsNegotiation d sv msg name
        → From d sv event k (bind j name uuid rid sv)
    unfolding bind register_session
    bind-From name rid n b g = elim (Bool-cases (nat_eq j k)) [
      | inr m ↦ inl (ground (arith, m, g))
      | inl y ↦
          let same : j ≡ k = ground (arith, y) in
          let new : record { protocol = name; session = uuid } ≡ b = ground (arith, y, g) in
          inr (
            subst (λ (c : Binding). Binds d sv event k c) new
              (subst (λ (i : ℕ). Binds d sv event i (record { protocol = name; session = uuid }))
                same (record { msg = msg; future = f; event = refl; fresh = h; negotiation = n })))
    ]

    with_envelope-From :
        (env : JsonrpcEnvelope)
        → d.decode_envelope msg ≡ envelope env
        → From d sv event k (with_envelope d j uuid env sv)
    unfolding with_envelope with_negotiation with_protocol
    with_envelope-From env e = elim (Bool-cases (is_method "$/negotiate" env.method)) [
      | inr m ↦ rw m (refuse-From _)
      | inl m ↦ elim (Bool-cases (is_version env.jsonrpc)) [
        | inr v ↦ rw (m, v) (refuse-From _)
        | inl v ↦ elim (Bool-cases (is_none (id_text env.id))) [
          | inl i ↦ rw (m, v, i) (refuse-From _)
          | inr i ↦ rw (m, v, i) (by_params (d.decode_negotiate (raw_params env.params)) m v i refl)
        ]
      ]
    ]
      where
        by_protocol :
            (name : String) (o : Option Protocol)
            → (is_some o ≡ true → IsNegotiation d sv msg name)
            → From d sv event k (with_protocol j name uuid (id_text env.id) o sv)
        by_protocol name none n = refuse-From _
        by_protocol name (some p) n = bind-From name (id_text env.id) (n refl)

        by_params :
            (n : Negotiation)
            → is_method "$/negotiate" env.method ≡ true
            → is_version env.jsonrpc ≡ true
            → is_none (id_text env.id) ≡ false
            → d.decode_negotiate (raw_params env.params) ≡ n
            → From d sv event k (with_negotiation j uuid (id_text env.id) n sv)
        by_params (undecodable t) m v i p = refuse-From _
        by_params (names_protocol name) m v i p = by_protocol name (lookup name sv.protocols) (λ l.
            record {
              env = env;
              decoded = e;
              method = m;
              version = v;
              id = i;
              params = p;
              found = l;
            })

    with_decoded-From :
        (x : Decoded) → d.decode_envelope msg ≡ x → From d sv event k (with_decoded d j uuid x sv)
    unfolding with_decoded
    with_decoded-From (malformed t) e = refuse-From _
    with_decoded-From (not_object t) e = refuse-From _
    with_decoded-From (envelope env) e = with_envelope-From env e

  take_frame-From :
      (o : Option ℕ) (stage : Stage)
      → (sv.connections j).stage ≡ stage
      → From d sv event k (take_frame d j msg uuid f o stage sv)
  unfolding take_frame handle_negotiate
  take_frame-From (some t) stage h = same-From d sv event k j _ refl
  take_frame-From none await_negotiate h = with_decoded-From h (d.decode_envelope msg) refl
  take_frame-From none bound h = same-From d sv event k j _ refl
  take_frame-From none closed h = unchanged

  receive-From : From d sv event k (receive d j msg uuid f sv)
  unfolding receive
  receive-From =
      if_both (From d sv event k) (is_closed_stage (sv.connections j).stage) sv _ unchanged
        (take_frame-From (sv.connections j).awaiting (sv.connections j).stage refl)

module _ (d : Decoders) (k : ℕ) where
  close-From :
      (e : Event) (j : ℕ) (fs : List ℕ) (sv : Server) → From d sv e k (close_connection j fs sv)
  unfolding close_connection
  close-From e j fs sv b g = inl (ground (arith, unregister-rest (sv.connections j).binding sv, g))

  end_serve-From :
      (e : Event) (j : ℕ) (fs : List ℕ) (sv : Server) → From d sv e k (end_serve j fs sv)
  unfolding end_serve
  end_serve-From e j fs sv =
      if_both (From d sv e k) (is_closed_stage (sv.connections j).stage) sv _ (λ b g. inl g)
        (close-From e j fs sv)

  -- The connection is closed after a last message.
  refuse_frame-binding :
      (j : ℕ) (text : String) (fs : List ℕ) (sv : Server) (b : Binding)
      → ((refuse_frame j text fs sv).connections k).binding ≡ some b
      → (sv.connections k).binding ≡ some b
  unfolding refuse_frame end_serve close_connection
  refuse_frame-binding j text fs sv b g = ground (
    arith,
    g,
    unregister-rest (sv.connections j).binding
        (on_connection j (send_response (too_large_response text) (sv.connections j)) sv),
  )

  run_first-From :
      (e : Event) (xs : List (ℕ × String × Value)) (sv : Server) → From d sv e k (run_first xs sv)
  run_first-From e [] sv b g = inl g
  run_first-From e ((j, u, v) ∷ xs) sv b g =
      inl (ground (arith, enqueue_outbound-IsSame (sv.connections j) v, g))

  route_to-From :
      (e : Event) (o : Option ℕ) (u : String) (v : Value) (sv : Server)
      → From d sv e k (route_to o u v sv)
  route_to-From e none u v sv b g = inl g
  route_to-From e (some j) u v sv b g = inl g

  serve-From : (e : Event) (sv : Server) → From d sv e k (serve d e sv)
  unfolding serve route_notification
  serve-From (receives j msg uuid f) sv = receive-From d sv k j msg uuid f
  serve-From (too_large j text fs) sv = λ b g. inl (refuse_frame-binding j text fs sv b g)
  serve-From (ends j fs) sv = end_serve-From (ends j fs) j fs sv
  serve-From (answers j f r) sv =
      same-From d sv (answers j f r) k j _ (on_dispatch_done-IsSame (sv.connections j) f r).0
  serve-From (begins j target t) sv =
      same-From d sv (begins j target t) k j _
        (next_task-IsSame target t (sv.connections j).tasks (sv.connections j)).0
  serve-From (goes j t) sv =
      same-From d sv (goes j t) k j _
        (after_go-IsSame (sv.connections j) d.decode_envelope ((sv.connections j).arrived t)).0
  serve-From (completes j r) sv =
      unfold end_transfer resume_rpc in same-From d sv (completes j r) k j _ refl
  serve-From (breaks j) sv =
      unfold break_transfer resume_rpc in same-From d sv (breaks j) k j _ refl
  serve-From (takes j) sv =
      same-From d sv (takes j) k j _ (take_outbound-IsSame (sv.connections j)).0
  serve-From (writes j) sv =
      same-From d sv (writes j) k j _ (write_held-IsSame (sv.connections j)).0
  serve-From (stops j) sv = unfold stop_writing in same-From d sv (stops j) k j _ refl
  serve-From (routes u v) sv = route_to-From (routes u v) (lookup u sv.sessions) u v sv
  serve-From enqueues sv = run_first-From enqueues sv.soon sv

  bound_at :
      (es : List Event) (sv : Server) (b : Binding)
      → ((serve_all d es sv).connections k).binding ≡ some b
      → ((sv.connections k).binding ≡ some b)
        ⊎ ((before after : List Event) × (e : Event) × (es ≡ before ++ (e ∷ after))
            × Binds d (serve_all d before sv) e k b)
  unfolding serve_all
  bound_at [] sv b g = inl g
  bound_at (e ∷ es) sv b g = elim (bound_at es (serve d e sv) b g) [
    | inr (before, after, x, s, h) ↦ inr (e ∷ before, after, x, ap (λ (l : List Event). e ∷ l) s, h)
    | inl o ↦ elim (serve-From e sv b o) [ inl p ↦ inl p | inr h ↦ inr ([], es, e, refl, h) ]
  ]

  -- A connection that is bound was bound by `$/negotiate`: if it was not bound at the start and is at
  -- the end, one of the frames that it received, while it awaited negotiation, was a request
  -- `$/negotiate` of version 2.0 with a text as its id for that very protocol, which the server had.
  pub serve_all-IsNegotiated :
      (es : List Event) (sv : Server) (b : Binding)
      → (sv.connections k).binding ≡ none
      → ((serve_all d es sv).connections k).binding ≡ some b
      → (before after : List Event) × (e : Event) × (es ≡ before ++ (e ∷ after))
        × Binds d (serve_all d before sv) e k b
  serve_all-IsNegotiated es sv b n g = elim (bound_at es sv b g) [
    | inl o ↦ absurd (none-ne-some b (sym n ∙ o))
    | inr h ↦ h
  ]
