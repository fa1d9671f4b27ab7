-- ===== src/Server/Routing.antt =====
-- truenas_pyjsonrpc_server/server.py: the registry of sessions, and where notifications go.
use truenas_jsonrpc.Base.{
  not, ◌||◌, is_none, ℕ, String, ◌≡◌, refl, Bool-cases, false, Option, none, some, List, [], ◌∷◌,
  ◌++◌, lookup, lookup-insert, lookup-erase, if_both, All, inl, inr, arith, ◌==◌, eq_iff,
}
use mathlib.Core.Option.{none-ne-some}
use truenas_jsonrpc.Value.{Value}
use truenas_jsonrpc.Types.{Response, JsonrpcEnvelope}
use truenas_jsonrpc.Protocol.{Protocol, Decoded, envelope, malformed, not_object}
use truenas_jsonrpc.Server.{
  Server, Connection, Binding, Stage, await_negotiate, bound, closed, on_connection,
  close_connection, unregister_binding, unregister_session, register_session, is_closed_stage,
}
use truenas_jsonrpc.Server.Negotiate.{
  Decoders, handle_negotiate, with_decoded, with_envelope, with_negotiation, with_protocol, bind,
  refuse, id_text, is_method, Negotiation, names_protocol, undecodable,
}
use truenas_jsonrpc.Protocol.Dispatch.{raw_params, is_version}
use truenas_jsonrpc.Server.Outbound.{stop_writing}
use truenas_jsonrpc.Server.Takeover.{break_transfer, resume_rpc, end_transfer}
use truenas_jsonrpc.Server.Events.{
  receives, too_large, ends, answers, begins, goes, completes, breaks, takes, writes, stops, routes,
  enqueues, Event, route_notification, route_to, run_first, serve, serve_all, take_frame, receive,
  end_serve, refuse_frame,
}
use truenas_jsonrpc.Server.Tasks.{
  IsSame, after_go-IsSame, enqueue_outbound-IsSame, next_task-IsSame, on_dispatch_done-IsSame,
  take_outbound-IsSame, write_held-IsSame,
}

-- The connection that has the session.
abbrev pub Owns : Server → ℕ → String → Type 0
Owns sv k u = (b : Binding) × ((sv.connections k).binding ≡ some b) × (b.session ≡ u)

abbrev pub IsRouted : Server → ℕ × String × Value → Type 0
IsRouted sv (k, u, v) = Owns sv k u

-- Sessions are registered for open connections that have negotiated them, and what is on its way to
-- a connection was routed by the session that the connection has.
pub record Inv (sv : Server) : Type 0 where
  pub unbound :
      (k : ℕ) → (sv.connections k).stage ≡ await_negotiate → (sv.connections k).binding ≡ none
  pub owned : (u : String) (k : ℕ) → lookup u sv.sessions ≡ some k → Owns sv k u
  pub serving :
      (u : String) (k : ℕ) → lookup u sv.sessions ≡ some k → (sv.connections k).stage ≡ bound
  pub routed : All (IsRouted sv) sv.soon

-- A connection that is bound stays bound to the same session.
abbrev Kept : Server → Server → Type 0
Kept sv tv =
    (k : ℕ) (b : Binding)
    → (sv.connections k).binding ≡ some b
    → (tv.connections k).binding ≡ some b

Owns-Kept : (sv tv : Server) (k : ℕ) (u : String) → Kept sv tv → Owns sv k u → Owns tv k u
Owns-Kept sv tv k u e (b, h, s) = (b, e k b h, s)

All-Kept :
    (sv tv : Server) (xs : List (ℕ × String × Value))
    → Kept sv tv
    → All (IsRouted sv) xs
    → All (IsRouted tv) xs
All-Kept sv tv [] e h = tt
All-Kept sv tv ((k, u, v) ∷ xs) e h = (Owns-Kept sv tv k u e h.0, All-Kept sv tv xs e h.1)

All-append :
    (sv : Server) (xs : List (ℕ × String × Value)) (x : ℕ × String × Value)
    → All (IsRouted sv) xs
    → IsRouted sv x
    → All (IsRouted sv) (xs ++ (x ∷ []))
All-append sv [] x h o = (o, tt)
All-append sv (y ∷ xs) x h o = (h.0, All-append sv xs x h.1 o)

module _ (sv : Server) (k : ℕ) (c : Connection) where
  same-Kept : IsSame (sv.connections k) c → Kept sv (on_connection k c sv)
  same-Kept s j b h = ground (arith, s, h)

  on_connection-Inv : IsSame (sv.connections k) c → Inv sv → Inv (on_connection k c sv)
  on_connection-Inv s i =
      let kept = same-Kept s in
      record {
        unbound = λ j h. ground (arith, s, i.unbound j, i.unbound k);
        owned = λ u j h. Owns-Kept sv (on_connection k c sv) j u kept (i.owned u j h);
        serving = λ u j h. ground (arith, s, i.serving u j h);
        routed = All-Kept sv (on_connection k c sv) sv.soon kept i.routed;
      }

module _ (sv : Server) (k : ℕ) (i : Inv sv) where
  bind-Kept :
      (name uuid : String) (rid : Option String)
      → (sv.connections k).stage ≡ await_negotiate
      → Kept sv (bind k name uuid rid sv)
  unfolding bind register_session
  bind-Kept name uuid rid h j b g = ground (arith, g, i.unbound k h)

  bind-Inv :
      (name uuid : String) (rid : Option String)
      → (sv.connections k).stage ≡ await_negotiate
      → Inv (bind k name uuid rid sv)
  bind-Inv name uuid rid h =
      let tv = bind k name uuid rid sv in
      let kept = bind-Kept name uuid rid h in
      record {
        unbound = λ j g. unfold bind register_session in ground (arith, i.unbound j);
        owned = λ u j g. elim (Bool-cases (uuid == u)) [
          | inl y ↦ (
            record { protocol = name; session = uuid },
            unfold bind register_session in
                ground (arith, y, g, lookup-insert uuid u k sv.sessions),
            (eq_iff uuid u).0 y,
          )
          | inr n ↦
              let g' : lookup u sv.sessions ≡ some j =
                unfold bind register_session in
                ground (arith, n, g, lookup-insert uuid u k sv.sessions) in
              Owns-Kept sv tv j u kept (i.owned u j g')
        ];
        serving = λ u j g.
            unfold bind register_session in
            ground (arith, eq_iff uuid u, lookup-insert uuid u k sv.sessions, i.serving u j);
        routed = unfold bind register_session in All-Kept sv tv sv.soon kept i.routed;
      }

unregister-lookup :
    (o : Option Binding) (sv : Server) (u : String) (j : ℕ)
    → lookup u (unregister_binding o sv).sessions ≡ some j
    → (lookup u sv.sessions ≡ some j) × ((b : Binding) → o ≡ some b → (b.session == u) ≡ false)
unfolding unregister_binding unregister_session
unregister-lookup none sv u j h = (h, λ b e. absurd (none-ne-some _ e))
unregister-lookup (some a) sv u j h = ground (arith, h, lookup-erase a.session u sv.sessions)

pub unregister-rest :
    (o : Option Binding) (sv : Server)
    → ((unregister_binding o sv).connections ≡ sv.connections)
      × ((unregister_binding o sv).soon ≡ sv.soon)
unfolding unregister_binding unregister_session
unregister-rest none sv = (refl, refl)
unregister-rest (some a) sv = (refl, refl)

module _ (k : ℕ) where
  close_connection-Inv : (fs : List ℕ) (sv : Server) → Inv sv → Inv (close_connection k fs sv)
  close_connection-Inv fs sv i =
      let tv = close_connection k fs sv in
      let o = (sv.connections k).binding in
      record {
        unbound =
            λ j g. unfold close_connection in ground (arith, unregister-rest o sv, i.unbound j);
        owned = λ u j g.
            unfold close_connection in
            let h = unregister-lookup o sv u j (unfold close_connection in g) in
            Owns-Kept sv tv j u close-Kept (i.owned u j h.0);
        serving = λ u j g.
            let h = unregister-lookup o sv u j (unfold close_connection in g) in
            let (b, e, same) = i.owned u j h.0 in
            unfold close_connection in
            ground
              (arith, i.serving u j h.0, unregister-rest o sv, h.1 b, e, same, eq_iff b.session u);
        routed =
            unfold close_connection in
            rw ((unregister-rest o sv).1) (All-Kept sv tv sv.soon close-Kept i.routed);
      }
    where
      close-Kept : Kept sv (close_connection k fs sv)
      close-Kept j b g =
          unfold close_connection in
          ground (arith, unregister-rest (sv.connections k).binding sv, g)

  end_serve-Inv : (fs : List ℕ) (sv : Server) → Inv sv → Inv (end_serve k fs sv)
  unfolding end_serve
  end_serve-Inv fs sv i =
      if_both Inv (is_closed_stage (sv.connections k).stage) sv _ i (close_connection-Inv fs sv i)

  refuse-Inv : (r : Response) (sv : Server) → Inv sv → Inv (refuse k r sv)
  unfolding refuse
  refuse-Inv r sv i = on_connection-Inv sv k _ (refl, refl) i

  refuse_frame-Inv :
      (text : String) (fs : List ℕ) (sv : Server) → Inv sv → Inv (refuse_frame k text fs sv)
  unfolding refuse_frame
  refuse_frame-Inv text fs sv i =
      if_both Inv (is_closed_stage (sv.connections k).stage) sv _ i
        (end_serve-Inv fs _ (on_connection-Inv sv k _ (refl, refl) i))

  module _ (sv : Server) (i : Inv sv) (h : (sv.connections k).stage ≡ await_negotiate) where
    with_protocol-Inv :
        (name uuid : String) (rid : Option String) (o : Option Protocol)
        → Inv (with_protocol k name uuid rid o sv)
    unfolding with_protocol
    with_protocol-Inv name uuid rid none = refuse-Inv _ sv i
    with_protocol-Inv name uuid rid (some p) = bind-Inv sv k i name uuid rid h

    with_negotiation-Inv :
        (uuid : String) (rid : Option String) (n : Negotiation)
        → Inv (with_negotiation k uuid rid n sv)
    unfolding with_negotiation
    with_negotiation-Inv uuid rid (undecodable t) = refuse-Inv _ sv i
    with_negotiation-Inv uuid rid (names_protocol name) =
        with_protocol-Inv name uuid rid (lookup name sv.protocols)

    with_envelope-Inv :
        (d : Decoders) (uuid : String) (env : JsonrpcEnvelope) → Inv (with_envelope d k uuid env sv)
    unfolding with_envelope
    with_envelope-Inv d uuid env =
        if_both Inv (not (is_method "$/negotiate" env.method)) _ _ (refuse-Inv _ sv i) (
          if_both Inv (not (is_version env.jsonrpc) || is_none (id_text env.id)) _ _
            (refuse-Inv _ sv i)
            (with_negotiation-Inv uuid (id_text env.id)
              (d.decode_negotiate (raw_params env.params))))

    with_decoded-Inv :
        (d : Decoders) (uuid : String) (x : Decoded) → Inv (with_decoded d k uuid x sv)
    unfolding with_decoded
    with_decoded-Inv d uuid (malformed t) = refuse-Inv _ sv i
    with_decoded-Inv d uuid (not_object t) = refuse-Inv _ sv i
    with_decoded-Inv d uuid (envelope env) = with_envelope-Inv d uuid env

    handle_negotiate-Inv :
        (d : Decoders) (msg uuid : String) → Inv (handle_negotiate d k msg uuid sv)
    unfolding handle_negotiate
    handle_negotiate-Inv d msg uuid = with_decoded-Inv d uuid (d.decode_envelope msg)

  take_frame-Inv :
      (d : Decoders) (msg uuid : String) (f : ℕ) (o : Option ℕ) (stage : Stage) (sv : Server)
      → (sv.connections k).stage ≡ stage
      → Inv sv
      → Inv (take_frame d k msg uuid f o stage sv)
  unfolding take_frame
  take_frame-Inv d msg uuid f (some t) stage sv h i = on_connection-Inv sv k _ (refl, refl) i
  take_frame-Inv d msg uuid f none await_negotiate sv h i = handle_negotiate-Inv sv i h d msg uuid
  take_frame-Inv d msg uuid f none bound sv h i = on_connection-Inv sv k _ (refl, refl) i
  take_frame-Inv d msg uuid f none closed sv h i = i

  receive-Inv :
      (d : Decoders) (msg uuid : String) (f : ℕ) (sv : Server)
      → Inv sv
      → Inv (receive d k msg uuid f sv)
  unfolding receive
  receive-Inv d msg uuid f sv i =
      if_both Inv (is_closed_stage (sv.connections k).stage) sv _ i
        (take_frame-Inv d msg uuid f (sv.connections k).awaiting (sv.connections k).stage sv refl i)

run_first-Inv :
    (xs : List (ℕ × String × Value)) (sv : Server)
    → All (IsRouted sv) xs
    → Inv sv
    → Inv (run_first xs sv)
run_first-Inv [] sv a i = i
run_first-Inv ((k, u, v) ∷ xs) sv a i =
    on_connection-Inv (record sv { soon = xs }) k _ (enqueue_outbound-IsSame (sv.connections k) v)
      (record { unbound = i.unbound; owned = i.owned; serving = i.serving; routed = a.1 })

route_to-Inv :
    (o : Option ℕ) (u : String) (v : Value) (sv : Server)
    → lookup u sv.sessions ≡ o
    → Inv sv
    → Inv (route_to o u v sv)
route_to-Inv none u v sv h i = i
route_to-Inv (some k) u v sv h i = record {
  unbound = i.unbound;
  owned = i.owned;
  serving = i.serving;
  routed = All-append sv sv.soon (k, u, v) i.routed (i.owned u k h);
}

serve-Inv : (d : Decoders) (e : Event) (sv : Server) → Inv sv → Inv (serve d e sv)
unfolding serve route_notification
serve-Inv d (receives k msg uuid f) sv i = receive-Inv k d msg uuid f sv i
serve-Inv d (too_large k text fs) sv i = refuse_frame-Inv k text fs sv i
serve-Inv d (ends k fs) sv i = end_serve-Inv k fs sv i
serve-Inv d (answers k f r) sv i =
    on_connection-Inv sv k _ (on_dispatch_done-IsSame (sv.connections k) f r) i
serve-Inv d (begins k target t) sv i =
    on_connection-Inv sv k _ (next_task-IsSame target t (sv.connections k).tasks (sv.connections k))
      i
serve-Inv d (goes k t) sv i =
    on_connection-Inv sv k _
      (after_go-IsSame (sv.connections k) d.decode_envelope ((sv.connections k).arrived t)) i
serve-Inv d (completes k r) sv i =
    unfold end_transfer resume_rpc in on_connection-Inv sv k _ (refl, refl) i
serve-Inv d (breaks k) sv i =
    unfold break_transfer resume_rpc in on_connection-Inv sv k _ (refl, refl) i
serve-Inv d (takes k) sv i = on_connection-Inv sv k _ (take_outbound-IsSame (sv.connections k)) i
serve-Inv d (writes k) sv i = on_connection-Inv sv k _ (write_held-IsSame (sv.connections k)) i
serve-Inv d (stops k) sv i = unfold stop_writing in on_connection-Inv sv k _ (refl, refl) i
serve-Inv d (routes u v) sv i = route_to-Inv (lookup u sv.sessions) u v sv refl i
serve-Inv d enqueues sv i = run_first-Inv sv.soon sv i.routed i

-- Whatever happens on the server's loop, in whatever order, a session is registered only for an open
-- connection that has negotiated it, and every notification on its way to a connection was routed
-- by the session of that very connection.
pub serve_all-Inv :
    (d : Decoders) (es : List Event) (sv : Server) → Inv sv → Inv (serve_all d es sv)
unfolding serve_all
serve_all-Inv d [] sv i = i
serve_all-Inv d (e ∷ es) sv i = serve_all-Inv d es (serve d e sv) (serve-Inv d e sv i)
