-- ===== src/Tests/Servers.antt =====
-- The theorems on the server, each at a concrete input.
use truenas_jsonrpc.Base.{
  ℕ, ◌≡◌, refl, ◌++◌, ◌==◌, true, false, none, some, List, [], ◌∷◌, String, Bool, lookup,
  if◌then◌else◌,
}
use truenas_jsonrpc.Value.{Value, null, str}
use truenas_jsonrpc.Types.{JsonrpcEnvelope, success, download, returned}
use truenas_jsonrpc.Protocol.{envelope, malformed}
use truenas_jsonrpc.Protocol.Transfers.{Transfer, silent}
use truenas_jsonrpc.Server.{Server, Connection, await_negotiate, bound}
use truenas_jsonrpc.Server.Negotiate.{Decoders, names_protocol}
use truenas_jsonrpc.Server.Events.{
  Event, receives, ends, routes, enqueues, takes, writes, goes, completes, answers, serve_all,
}
use truenas_jsonrpc.Server.Routing.{Inv, serve_all-Inv}
use truenas_jsonrpc.Server.Drains.{held_items}
use truenas_jsonrpc.Server.Order.{serve_all-in_order}
use truenas_jsonrpc.Server.Order.Steps.{queued}
use truenas_jsonrpc.Server.Negotiated.{serve_all-IsNegotiated, Binds}
use truenas_jsonrpc.Server.Config.{check_server, check_server-guards}
use truenas_jsonrpc.Protocol.Dispatch.{dispatch_message}
use truenas_jsonrpc.Protocol.Dispatch.Gate.{IsRefusal}
use truenas_jsonrpc.Tests.Protocols.{demo-IsTable}
use truenas_jsonrpc.Tests.{demo, codec, start, request_uuid, ping}

abbrev negotiate_envelope : JsonrpcEnvelope
negotiate_envelope = record {
  jsonrpc = some (str "2.0");
  method = some (str "$/negotiate");
  id = some (str "1");
  params = some "demo";
}

abbrev go_envelope : JsonrpcEnvelope
go_envelope = record {
  jsonrpc = some (str "2.0");
  method = some (str "$/transferGo");
  id = none;
  params = none;
}

abbrev decoders : Decoders
decoders = record {
  decode_envelope = λ t.
      if t == "negotiate"
      then envelope negotiate_envelope
      else if t == "go"
      then envelope go_envelope
      else malformed "no JSON";
  decode_negotiate = λ t. names_protocol t;
}

abbrev connection : Connection
connection = record {
  peer = none;
  stage = await_negotiate;
  binding = none;
  outbound = [];
  held = none;
  writing = true;
  gate = true;
  written = [];
  inflight = [];
  tasks = [];
  awaiting = none;
  arrived = λ i. none;
  paused = false;
}

abbrev server : Server
server = record {
  name = some "here";
  protocols = ("demo", demo) ∷ [];
  sessions = [];
  connections = λ k. connection;
  soon = [];
}

server-Inv : Inv server
server-Inv = record {
  unbound = λ k h. refl;
  owned = λ u k h. absurd (none_some u k h);
  serving = λ u k h. absurd (none_some u k h);
  routed = tt;
}
  where
    none_some : (u : String) (k : ℕ) → lookup u server.sessions ≡ some k → ⊥
    none_some u k h = unfold lookup in cc

-- Two clients negotiate, one is notified, the other is lost.
abbrev traffic : List Event
traffic =
    receives 0 "negotiate" "s0" 0
    ∷ receives 1 "negotiate" "s1" 1
    ∷ receives 1 "call" "x" 2
    ∷ routes "s0" (str "news")
    ∷ ends 1 (2 ∷ [])
    ∷ answers 1 2 silent
    ∷ enqueues
    ∷ takes 0
    ∷ writes 0
    ∷ []

serve_all-Inv_example : Inv (serve_all decoders traffic server)
serve_all-Inv_example = serve_all-Inv decoders traffic server server-Inv

abbrev negotiation : List Event
negotiation = receives 0 "other" "s0" 0 ∷ receives 0 "negotiate" "s1" 1 ∷ []

becomes_bound :
    ((serve_all decoders negotiation server).connections 0).binding
    ≡ some (record { protocol = "demo"; session = "s1" })
unfolding serve_all lookup
becomes_bound = refl

serve_all-IsNegotiated_example :
    (before after : List Event) × (e : Event) × (negotiation ≡ before ++ (e ∷ after))
    × Binds decoders
        (serve_all decoders before server)
        e
        0
        (record { protocol = "demo"; session = "s1" })
serve_all-IsNegotiated_example =
    serve_all-IsNegotiated decoders 0 negotiation server
      (record { protocol = "demo"; session = "s1" }) refl becomes_bound

-- Two messages are queued and one is held at the gate by a transfer.
abbrev gated : Server
gated = record server {
  connections = λ k. record connection {
    outbound = some (str "b") ∷ some (str "c") ∷ [];
    held = some (str "a");
    gate = false;
  };
}

-- The fourth send would raise.
abbrev three_sends : List Bool
three_sends = true ∷ true ∷ true ∷ false ∷ []

abbrev download_task : Transfer
download_task = record {
  rid = some "1";
  direction = download;
  params = null;
  session_state = 0;
  ready = str "ready";
  af_unix = false;
  method = ping;
  parts = record {
    transfer_direction = download;
    negotiate = λ v s w. ([], returned null);
    transfer = λ t w. ([], returned null);
    af_unix = false;
  };
  request = record { method = "ping"; id = some "1"; params = null; roles = [] };
}

abbrev transferring : Server
transferring = record server {
  connections = λ k. record connection {
    stage = bound;
    tasks = download_task ∷ [];
    outbound = some (str "news") ∷ [];
  };
}

-- The client's `$/transferGo` arrives while the notification is on its way.
abbrev raw_phase : List Event
raw_phase =
    takes 0 ∷ goes 0 7 ∷ receives 0 "go" "u" 1 ∷ writes 0 ∷ goes 0 7 ∷ ends 1 [] ∷ writes 0 ∷ []

-- A reply is queued behind the two messages that wait for the gate, and the transfer ends.
abbrev release : List Event
release = completes 3 (success (some "1") null) ∷ writes 3 ∷ takes 3 ∷ writes 3 ∷ ends 3 [] ∷ []

serve_all-in_order_example :
    let c = gated.connections 3 in
    let e = (serve_all decoders release gated).connections 3 in
    (added : List Value) × (e.written ++ (held_items e.held ++ queued e.outbound)
      ≡ (c.written ++ (held_items c.held ++ queued c.outbound)) ++ added)
serve_all-in_order_example =
    serve_all-in_order decoders 3 release gated (tt, (tt, (tt, (tt, (tt, tt)))))

check_server-guards_example :
    let x = dispatch_message demo codec "u" "ping" "null" (some request_uuid) false 0 start in
    (x.0 ≡ start) × IsRefusal x.1
unfolding lookup check_server
check_server-guards_example =
    check_server-guards (("demo", demo) ∷ [])
      (record { unix_config = false; tcp_config = true; websocket_config = false }) "demo" demo
      codec "u" "ping" "null" (some request_uuid) false 0 start ping refl refl refl demo-IsTable
      refl refl refl
