-- ===== src/Server/Config.antt =====
-- truenas_pyjsonrpc_server/server.py: the checks of `JSONRPCServer.__init__`.
use truenas_jsonrpc.Base.{
  ℕ, ◌≡◌, refl, Bool, true, false, not, ◌||◌, Option, some, List, [], ◌∷◌, ◌++◌, arith, String,
  lookup, Dict, is_some, if◌then◌else◌,
}
use mathlib.Core.Option.{none-ne-some}
use truenas_jsonrpc.Types.{is_established}
use truenas_jsonrpc.Protocol.{Protocol, Codec, Method, World}
use truenas_jsonrpc.Protocol.Setup.{IsTable}
use truenas_jsonrpc.Protocol.Dispatch.{dispatch_message}
use truenas_jsonrpc.Protocol.Dispatch.Gate.{gate_blocks, IsRefusal}

-- Which transports are configured.
pub record Transports : Type 0 where
  pub unix_config : Bool
  pub tcp_config : Bool
  pub websocket_config : Bool

-- The three ValueErrors; the text of the last sorts the protocols' names.
pub data Construction : Type 0 where
  accepted : Construction
  no_protocols : Construction
  no_transport : Construction
  unauthenticated : (network protocols : List String) → Construction

abbrev pub when : Bool → String → List String
when b t = if b then t ∷ [] else []

-- The network transports.
abbrev pub network : Transports → List String
network t = when t.tcp_config "tcp_config" ++ when t.websocket_config "websocket_config"

-- The protocols without `$/sessionSetup`.
unfoldable pub without_setup : Dict Protocol → List String
without_setup [] = []
without_setup ((n, p) ∷ ps) = when (not (is_some p.session_setup)) n ++ without_setup ps

abbrev pub check_exposed : List String → List String → Construction
check_exposed [] names = accepted
check_exposed (n ∷ ns) [] = accepted
check_exposed (n ∷ ns) (p ∷ ps) = unauthenticated (n ∷ ns) (p ∷ ps)

-- `JSONRPCServer.__init__`
unfoldable pub check_server : Dict Protocol → Transports → Construction
unfolding without_setup
check_server [] t = no_protocols
check_server (e ∷ ps) t =
    if not (t.unix_config || t.tcp_config || t.websocket_config)
    then no_transport
    else check_exposed (network t) (without_setup (e ∷ ps))

without_setup-nil :
    (ps : Dict Protocol) (n : String) (p : Protocol)
    → without_setup ps ≡ []
    → lookup n ps ≡ some p
    → is_some p.session_setup ≡ true
unfolding without_setup lookup
without_setup-nil [] n p h e = absurd (none-ne-some p e)
without_setup-nil ((i, q) ∷ ps) n p h e = ground (arith, h, e, without_setup-nil ps n p)

check_exposed-accepted :
    (ns ps : List String) → (ns ≡ [] → ⊥) → check_exposed ns ps ≡ accepted → ps ≡ []
check_exposed-accepted [] ps n h = absurd (n refl)
check_exposed-accepted (x ∷ xs) [] n h = refl
check_exposed-accepted (x ∷ xs) (p ∷ ps) n h = cc

network_some : (t : Transports) → (t.tcp_config || t.websocket_config) ≡ true → network t ≡ [] → ⊥
network_some t h e = ground (arith, h, e)

all_set_up :
    (ps : Dict Protocol) (t : Transports)
    → check_server ps t ≡ accepted
    → (t.tcp_config || t.websocket_config) ≡ true
    → without_setup ps ≡ []
unfolding check_server
all_set_up [] t a h = cc
all_set_up (q ∷ qs) t a h =
    check_exposed-accepted (network t) (without_setup (q ∷ qs)) (network_some t h) exposed
  where
    exposed : check_exposed (network t) (without_setup (q ∷ qs)) ≡ accepted
    exposed = ground (arith, a, h)

-- What a server accepts with a TCP or WebSocket transport serves nobody who has not set up a session:
-- on each of its protocols a message for a registered method that is not marked `pre_auth`, on a
-- session that is not ESTABLISHED, changes nothing, and is answered by a failure or, for a
-- notification, by nothing.
pub check_server-guards :
    (ps : Dict Protocol) (t : Transports) (n : String) (p : Protocol) (codec : Codec)
    (uuid name raw : String) (rid : Option String) (note : Bool) (s : ℕ) (w : World) (m : Method)
    → check_server ps t ≡ accepted
    → (t.tcp_config || t.websocket_config) ≡ true
    → lookup n ps ≡ some p
    → IsTable p
    → is_established (w.sessions s).lifecycle ≡ false
    → lookup name p.methods ≡ some m
    → m.pre_auth ≡ false
    → let x = dispatch_message p codec uuid name raw rid note s w in (x.0 ≡ w) × IsRefusal x.1
check_server-guards ps t n p codec uuid name raw rid note s w m a network_facing l tab e found pre =
    gate_blocks p codec uuid name raw rid note s w m tab
      (without_setup-nil ps n p (all_set_up ps t a network_facing) l) e found pre
