-- ===== src/Server/Exclusive.antt =====
-- truenas_pyjsonrpc_server/connection.py: the writer's gate, and what is written during a transfer.
use truenas_jsonrpc.Base.{
  ℕ, ◌≡◌, true, false, Option, none, some, List, [], ◌∷◌, ◌⊎◌, String, nat_eq,
}
use truenas_jsonrpc.Value.{Value}
use truenas_jsonrpc.Protocol.{Protocol}
use truenas_jsonrpc.Server.{Server, Connection}
use truenas_jsonrpc.Server.Negotiate.{Decoders}
use truenas_jsonrpc.Server.Takeover.{is_go}
use truenas_jsonrpc.Server.Events.{too_large, ends, begins, goes, completes, breaks, Event, serve}

-- No frame has arrived yet, or one that is `$/transferGo`.
abbrev pub GoesOn : Decoders → Option String → Type 0
GoesOn d none = Unit {0}
GoesOn d (some msg) = is_go (d.decode_envelope msg) ≡ true

-- An event that does not end the transfer of `k`, nor the connection, nor starts another transfer. The
-- wait of a download may end with `$/transferGo`.
abbrev pub IsAside : Decoders → ℕ → Event → Server → Type 0
IsAside d k (too_large j t fs) sv = nat_eq j k ≡ false
IsAside d k (ends j fs) sv = nat_eq j k ≡ false
IsAside d k (begins j target t) sv = nat_eq j k ≡ false
IsAside d k (goes j t) sv = (nat_eq j k ≡ false) ⊎ GoesOn d ((sv.connections j).arrived t)
IsAside d k (completes j r) sv = nat_eq j k ≡ false
IsAside d k (breaks j) sv = nat_eq j k ≡ false
IsAside d k e sv = Unit {0}

-- Every event of a run is one, at the state in which it happens.
abbrev pub AllAside : Decoders → ℕ → List Event → Server → Type 0
AllAside d k [] sv = Unit {0}
AllAside d k (e ∷ es) sv = IsAside d k e sv × AllAside d k es (serve d e sv)

-- The gate and what is written are left as they are.
abbrev IsCalm : Connection → Connection → Type 0
IsCalm c d = (d.gate ≡ c.gate) × (d.written ≡ c.written)

abbrev IsCalmFor : ℕ → Server → Server → Type 0
IsCalmFor k sv tv = IsCalm (sv.connections k) (tv.connections k)
