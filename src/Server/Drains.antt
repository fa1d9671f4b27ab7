-- ===== src/Server/Drains.antt =====
-- truenas_pyjsonrpc_server/connection.py: rounds of the writer's loop, and the close.
use truenas_jsonrpc.Base.{
  ℕ, suc, ◌≡◌, Bool, true, false, Option, none, some, List, [], ◌∷◌, ◌++◌, map, take,
}
use truenas_jsonrpc.Value.{Value}
use truenas_jsonrpc.Server.{Server, Connection}
use truenas_jsonrpc.Server.Outbound.{take_outbound, send_held}

-- The messages of a queue, before its sentinel.
abbrev pub messages : List Value → List (Option Value)
messages vs = map (λ v. some v) vs

abbrev pub held_items : Option Value → List Value
held_items none = []
held_items (some v) = v ∷ []

-- A round of the writer's loop.
abbrev round : Bool → Connection → Connection
round ok c = send_held ok (take_outbound c)

-- How many sends write before the first that raises.
abbrev pub successes : List Bool → ℕ
successes [] = 0
successes (true ∷ oks) = suc (successes oks)
successes (false ∷ oks) = 0

record IsReady (c : Connection) : Type 0 where
  alive : c.writing ≡ true
  free : c.held ≡ none
  released : c.gate ≡ true

-- The task has ended, and has written nothing more.
abbrev IsOver : Connection → Connection → Type 0
IsOver d c = (d.writing ≡ false) × (d.held ≡ none) × (d.written ≡ c.written)

-- What has been written of what was to be, when the task has ended.
abbrev Drained : List Bool → List Value → Connection → Connection → Type 0
Drained oks vs d c = (d.written ≡ c.written ++ take (successes oks) vs) × (d.writing ≡ false)
