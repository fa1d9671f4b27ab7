-- ===== src/Server/Outbound.antt =====
-- truenas_pyjsonrpc_server/connection.py: `_drain_outbound`, the task that writes what is queued. A
-- round of its loop is two steps, since it takes a message before it waits at the gate.
use truenas_jsonrpc.Base.{
  Bool, true, false, is_some, ◌&&◌, Option, none, some, List, [], ◌∷◌, ◌++◌, is_none, if◌then◌else◌,
}
use truenas_jsonrpc.Value.{Value}
use truenas_jsonrpc.Server.{Connection}

-- `data = await self._outbound.get()`, and the end at the sentinel.
unfoldable pub take_next : List (Option Value) → Connection → Connection
take_next [] c = c
take_next (none ∷ vs) c = record c { outbound = vs; writing = false }
take_next (some v ∷ vs) c = record c { outbound = vs; held = some v }

abbrev pub is_idle : Connection → Bool
is_idle c = c.writing && is_none c.held

unfoldable pub take_outbound : Connection → Connection
unfolding take_next
take_outbound c = if is_idle c then take_next c.outbound c else c

-- `await self._writer_gate.wait()` and `await self._channel.send(data)`
unfoldable pub write_now : Option Value → Connection → Connection
write_now none c = c
write_now (some v) c = record c { held = none; written = c.written ++ (v ∷ []) }

unfoldable pub write_held : Connection → Connection
unfolding write_now
write_held c = if c.gate then write_now c.held c else c

-- The channel is broken, or the task is cancelled: it ends, and what it held is not written.
unfoldable pub stop_writing : Connection → Connection
stop_writing c = record c { held = none; writing = false }

-- `send` writes, or it raises ConnectionError.
unfoldable pub send_held : Bool → Connection → Connection
unfolding write_held stop_writing
send_held true c = write_held c
send_held false c = if c.gate && is_some c.held then stop_writing c else c

-- Rounds of the loop, each as far as it can go; of each it is told whether its `send` writes.
unfoldable pub drain_outbound : List Bool → Connection → Connection
unfolding take_outbound send_held
drain_outbound [] c = c
drain_outbound (ok ∷ oks) c = drain_outbound oks (send_held ok (take_outbound c))
