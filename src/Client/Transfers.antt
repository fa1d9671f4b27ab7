-- ===== src/Client/Transfers.antt =====
-- truenas_pyjsonrpc_client/client.py: the raw-fd transfer: `_transfer_prep` before and after its wait,
-- `_transfer_finish`, and what `transfer` itself keeps. The channel's target is a parameter.
use truenas_jsonrpc.Base.{
  ℕ, ◌+◌, String, Bool, true, false, ◌==◌, Option, none, some, insert, erase, if◌then◌else◌,
}
use truenas_jsonrpc.Value.{Value, null, str, obj, pair, end}
use truenas_jsonrpc.Types.{TransferDirection, download, upload}
use truenas_jsonrpc.Redaction.{field_value}
use truenas_jsonrpc.Registry.{update}
use truenas_jsonrpc.Client.{Client, Future, waiting, resolved, register, request_message, send}
use truenas_jsonrpc.Client.Messages.{get_or}

-- The futures of a transfer: its final response, and `$/transferReady`.
pub record Waits : Type 0 where
  pub final : ℕ
  pub ready : ℕ

-- `_transfer_prep` as far as its wait: a ClientError, or the futures that it waits for.
pub data Begun : Type 0 where
  refused : String → Begun
  awaits : Waits → Begun

unfoldable pub await_ready : ℕ → String → Client → Client
await_ready f rid c = record c {
  futures = update c.futures f waiting;
  next_future = f + 1;
  transfer_ready = insert rid f c.transfer_ready;
}

-- `target` tells whether the channel can host a transfer.
unfoldable pub begin_transfer : Bool → String → String → Value → Client → Client × Begun
unfolding register request_message await_ready
begin_transfer target rid method params c =
    if c.connected
    then (if target
        then (
          send (request_message rid method params)
              (await_ready (c.next_future + 1) rid (register rid none c)),
          awaits (record { final = c.next_future; ready = c.next_future + 1 }),
        )
        else (c, refused "raw-fd transfer requires a plain or kTLS connection"))
    else (c, refused "not connected")

-- What `_transfer_prep` comes to after its wait: the direction and the interim result, the error
-- that the final future holds, a ClientError, or another exception.
pub data Prepared : Type 0 where
  prepared : TransferDirection → Value → Prepared
  server_error : Future → Prepared
  client_error : String → Prepared
  raised : String → Prepared

-- `TransferDirection(ready["direction"])`
unfoldable pub direction_of : Option Value → Option TransferDirection
direction_of (some (str t)) =
    if t == "download" then some download else if t == "upload" then some upload else none
direction_of _ = none

-- The `finally`, where the descriptor has not reached the caller: nothing of the request stays,
-- and the transport reads again.
unfoldable pub abandon_transfer : String → Client → Client
abandon_transfer rid c = record c {
  transfer_ready = erase rid c.transfer_ready;
  pending = erase rid c.pending;
  paused = false;
}

-- `$/transferGo`
unfoldable pub go_message : String → Value
go_message rid = obj (
    pair "jsonrpc" (str "2.0")
      (pair "method" (str "$/transferGo") (pair "params" (obj (pair "id" (str rid) end)) end)))

-- The reader is parked; a client that consumes tells the server to start.
unfoldable pub park : String → TransferDirection → Client → Client
unfolding go_message
park rid download c = send (go_message rid) (record c { paused = true })
park rid upload c = record c { paused = true }

unfoldable pub use_direction :
    String → Value → Option TransferDirection → Client → Client × Prepared
unfolding abandon_transfer park
use_direction rid result none c = (abandon_transfer rid c, raised "direction")
use_direction rid result (some d) c =
    (record (park rid d c) { transfer_ready = erase rid c.transfer_ready }, prepared d result)

-- `ready_fut.result()`, and `ready["direction"]`.
unfoldable pub use_ready : String → Future → Client → Client × Prepared
unfolding use_direction abandon_transfer direction_of field_value
use_ready rid (resolved (obj fs)) c =
    use_direction rid (get_or "result" null fs) (direction_of (field_value "direction" fs)) c
use_ready rid _ c = (abandon_transfer rid c, raised "ready")

-- The final future first: a server that rejects the transfer answers the request.
unfoldable pub by_final : String → Future → Future → Client → Client × Prepared
unfolding use_ready abandon_transfer
by_final rid waiting ready c = use_ready rid ready c
by_final rid (resolved v) ready c =
    (abandon_transfer rid c, client_error "transfer rejected before $/transferReady")
by_final rid x ready c = (abandon_transfer rid c, server_error x)

-- `_transfer_prep` after its wait.
unfoldable pub prepare : String → Waits → Client → Client × Prepared
unfolding by_final
prepare rid w c = by_final rid (c.futures w.final) (c.futures w.ready) c

-- `_transfer_finish`: the transport reads again before the wait for the final response; its
-- `finally` drops the request.
unfoldable pub resume : Client → Client
resume c = record c { paused = false }

unfoldable pub finish_transfer : String → Client → Client
finish_transfer rid c = record c { pending = erase rid c.pending }
