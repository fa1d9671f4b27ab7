-- ===== src/Server/Takeover.antt =====
-- truenas_pyjsonrpc_server/connection.py: `_run_transfer`, which takes the connection over for a
-- raw-fd transfer, cut at its waits. What the callback does with the descriptor is not modelled.
use truenas_jsonrpc.Base.{
  ℕ, String, Bool, true, false, not, ◌&&◌, Option, none, some, List, [], ◌∷◌, ◌++◌, if◌then◌else◌,
}
use truenas_jsonrpc.Value.{Value, str}
use truenas_jsonrpc.Types.{
  TransferDirection, download, upload, Response, error_envelope, request_failed,
}
use truenas_jsonrpc.Session.{Peer, unix, tcp}
use truenas_jsonrpc.Protocol.{Decoded, envelope, malformed, not_object}
use truenas_jsonrpc.Protocol.Transfers.{Transfer}
use truenas_jsonrpc.Server.{Connection, send_response}
use truenas_jsonrpc.Server.Negotiate.{is_method}

abbrev pub is_unix : Option Peer → Bool
is_unix none = false
is_unix (some p) = elim p.transport [ unix ↦ true | tcp ↦ false ]

-- `_write_frame_now`
abbrev pub write_frame : Value → Connection → Connection
write_frame v c = record c { written = c.written ++ (v ∷ []) }

-- The hand-over up to its first wait: an upload goes on to the callback with the reader paused, a
-- download waits for `$/transferGo` under the future `t`.
unfoldable pub hand_over : ℕ → Transfer → TransferDirection → Connection → Connection
hand_over t x upload c = write_frame x.ready (record c { gate = false; paused = true })
hand_over t x download c = write_frame x.ready (record c { gate = false; awaiting = some t })

-- `target` tells whether the channel has a plaintext descriptor.
unfoldable pub start_transfer : Bool → ℕ → Transfer → Connection → Connection
unfolding hand_over error_envelope
start_transfer target t x c =
    if x.af_unix && not (is_unix c.peer)
    then send_response
        (error_envelope x.rid request_failed "Request failed"
          (str "fd passing requires an AF_UNIX connection"))
        c
    else if not target
    then send_response
        (error_envelope x.rid request_failed "Request failed"
          (str "raw-fd transfer requires a plain or kTLS connection"))
        c
    else hand_over t x x.direction c

-- A task of `_on_dispatch_done` starts.
unfoldable pub next_task : Bool → ℕ → List Transfer → Connection → Connection
unfolding start_transfer
next_task target t [] c = c
next_task target t (x ∷ xs) c = start_transfer target t x (record c { tasks = xs })

-- The callback is over: the reader and the writer go on. After an exception there is no response.
unfoldable pub resume_rpc : Connection → Connection
resume_rpc c = record c { paused = false; gate = true }

unfoldable pub end_transfer : Response → Connection → Connection
unfolding resume_rpc
end_transfer r c = send_response r (resume_rpc c)

unfoldable pub break_transfer : Connection → Connection
unfolding resume_rpc
break_transfer c = resume_rpc (record c { awaiting = none })

abbrev pub is_go : Decoded → Bool
is_go (envelope env) = is_method "$/transferGo" env.method
is_go (malformed t) = false
is_go (not_object t) = false

-- `go = await self._await_frame`: anything but `$/transferGo` breaks the transfer off.
unfoldable pub after_go : (String → Decoded) → Option String → Connection → Connection
unfolding break_transfer is_method
after_go decode none c = c
after_go decode (some msg) c =
    if is_go (decode msg) then record c { paused = true } else break_transfer c
