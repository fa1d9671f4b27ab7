-- ===== src/Client.antt =====
-- truenas_pyjsonrpc_client/client.py: the state that a BaseClient keeps on its event loop, and the
-- life of one request: `_invoke` up to the wait, its `finally`, and what ends the wait. A callback
-- is a number, and so is an asyncio future, whose state is kept apart since the waiting call holds it.
pub mod Messages
pub mod Subscriptions
pub mod Transfers
pub mod Calls
pub mod Events
pub mod Futures
pub mod Waits
pub mod Replies
pub mod Tables
pub mod Refines
pub mod Registrations
pub mod Guards
use truenas_jsonrpc.Base.{
  ℕ, suc, ◌+◌, String, Bool, true, false, Option, none, some, List, [], ◌∷◌, ◌++◌, Dict, erase,
  insert, values, ℤ, if◌then◌else◌,
}
use truenas_jsonrpc.Value.{Value, Fields, null, str, obj, pair, end}
use truenas_jsonrpc.Registry.{update}

-- `asyncio.Future`: not done, a result, a JsonRpcError with its code, message and data, a
-- ClientError, or cancelled.
pub data Future : Type 0 where
  waiting cancelled : Future
  resolved : Value → Future
  failed_rpc : (code : ℤ) (message : Value) (detail : Value) → Future
  failed_client : String → Future

-- What the backchannel thread is to call.
pub data Job : Type 0 where
  calls : (callback : ℕ) (params : Value) → Job
  notifies : (handler : ℕ) (method : String) (params : Value) → Job

-- `BaseClient`; `connected` is `_channel is not None`, `paused` whether the transport's reading
-- is paused, and `sent` what was written to the channel.
pub record Client : Type 0 where
  pub connected : Bool
  pub closed : Bool
  pub in_transfer : Bool
  pub paused : Bool
  pub on_notification : Option ℕ
  pub futures : ℕ → Future
  pub next_future : ℕ
  pub pending : Dict ℕ
  pub progress_callbacks : Dict ℕ
  pub transfer_ready : Dict ℕ
  pub sub_callbacks : Dict (List ℕ)
  pub sub_ids : Dict (String × ℕ)
  pub backchannel : List Job
  pub notifications : List (String × Value)
  pub sent : List Value

abbrev pub is_waiting : Future → Bool
is_waiting waiting = true
is_waiting cancelled = false
is_waiting (resolved v) = false
is_waiting (failed_rpc c m d) = false
is_waiting (failed_client t) = false

-- `fut.set_result(...)` and `fut.set_exception(...)`. It is the callers that look at `fut.done()`; on a
-- future that is done asyncio raises InvalidStateError, where this takes the new state.
unfoldable pub settle : ℕ → Future → Client → Client
settle f x c = record c { futures = update c.futures f x }

with_params : Value → Fields
with_params null = end
with_params v = pair "params" v end

-- The request that `_invoke` sends; params that are None are left out.
unfoldable pub request_message : String → String → Value → Value
unfolding with_params
request_message rid method params = obj (
    pair "jsonrpc" (str "2.0")
      (pair "method" (str method) (pair "id" (str rid) (with_params params))))

abbrev pub send : Value → Client → Client
send m c = record c { sent = c.sent ++ (m ∷ []) }

pub with_progress : String → Option ℕ → Dict ℕ → Dict ℕ
with_progress rid none d = d
with_progress rid (some cb) d = insert rid cb d

-- The future of a request, and its entries in the tables.
unfoldable pub register : String → Option ℕ → Client → Client
unfolding with_progress
register rid progress c = record c {
  futures = update c.futures c.next_future waiting;
  next_future = c.next_future + 1;
  pending = insert rid c.next_future c.pending;
  progress_callbacks = with_progress rid progress c.progress_callbacks;
}

-- The `finally` of `_invoke`.
unfoldable pub end_invoke : String → Client → Client
end_invoke rid c = record c {
  pending = erase rid c.pending;
  progress_callbacks = erase rid c.progress_callbacks;
}

-- `_invoke` as far as its wait: `rid` is the `uuid4()` it draws, and the result the future that it
-- waits for, or none where it raises ClientError("not connected").
unfoldable pub begin_invoke : String → String → Value → Option ℕ → Client → Client × Option ℕ
unfolding register request_message end_invoke
begin_invoke rid method params progress c =
    if c.connected
    then (send (request_message rid method params) (register rid progress c), some c.next_future)
    else (end_invoke rid (register rid progress c), none)

-- The wait is cancelled (`_settle` after its timeout): the future that is awaited is cancelled, which
-- does nothing to one that is done, and the `finally` runs.
unfoldable pub cancel_invoke : String → ℕ → Client → Client
unfolding settle end_invoke
cancel_invoke rid f c =
    end_invoke rid (if is_waiting (c.futures f) then settle f cancelled c else c)

pub fail_all : String → List ℕ → Client → Client
unfolding settle
fail_all t [] c = c
fail_all t (f ∷ fs) c =
    fail_all t fs (if is_waiting (c.futures f) then settle f (failed_client t) c else c)

-- `_fail_pending`
unfoldable pub fail_pending : String → Client → Client
unfolding fail_all
fail_pending t c = record (fail_all t (values c.pending) c) { pending = [] }

-- The end of `_read_loop`: end of file, an error of the channel, or an exception in `_on_message`.
unfoldable pub end_read_loop : Client → Client
unfolding fail_pending
end_read_loop = fail_pending "connection closed"
