-- ===== src/Client/Calls.antt =====
-- truenas_pyjsonrpc_client/client.py: the guards of the public calls, on the caller's thread, and the
-- argument of `recv_fds`.
use truenas_jsonrpc.Base.{ℕ, String, true, false, Option, none, some, ℤ, pos, if◌then◌else◌}
use truenas_jsonrpc.Value.{Value, null, bool, num, str, obj, pair, end}
use truenas_jsonrpc.Redaction.{field_value}
use truenas_jsonrpc.Client.{Client, begin_invoke}
use truenas_jsonrpc.Client.Subscriptions.{begin_subscribe, remove_sub}

-- A public call: refused with a ClientError, finished at once, or under way on the loop.
pub data Called : Type 0 where
  refused : String → Called
  not_connected finished : Called
  waits_for : ℕ → Called

abbrev waits : Option ℕ → Called
waits none = not_connected
waits (some f) = waits_for f

-- `call`, as far as its wait.
unfoldable pub call : String → String → Value → Option ℕ → Client → Client × Called
unfolding begin_invoke
call rid method params progress c =
    if c.closed
    then (c, refused "client is closed")
    else if c.in_transfer
    then (c, refused "a raw-fd transfer is in progress on this connection")
    else (let (c', o) = begin_invoke rid method params progress c in (c', waits o))

-- `subscribe`, as far as its wait.
unfoldable pub subscribe : String → String → Value → Option ℕ → Client → Client × Called
unfolding begin_subscribe
subscribe rid topic params cb c =
    if c.closed
    then (c, refused "client is closed")
    else (let (c', o) = begin_subscribe rid topic params cb c in (c', waits o))

-- The `finally` of `unsubscribe`: `_remove_sub` runs on the loop when `call` has ended, so at once
-- where it was refused; where it waits, it is the event `removes` after the wait.
unfoldable pub after_cancel : String → Client × Called → Client × Called
after_cancel sub_id (c, waits_for f) = (c, waits_for f)
after_cancel sub_id (c, refused t) = (remove_sub sub_id c, refused t)
after_cancel sub_id (c, not_connected) = (remove_sub sub_id c, not_connected)
after_cancel sub_id (c, finished) = (remove_sub sub_id c, finished)

-- `unsubscribe`, as far as its wait.
unfoldable pub unsubscribe : String → String → Client → Client × Called
unfolding call after_cancel
unsubscribe rid sub_id c =
    if c.closed
    then (c, finished)
    else after_cancel sub_id
        (call rid "$/cancelRequest" (obj (pair "target_id" (str sub_id) end)) none c)

-- `transfer` takes the connection for itself, or is refused.
unfoldable pub take_connection : Client → Client × Option String
take_connection c =
    if c.closed
    then (c, some "client is closed")
    else if c.in_transfer
    then (c, some "a raw-fd transfer is already in progress")
    else (record c { in_transfer = true }, none)

-- The `finally` of `transfer`, and a transfer callback that raised: the client is closed for good.
unfoldable pub release_connection : Client → Client
release_connection c = record c { in_transfer = false }

unfoldable pub callback_failed : Client → Client
callback_failed c = record c { closed = true }

-- `close`: the second one does nothing; the first sends `$/sessionClose`.
unfoldable pub close : String → Client → Client
unfolding begin_invoke
close rid c =
    if c.closed
    then c
    else (begin_invoke rid "$/sessionClose" null none (record c { closed = true })).0

count_of : Option Value → Option ℤ
count_of (some (num n)) = some n
count_of (some (bool true)) = some (pos 1)
count_of (some (bool false)) = some (pos 0)
count_of _ = none

-- How many descriptors `recv_fds` takes: `maxfds`, or the `count` of the interim result; none is a
-- ClientError.
unfoldable pub fd_count : Option ℤ → Value → Option ℤ
unfolding count_of field_value
fd_count (some n) result = some n
fd_count none (obj fs) = count_of (field_value "count" fs)
fd_count none _ = none
