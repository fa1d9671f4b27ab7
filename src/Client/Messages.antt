-- ===== src/Client/Messages.antt =====
-- truenas_pyjsonrpc_client/client.py: `_on_message`, which resolves a request's future or routes a
-- notification to the callbacks.
use truenas_jsonrpc.Base.{
  ℕ, String, Bool, true, false, ◌==◌, Option, none, some, List, [], ◌∷◌, ◌++◌, map, Dict, lookup, ℤ,
  pos, if◌then◌else◌,
}
use truenas_jsonrpc.Value.{Value, Fields, null, bool, num, str, obj, end, truthy}
use truenas_jsonrpc.Redaction.{field_value}
use truenas_jsonrpc.Client.{
  Client, Future, resolved, failed_rpc, Job, calls, notifies, is_waiting, settle,
}

-- `d.get(k, default)`
abbrev pub get_or : String → Value → Fields → Value
get_or k d fs = elim (field_value k fs) [ none ↦ d | some v ↦ v ]

-- `int(x)`; Python's reading of a text is a parameter, and none is an exception.
unfoldable pub int_value : (String → Option ℤ) → Value → Option ℤ
int_value read (num n) = some n
int_value read (bool true) = some (pos 1)
int_value read (bool false) = some (pos 0)
int_value read (str t) = read t
int_value read _ = none

unfoldable pub rpc_error : Option ℤ → Fields → Option Future
rpc_error none fs = none
rpc_error (some n) fs = some (failed_rpc n (get_or "message" (str "") fs) (get_or "data" null fs))

-- `JsonRpcError(e.get("code", 0), ...)`, where `e` is an object.
unfoldable pub error_fields : (String → Option ℤ) → Value → Option Future
unfolding rpc_error int_value field_value
error_fields read (obj fs) = rpc_error (int_value read (get_or "code" (num (pos 0)) fs)) fs
error_fields read _ = none

-- `msg["error"] or {}`, and the exception that it makes; none where making it raises.
unfoldable pub error_outcome : (String → Option ℤ) → Value → Option Future
unfolding error_fields truthy
error_outcome read e = if truthy e then error_fields read e else error_fields read (obj end)

-- What a reply settles its future with.
unfoldable pub reply_outcome : (String → Option ℤ) → Fields → Option Future
unfolding error_outcome field_value
reply_outcome read fs = elim (field_value "error" fs) [
  | none ↦ some (resolved (get_or "result" null fs))
  | some e ↦ error_outcome read e
]

-- The state, and whether an exception has left `_on_message`.
abbrev pub Handled : Type 0
Handled = Client × Bool

unfoldable pub settle_reply : ℕ → Option Future → Client → Handled
unfolding settle
settle_reply f none c = (c, true)
settle_reply f (some x) c = (settle f x c, false)

-- A message with the id of a pending request.
unfoldable pub on_reply : (String → Option ℤ) → ℕ → Fields → Client → Handled
unfolding settle_reply reply_outcome
on_reply read f fs c =
    if is_waiting (c.futures f) then settle_reply f (reply_outcome read fs) c else (c, false)

abbrev pub push : List Job → Client → Client
push js c = record c { backchannel = c.backchannel ++ js }

-- No callback of the topic: the global handler, or the queue.
unfoldable pub fall_back : String → Value → Client → Client
fall_back method params c = elim c.on_notification [
  | none ↦ record c { notifications = c.notifications ++ ((method, params) ∷ []) }
  | some h ↦ push (notifies h method params ∷ []) c
]

-- The callbacks of a topic, none where it has no entry.
abbrev pub callbacks_of : Option (List ℕ) → List ℕ
callbacks_of none = []
callbacks_of (some cbs) = cbs

unfoldable pub deliver : String → Value → List ℕ → Client → Client
unfolding fall_back
deliver method params [] c = fall_back method params c
deliver method params (cb ∷ cbs) c = push (map (λ x. calls x params) (cb ∷ cbs)) c

unfoldable pub on_topic : String → Value → Client → Client
unfolding deliver
on_topic method params c = deliver method params (callbacks_of (lookup method c.sub_callbacks)) c

-- The place that a params dict names in a table of requests.
abbrev pub by_request : Option Value → Dict ℕ → Option ℕ
by_request (some (str i)) d = lookup i d
by_request _ d = none

-- `$/transferReady`, with params that are a dict.
unfoldable pub on_ready : Fields → Client → Client
unfolding settle field_value
on_ready fs c = elim (by_request (field_value "id" fs) c.transfer_ready) [
  | none ↦ c
  | some f ↦ if is_waiting (c.futures f) then settle f (resolved (obj fs)) c else c
]

-- `$/progress`, with params that are a dict; without a callback of the request it is a topic.
unfoldable pub on_progress : Fields → Client → Client
unfolding on_topic field_value
on_progress fs c = elim (by_request (field_value "id" fs) c.progress_callbacks) [
  | none ↦ on_topic "$/progress" (obj fs) c
  | some cb ↦ push (calls cb (obj fs) ∷ []) c
]

unfoldable pub route : String → Value → Client → Client
unfolding on_ready on_progress on_topic
route method (obj fs) c =
    if method == "$/transferReady"
    then on_ready fs c
    else if method == "$/progress"
    then on_progress fs c
    else on_topic method (obj fs) c
route method params c = on_topic method params c

-- A message without the id of a pending request; a method that is no text is ignored.
unfoldable pub on_notification : Fields → Client → Client
unfolding route field_value
on_notification fs c = elim (field_value "method" fs) [
  | some (str method) ↦ route method (get_or "params" null fs) c
  | _ ↦ c
]

-- `_on_message`; what is no object is ignored.
unfoldable pub on_message : (String → Option ℤ) → Value → Client → Handled
unfolding on_reply on_notification field_value
on_message read (obj fs) c = elim (by_request (field_value "id" fs) c.pending) [
  | none ↦ (on_notification fs c, false)
  | some f ↦ on_reply read f fs c
]
on_message read _ c = (c, false)
