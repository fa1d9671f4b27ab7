-- ===== src/Registry.antt =====
-- truenas_pyjsonrpc/protocol.py: the shared state behind the protocol's condition variable, and
-- one function for each critical section. An object that Python shares by reference (a
-- SessionState, a RequestState) is a number here, its place on a heap.
pub mod Delivery
pub mod Done
pub mod Identity
use truenas_jsonrpc.Base.{
  ℕ, suc, ◌+◌, String, Bool, true, false, not, Option, none, some, List, [], ◌∷◌, ◌++◌, map, Dict,
  lookup, insert, erase, values, select, length, ◌==◌, nat_eq, is_some, if◌then◌else◌,
}
use truenas_jsonrpc.Value.{Value, Fields, str, obj, pair, end}

-- `RequestState`; `cancel_event` is `none` where the method is not cancellable, and otherwise
-- whether the event is set.
pub record RequestState : Type 0 where
  pub id : Option String
  pub session_state : ℕ
  pub count : ℕ
  pub cancel_event : Option Bool
  pub audit_message : Option String

-- `_Pending`; `data` is the message before it is encoded.
pub record Pending : Type 0 where
  pub session : ℕ
  pub request_id : Option String
  pub message : Value

-- `Subscription`
pub record Subscription : Type 0 where
  pub id : String
  pub session_state : ℕ
  pub params : Value

pub record Registry : Type 0 where
  pub requests : ℕ → RequestState
  pub next_request : ℕ
  pub inflight : Dict ℕ
  pub outbound : List Pending
  pub subscriptions : Dict (Dict Subscription)

abbrev no_request : RequestState
no_request = record {
  id = none;
  session_state = 0;
  count = 0;
  cancel_event = none;
  audit_message = none;
}

unfoldable pub empty_registry : Registry
empty_registry = record {
  requests = λ _. no_request;
  next_request = 0;
  inflight = [];
  outbound = [];
  subscriptions = [];
}

-- An assignment to a field of the object at a place of the heap.
abbrev pub update {ℓ} : {A : Type ℓ} → (ℕ → A) → ℕ → A → ℕ → A
update h a x b = if nat_eq a b then x else h b

abbrev notification : String → Value → Value
notification method params =
    obj (pair "jsonrpc" (str "2.0") (pair "method" (str method) (pair "params" params end)))

-- `RequestState(...)`, and `_inflight[rid] = request_state` where the request has an id.
record_inflight : Option String → ℕ → Dict ℕ → Dict ℕ
record_inflight none r d = d
record_inflight (some i) r d = insert i r d

unfoldable pub register_request : Option String → ℕ → Bool → Registry → Registry
unfolding record_inflight
register_request rid session cancellable g = record g {
  requests = update g.requests g.next_request (record {
    id = rid;
    session_state = session;
    count = 0;
    cancel_event = if cancellable then some false else none;
    audit_message = none;
  });
  next_request = suc g.next_request;
  inflight = record_inflight rid g.next_request g.inflight;
}

-- What `update_progress` may be given.
pub record Progress : Type 0 where
  pub percent : Option Value
  pub description : Option Value
  pub extra : Option Value

optional_field : String → Option Value → Fields → Fields
optional_field k none rest = rest
optional_field k (some v) rest = pair k v rest

-- The `$/progress` message for a request id.
progress_message : String → Progress → Value
unfolding optional_field
progress_message rid p = notification "$/progress" (
    obj (
      pair "id" (str rid) (
        optional_field "percent" p.percent
          (optional_field "description" p.description (optional_field "extra" p.extra end)))))

-- `request_state.count += 1`, and the append to the queue.
count_up : ℕ → Registry → Registry
count_up r g = record g {
  requests = update g.requests r (record (g.requests r) { count = (g.requests r).count + 1 });
}

emit_progress : Option ℕ → ℕ → String → Progress → Registry → Registry
unfolding count_up progress_message
emit_progress none r rid p g = g
emit_progress (some holder) r rid p g = record (count_up r g) {
  outbound =
      g.outbound
      ++ (record {
        session = (g.requests r).session_state;
        request_id = some rid;
        message = progress_message rid p;
      }
          ∷ []);
}

progress_of : Option String → ℕ → Progress → Registry → Registry
unfolding emit_progress
progress_of none r p g = g
progress_of (some rid) r p g = emit_progress (lookup rid g.inflight) r rid p g

-- `_update_progress`
unfoldable pub update_progress : ℕ → Progress → Registry → Registry
unfolding progress_of
update_progress r p g = progress_of (g.requests r).id r p g

-- `p.request_id != rid`
unfoldable pub is_for_other : String → Option String → Bool
is_for_other rid none = true
is_for_other rid (some i) = not (i == rid)

unfoldable pub purge : String → List Pending → List Pending
purge rid [] = []
purge rid (p ∷ ps) =
    let rest = purge rid ps in if is_for_other rid p.request_id then p ∷ rest else rest

complete_of : Option String → ℕ → Registry → Registry
complete_of none r g = g
complete_of (some rid) r g = record g {
  inflight = erase rid g.inflight;
  outbound = if nat_eq (g.requests r).count 0 then g.outbound else purge rid g.outbound;
}

-- `_complete`
unfoldable pub complete : ℕ → Registry → Registry
unfolding complete_of
complete r g = complete_of (g.requests r).id r g

-- The pending messages that one publication makes, one for each subscriber.
unfoldable pub fan_out : Value → List Subscription → List Pending
fan_out m [] = []
fan_out m (s ∷ ss) =
    record { session = s.session_state; request_id = none; message = m } ∷ fan_out m ss

subscribers_of : Option (Dict Subscription) → List Subscription
unfolding values
subscribers_of none = []
subscribers_of (some subs) = values subs

-- `_subscriptions.get(method)`'s values, none where the topic has no entry.
unfoldable pub subscribers : String → Registry → List Subscription
unfolding subscribers_of
subscribers topic g = subscribers_of (lookup topic g.subscriptions)

-- The critical section of `send_notification`.
unfoldable pub publish : String → Value → Registry → Registry
publish topic payload g = record g {
  outbound = g.outbound ++ fan_out (notification topic payload) (subscribers topic g);
}

polled : List Pending → Registry → Option (ℕ × Value) × Registry
polled [] g = (none, g)
polled (p ∷ ps) g = (some (p.session, p.message), record g { outbound = ps })

-- `poll_notification` without blocking; a blocked call is this one, made when it wakes.
unfoldable pub poll_notification : Registry → Option (ℕ × Value) × Registry
unfolding polled
poll_notification g = polled g.outbound g

topic_of : Option (Dict Subscription) → Dict Subscription
topic_of none = []
topic_of (some subs) = subs

-- `_subscriptions.setdefault(method.name, {})[sub_id] = Subscription(...)`
unfoldable pub subscribe : String → String → ℕ → Value → Registry → Registry
unfolding topic_of
subscribe topic sub_id session params g = record g {
  subscriptions =
      insert topic
        (insert sub_id (record { id = sub_id; session_state = session; params = params })
          (topic_of (lookup topic g.subscriptions)))
        g.subscriptions;
}

-- The first topic that has the id loses it.
unfoldable pub unsubscribe_in : String → Dict (Dict Subscription) → Dict (Dict Subscription) × Bool
unsubscribe_in i [] = ([], false)
unsubscribe_in i ((t, subs) ∷ d) =
    let (rest, found) = unsubscribe_in i d in
    if is_some (lookup i subs) then ((t, erase i subs) ∷ d, true) else ((t, subs) ∷ rest, found)

-- `unsubscribe`
unfoldable pub unsubscribe : String → Registry → Registry × Bool
unfolding unsubscribe_in
unsubscribe i g =
    let (d, found) = unsubscribe_in i g.subscriptions in (record g { subscriptions = d }, found)

-- The entries of other sessions, `uuid_of` giving a session's uuid by its place.
unfoldable pub keep_others : (ℕ → String) → String → Dict Subscription → Dict Subscription
keep_others uuid_of u [] = []
keep_others uuid_of u ((i, s) ∷ subs) =
    let rest = keep_others uuid_of u subs in
    if uuid_of s.session_state == u then rest else (i, s) ∷ rest

unfoldable pub drop_session :
    (ℕ → String) → String → Dict (Dict Subscription) → Dict (Dict Subscription)
drop_session uuid_of u [] = []
drop_session uuid_of u ((t, subs) ∷ d) = (t, keep_others uuid_of u subs) ∷ drop_session uuid_of u d

-- How many entries all topics hold.
unfoldable pub subscription_count : Dict (Dict Subscription) → ℕ
subscription_count [] = 0
subscription_count ((t, subs) ∷ d) = length subs + subscription_count d

-- How many entries of a topic belong to a session, and of all topics.
unfoldable pub owned_count : (ℕ → String) → String → Dict Subscription → ℕ
owned_count uuid_of u [] = 0
owned_count uuid_of u ((i, s) ∷ subs) =
    let rest = owned_count uuid_of u subs in if uuid_of s.session_state == u then suc rest else rest

unfoldable pub removed_count : (ℕ → String) → String → Dict (Dict Subscription) → ℕ
unfolding owned_count
removed_count uuid_of u [] = 0
removed_count uuid_of u ((t, subs) ∷ d) = owned_count uuid_of u subs + removed_count uuid_of u d

-- `unsubscribe_all`, with the number of entries that it removes.
unfoldable pub unsubscribe_all : (ℕ → String) → ℕ → Registry → Registry × ℕ
unfolding drop_session keep_others removed_count
unsubscribe_all uuid_of session g =
    let u = uuid_of session in
    (
      record g { subscriptions = drop_session uuid_of u g.subscriptions },
      removed_count uuid_of u g.subscriptions,
    )

-- `_find_subscription`
unfoldable pub find_subscription : String → Dict (Dict Subscription) → Option Subscription
find_subscription i [] = none
find_subscription i ((t, subs) ∷ d) =
    let rest = find_subscription i d in elim (lookup i subs) [ none ↦ rest | some s ↦ some s ]

set_event : Option Bool → Option Bool
set_event none = none
set_event (some b) = some true

-- `target.cancel_event.set()`
unfoldable pub set_cancelled : ℕ → Registry → Registry
unfolding set_event
set_cancelled r g = record g {
  requests =
      update g.requests r
        (record (g.requests r) { cancel_event = set_event (g.requests r).cancel_event });
}

-- `RequestState.set_audit`
unfoldable pub set_audit : ℕ → String → Registry → Registry
set_audit r m g = record g {
  requests = update g.requests r (record (g.requests r) { audit_message = some m });
}

-- `RequestState.cancelled`
unfoldable pub cancelled : RequestState → Bool
cancelled s = elim s.cancel_event [ none ↦ false | some b ↦ b ]
