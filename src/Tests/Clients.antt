-- ===== src/Tests/Clients.antt =====
-- The theorems on the client, each at a concrete input.
use truenas_jsonrpc.Base.{
  ℕ, ◌≡◌, refl, ◌++◌, Bool, true, false, Option, none, some, List, [], ◌∷◌, String, ℤ, arith,
  nat_eq, lookup, if◌then◌else◌,
}
use truenas_jsonrpc.Value.{null, bool, str}
use truenas_jsonrpc.Types.{success, failure, response_value}
use truenas_jsonrpc.Client.{Client, Future, resolved, failed_rpc, failed_client, is_waiting}
use truenas_jsonrpc.Client.Events.{
  Event, invokes, loses, receives, subscribes, subscribed, removes, abandons, perform, perform_all,
}
use truenas_jsonrpc.Client.Futures.{perform_all-settled}
use truenas_jsonrpc.Client.Waits.{perform_all-lost}
use truenas_jsonrpc.Client.Replies.{perform_all-answered}
use truenas_jsonrpc.Client.Registrations.{Ledger, account_all, registered}
use truenas_jsonrpc.Client.Refines.{Refines, perform_all-Refines}
use truenas_jsonrpc.Protocol.Transfers.{respond}
use truenas_jsonrpc.Protocol.Dispatch.{dispatch_one, resolve_id, uuid_id}
use truenas_jsonrpc.Tests.{demo, codec, request_uuid, start}

abbrev no_ints : String → Option ℤ
no_ints t = none

abbrev client : Client
client = record {
  connected = true;
  closed = false;
  in_transfer = false;
  paused = false;
  on_notification = none;
  futures = λ f. if nat_eq f 0 then resolved null else failed_client "unused";
  next_future = 1;
  pending = [];
  progress_callbacks = [];
  transfer_ready = [];
  sub_callbacks = [];
  sub_ids = [];
  backchannel = [];
  notifications = [];
  sent = [];
}

-- A request is sent and answered twice, the second time with an error.
abbrev answers : List Event
answers =
    invokes request_uuid "login" null none
    ∷ receives (response_value (success (some request_uuid) (bool true)))
    ∷ receives (response_value (failure (some request_uuid) (ℤ.pos 3) "late" null))
    ∷ loses
    ∷ []

perform_all-settled_example : (perform_all no_ints answers client).futures 0 ≡ client.futures 0
perform_all-settled_example = perform_all-settled 0 no_ints answers client (omega arith) refl

abbrev calling : Client
calling = record client {
  futures = λ f. if nat_eq f 1 then Future.waiting else failed_client "unused";
  next_future = 2;
  pending = (request_uuid, 1) ∷ [];
}

calling-pending : lookup request_uuid calling.pending ≡ some 1
unfolding lookup
calling-pending = refl

perform_all-lost_example :
    is_waiting (
      (perform_all no_ints
          ((invokes "b" "ping" null none ∷ []) ++ (loses ∷ (invokes "c" "ping" null none ∷ [])))
          calling).futures
        1)
    ≡ false
perform_all-lost_example =
    perform_all-lost no_ints request_uuid 1 (invokes "b" "ping" null none ∷ [])
      (invokes "c" "ping" null none ∷ []) calling calling-pending (omega arith) (refl, tt)

login_response :
    (dispatch_one demo codec "u" "login" 0 start).1
    ≡ respond (success (some request_uuid) (bool true))
unfolding dispatch_one truenas_jsonrpc.Uuid.is_uuid
login_response = refl

login_id : resolve_id (some (str request_uuid)) ≡ uuid_id request_uuid
unfolding resolve_id truenas_jsonrpc.Uuid.is_uuid
login_id = refl

login_waits :
    is_waiting
      ((perform_all no_ints (invokes request_uuid "login" null none ∷ []) client).futures 1)
    ≡ true
unfolding perform_all perform
login_waits = refl

perform_all-answered_example :
    (perform_all no_ints
        (invokes request_uuid "login" null none
          ∷ ([]
              ++ (receives (response_value (success (some request_uuid) (bool true)))
                  ∷ (loses ∷ []))))
        client).futures
      1
    ≡ resolved (bool true)
perform_all-answered_example =
    perform_all-answered no_ints demo codec "u" "login" 0 start
      (record {
        jsonrpc = some (str "2.0");
        method = some (str "$/sessionSetup");
        id = some (str request_uuid);
        params = none;
      })
      (success (some request_uuid) (bool true)) request_uuid "login" null none [] (loses ∷ [])
      client refl login_id login_response refl tt login_waits

abbrev empty_ledger : Ledger
empty_ledger = record { connected = true; bag = λ t k. 0; ids = [] }

client-Refines : Refines client empty_ledger
client-Refines = record {
  same_connected = refl;
  same_ids = refl;
  same_bag = λ t k.
      unfold registered truenas_jsonrpc.Client.Registrations.count truenas_jsonrpc.Base.lookup in
      refl;
}

abbrev subscriptions : List Event
subscriptions =
    subscribes "a" "pool" null (some 7)
    ∷ subscribed "pool" (some 7) (str "s1")
    ∷ subscribes "b" "pool" null (some 7)
    ∷ removes "s1"
    ∷ abandons "pool" (some 7)
    ∷ []

perform_all-Refines_example :
    Refines (perform_all no_ints subscriptions client) (account_all subscriptions empty_ledger)
perform_all-Refines_example =
    perform_all-Refines no_ints subscriptions client empty_ledger client-Refines

abbrev busy : Client
busy = record client {
  in_transfer = true;
  sub_callbacks = ("pool", 7 ∷ []) ∷ [];
  sub_ids = ("s1", ("pool", 7)) ∷ [];
}
