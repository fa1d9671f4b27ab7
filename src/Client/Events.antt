-- ===== src/Client/Events.antt =====
-- truenas_pyjsonrpc_client/client.py: what may happen on the client's event loop, one step each.
use truenas_jsonrpc.Base.{ℕ, String, Bool, Option, List, [], ◌∷◌, ℤ}
use truenas_jsonrpc.Value.{Value}
use truenas_jsonrpc.Client.{Client, begin_invoke, end_invoke, cancel_invoke, end_read_loop}
use truenas_jsonrpc.Client.Messages.{on_message}
use truenas_jsonrpc.Client.Subscriptions.{
  begin_subscribe, abandon_subscribe, finish_subscribe, remove_sub,
}
use truenas_jsonrpc.Client.Transfers.{
  Waits, begin_transfer, prepare, abandon_transfer, resume, finish_transfer,
}

pub data Event : Type 0 where
  invokes : (rid method : String) (params : Value) (progress : Option ℕ) → Event
  ends : (rid : String) → Event
  cancels : (rid : String) (future : ℕ) → Event
  receives : Value → Event
  loses : Event
  subscribes : (rid topic : String) (params : Value) (callback : Option ℕ) → Event
  abandons : (topic : String) (callback : Option ℕ) → Event
  subscribed : (topic : String) (callback : Option ℕ) (result : Value) → Event
  removes : (sub_id : String) → Event
  begins_transfer : (target : Bool) (rid method : String) (params : Value) → Event
  prepares : (rid : String) → Waits → Event
  abandons_transfer : (rid : String) → Event
  resumes : Event
  finishes_transfer : (rid : String) → Event

module _ (read : String → Option ℤ) where
  unfoldable pub perform : Event → Client → Client
  unfolding begin_invoke end_invoke cancel_invoke end_read_loop on_message begin_subscribe
      abandon_subscribe finish_subscribe remove_sub begin_transfer prepare abandon_transfer resume
      finish_transfer
  perform (invokes rid method params progress) c = (begin_invoke rid method params progress c).0
  perform (ends rid) c = end_invoke rid c
  perform (cancels rid f) c = cancel_invoke rid f c
  perform (receives msg) c = (on_message read msg c).0
  perform loses c = end_read_loop c
  perform (subscribes rid topic params cb) c = (begin_subscribe rid topic params cb c).0
  perform (abandons topic cb) c = abandon_subscribe topic cb c
  perform (subscribed topic cb v) c = finish_subscribe topic cb v c
  perform (removes sub_id) c = remove_sub sub_id c
  perform (begins_transfer target rid method params) c =
      (begin_transfer target rid method params c).0
  perform (prepares rid w) c = (prepare rid w c).0
  perform (abandons_transfer rid) c = abandon_transfer rid c
  perform resumes c = resume c
  perform (finishes_transfer rid) c = finish_transfer rid c

  unfoldable pub perform_all : List Event → Client → Client
  unfolding perform
  perform_all [] c = c
  perform_all (e ∷ es) c = perform_all es (perform e c)
