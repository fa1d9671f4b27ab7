-- ===== src/Client/Tables.antt =====
-- truenas_pyjsonrpc_client/client.py: what leaves the tables of the subscriptions alone.
use truenas_jsonrpc.Base.{
  ℕ, String, ◌≡◌, refl, Bool, Option, List, [], ◌∷◌, ℤ, arith, values, if◌then◌else◌,
}
use truenas_jsonrpc.Value.{Value, Fields, null, bool, num, str, arr, obj}
use truenas_jsonrpc.Types.{TransferDirection}
use truenas_jsonrpc.Client.{
  Client, Future, failed_client, is_waiting, settle, register, begin_invoke, end_invoke,
  cancel_invoke, fail_all, end_read_loop,
}
use truenas_jsonrpc.Client.Messages.{
  on_message, on_reply, on_notification, route, on_ready, on_progress, on_topic,
}
use truenas_jsonrpc.Client.Transfers.{
  Waits, begin_transfer, await_ready, prepare, by_final, use_ready, use_direction, park,
  abandon_transfer,
}

-- The connection and the tables of the subscriptions are left as they are.
pub record Untouched (c d : Client) : Type 0 where
  pub same_connected : d.connected ≡ c.connected
  pub same_callbacks : d.sub_callbacks ≡ c.sub_callbacks
  pub same_ids : d.sub_ids ≡ c.sub_ids

pub unchanged-Untouched : (c : Client) → Untouched c c
unchanged-Untouched c = record { same_connected = refl; same_callbacks = refl; same_ids = refl }

module _ (c : Client) where
  pub begin_invoke-Untouched :
      (i m : String) (v : Value) (p : Option ℕ) → Untouched c (begin_invoke i m v p c).0
  unfolding begin_invoke end_invoke register
  begin_invoke-Untouched i m v p = ground arith

  settle-Untouched :
      (f : ℕ) (x : Future) → Untouched c (if is_waiting (c.futures f) then settle f x c else c)
  unfolding settle
  settle-Untouched f x = ground arith

  on_topic-Untouched : (m : String) (v : Value) → Untouched c (on_topic m v c)
  unfolding on_topic
  on_topic-Untouched m v = ground arith

  on_ready-Untouched : (fs : Fields) → Untouched c (on_ready fs c)
  unfolding on_ready settle
  on_ready-Untouched fs = ground arith

  on_progress-Untouched : (fs : Fields) → Untouched c (on_progress fs c)
  unfolding on_progress
  on_progress-Untouched fs = ground (arith, on_topic-Untouched "$/progress" (obj fs))

  route-Untouched : (m : String) (v : Value) → Untouched c (route m v c)
  unfolding route
  route-Untouched m (obj fs) =
      ground (arith, on_ready-Untouched fs, on_progress-Untouched fs, on_topic-Untouched m (obj fs))
  route-Untouched m null = on_topic-Untouched m null
  route-Untouched m (bool b) = on_topic-Untouched m (bool b)
  route-Untouched m (num n) = on_topic-Untouched m (num n)
  route-Untouched m (str s) = on_topic-Untouched m (str s)
  route-Untouched m (arr vs) = on_topic-Untouched m (arr vs)

  on_notification-Untouched : (fs : Fields) → Untouched c (on_notification fs c)
  unfolding on_notification
  on_notification-Untouched fs = grind (arith, route-Untouched)

  on_reply-Untouched :
      (read : String → Option ℤ) (g : ℕ) (fs : Fields) → Untouched c (on_reply read g fs c).0
  unfolding on_reply settle
  on_reply-Untouched read g fs = ground arith

  pub on_message-Untouched :
      (read : String → Option ℤ) (v : Value) → Untouched c (on_message read v c).0
  unfolding on_message
  on_message-Untouched read (obj fs) = grind (arith, on_notification-Untouched, on_reply-Untouched)
  on_message-Untouched read null = unchanged-Untouched c
  on_message-Untouched read (bool b) = unchanged-Untouched c
  on_message-Untouched read (num n) = unchanged-Untouched c
  on_message-Untouched read (str s) = unchanged-Untouched c
  on_message-Untouched read (arr vs) = unchanged-Untouched c

  pub begin_transfer-Untouched :
      (t : Bool) (i m : String) (v : Value) → Untouched c (begin_transfer t i m v c).0
  unfolding begin_transfer await_ready register
  begin_transfer-Untouched t i m v = ground arith

  use_direction-Untouched :
      (i : String) (v : Value) (d : Option TransferDirection)
      → Untouched c (use_direction i v d c).0
  unfolding use_direction park abandon_transfer
  use_direction-Untouched i v d = ground arith

  use_ready-Untouched : (i : String) (x : Future) → Untouched c (use_ready i x c).0
  unfolding use_ready abandon_transfer
  use_ready-Untouched i x = grind (arith, use_direction-Untouched)

  by_final-Untouched : (i : String) (x y : Future) → Untouched c (by_final i x y c).0
  unfolding by_final abandon_transfer
  by_final-Untouched i x y = grind (arith, use_ready-Untouched)

  pub prepare-Untouched : (i : String) (w : Waits) → Untouched c (prepare i w c).0
  unfolding prepare
  prepare-Untouched i w = by_final-Untouched i (c.futures w.final) (c.futures w.ready)

  pub cancel_invoke-Untouched : (i : String) (f : ℕ) → Untouched c (cancel_invoke i f c)
  unfolding cancel_invoke end_invoke settle
  cancel_invoke-Untouched i f = ground arith

compose-Untouched : {c d e : Client} → Untouched c d → Untouched d e → Untouched c e
compose-Untouched h k = ground (arith, h, k)

fail_all-Untouched : (t : String) (gs : List ℕ) (c : Client) → Untouched c (fail_all t gs c)
unfolding fail_all
fail_all-Untouched t [] c = unchanged-Untouched c
fail_all-Untouched t (g ∷ gs) c =
    compose-Untouched (settle-Untouched c g (failed_client t)) (fail_all-Untouched t gs _)

pub end_read_loop-Untouched : (c : Client) → Untouched c (end_read_loop c)
unfolding end_read_loop
end_read_loop-Untouched c =
    let k = fail_all-Untouched "connection closed" (values c.pending) c in
    record {
      same_connected = k.same_connected;
      same_callbacks = k.same_callbacks;
      same_ids = k.same_ids;
    }
