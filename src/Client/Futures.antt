-- ===== src/Client/Futures.antt =====
-- truenas_pyjsonrpc_client/client.py: the outcome of a future, under what happens on the loop.
use truenas_jsonrpc.Base.{
  ℕ, ◌≤◌, ◌<◌, String, ◌≡◌, refl, ◌∙◌, Bool, false, Option, none, some, List, [], ◌∷◌, values, ℤ,
  arith, if◌then◌else◌,
}
use truenas_jsonrpc.Value.{Value, null, bool, num, str, arr, obj}
use truenas_jsonrpc.Client.{
  Client, Future, failed_client, is_waiting, settle, register, begin_invoke, end_invoke,
  cancel_invoke, fail_all, fail_pending, end_read_loop,
}
use truenas_jsonrpc.Client.Messages.{
  on_message, on_reply, settle_reply, on_notification, route, on_ready, on_progress, on_topic,
}
use truenas_jsonrpc.Client.Subscriptions.{
  begin_subscribe, add_callback, drop_callback, abandon_subscribe, finish_subscribe, remove_sub,
}
use truenas_jsonrpc.Client.Transfers.{
  begin_transfer, await_ready, prepare, by_final, use_ready, use_direction, park, abandon_transfer,
  resume, finish_transfer,
}
use truenas_jsonrpc.Client.Events.{
  Event, invokes, ends, cancels, receives, loses, subscribes, abandons, subscribed, removes,
  begins_transfer, prepares, abandons_transfer, resumes, finishes_transfer, perform, perform_all,
}

-- A step of the client that gives no new state to a future that is done.
pub record Keeps (f : ℕ) (c d : Client) : Type 0 where
  pub grows : c.next_future ≤ d.next_future
  pub done : is_waiting (c.futures f) ≡ false → d.futures f ≡ c.futures f

unchanged-Keeps : (f : ℕ) (c : Client) → Keeps f c c
unchanged-Keeps f c = record { grows = omega arith; done = λ h. refl }

-- So does a step that leaves the futures alone.
same-Keeps :
    (f : ℕ) (c d : Client) → d.futures ≡ c.futures → d.next_future ≡ c.next_future → Keeps f c d
same-Keeps f c d e n = record { grows = omega (arith, n); done = λ h i. e i f }

module _ (f : ℕ) (c : Client) where
  -- A future is settled after a look at its state.
  settle-Keeps :
      (g : ℕ) (x : Future) → Keeps f c (if is_waiting (c.futures g) then settle g x c else c)
  unfolding settle
  settle-Keeps g x = ground arith

  register-Keeps : (rid : String) (p : Option ℕ) → f < c.next_future → Keeps f c (register rid p c)
  unfolding register
  register-Keeps rid p l = ground arith

  end_invoke-Keeps : (rid : String) → Keeps f c (end_invoke rid c)
  unfolding end_invoke
  end_invoke-Keeps rid = ground arith

  begin_invoke-Keeps :
      (rid method : String) (params : Value) (p : Option ℕ)
      → f < c.next_future
      → Keeps f c (begin_invoke rid method params p c).0
  unfolding begin_invoke end_invoke
  begin_invoke-Keeps rid method params p l = ground (arith, register-Keeps rid p l)

  on_topic-Keeps : (m : String) (v : Value) → Keeps f c (on_topic m v c)
  unfolding on_topic
  on_topic-Keeps m v = ground arith

  on_ready-Keeps : (fs : truenas_jsonrpc.Value.Fields) → Keeps f c (on_ready fs c)
  unfolding on_ready settle
  on_ready-Keeps fs = ground arith

  on_progress-Keeps : (fs : truenas_jsonrpc.Value.Fields) → Keeps f c (on_progress fs c)
  unfolding on_progress
  on_progress-Keeps fs = ground (arith, on_topic-Keeps "$/progress" (obj fs))

  route-Keeps : (m : String) (v : Value) → Keeps f c (route m v c)
  unfolding route
  route-Keeps m (obj fs) =
      ground (arith, on_ready-Keeps fs, on_progress-Keeps fs, on_topic-Keeps m (obj fs))
  route-Keeps m null = on_topic-Keeps m null
  route-Keeps m (bool b) = on_topic-Keeps m (bool b)
  route-Keeps m (num n) = on_topic-Keeps m (num n)
  route-Keeps m (str s) = on_topic-Keeps m (str s)
  route-Keeps m (arr vs) = on_topic-Keeps m (arr vs)

  on_notification-Keeps : (fs : truenas_jsonrpc.Value.Fields) → Keeps f c (on_notification fs c)
  unfolding on_notification
  on_notification-Keeps fs = grind (arith, route-Keeps)

  on_reply-Keeps :
      (read : String → Option ℤ) (g : ℕ) (fs : truenas_jsonrpc.Value.Fields)
      → Keeps f c (on_reply read g fs c).0
  unfolding on_reply settle_reply settle
  on_reply-Keeps read g fs = ground arith

  pub on_message-Keeps : (read : String → Option ℤ) (v : Value) → Keeps f c (on_message read v c).0
  unfolding on_message
  on_message-Keeps read (obj fs) = grind (arith, on_notification-Keeps, on_reply-Keeps)
  on_message-Keeps read null = unchanged-Keeps f c
  on_message-Keeps read (bool b) = unchanged-Keeps f c
  on_message-Keeps read (num n) = unchanged-Keeps f c
  on_message-Keeps read (str s) = unchanged-Keeps f c
  on_message-Keeps read (arr vs) = unchanged-Keeps f c

  drop_callback-Keeps : (topic : String) (cb : ℕ) → Keeps f c (drop_callback topic cb c)
  unfolding drop_callback
  drop_callback-Keeps topic cb = same-Keeps f c _ refl refl

  cancel_invoke-Keeps : (rid : String) (g : ℕ) → Keeps f c (cancel_invoke rid g c)
  unfolding cancel_invoke settle end_invoke
  cancel_invoke-Keeps rid g = ground arith

compose-Keeps : {f : ℕ} {c d e : Client} → Keeps f c d → Keeps f d e → Keeps f c e
compose-Keeps h k = record { grows = omega arith; done = λ w. k.done (rw (h.done w) w) ∙ h.done w }

module _ (f : ℕ) where
  pub fail_all-Keeps : (t : String) (gs : List ℕ) (c : Client) → Keeps f c (fail_all t gs c)
  unfolding fail_all
  fail_all-Keeps t [] c = unchanged-Keeps f c
  fail_all-Keeps t (g ∷ gs) c =
      compose-Keeps (settle-Keeps f c g (failed_client t)) (fail_all-Keeps t gs _)

  pub end_read_loop-Keeps : (c : Client) → Keeps f c (end_read_loop c)
  unfolding end_read_loop
  end_read_loop-Keeps c =
      let k = fail_all-Keeps "connection closed" (values c.pending) c in
      record { grows = k.grows; done = k.done }

  module _ (c : Client) where
    abandon_subscribe-Keeps :
        (topic : String) (cb : Option ℕ) → Keeps f c (abandon_subscribe topic cb c)
    unfolding abandon_subscribe drop_callback
    abandon_subscribe-Keeps topic none = unchanged-Keeps f c
    abandon_subscribe-Keeps topic (some cb) = same-Keeps f c _ refl refl

    begin_subscribe-Keeps :
        (rid topic : String) (params : Value) (cb : Option ℕ)
        → f < c.next_future
        → Keeps f c (begin_subscribe rid topic params cb c).0
    unfolding begin_subscribe add_callback abandon_subscribe drop_callback begin_invoke end_invoke
        register
    begin_subscribe-Keeps rid topic params none l = ground arith
    begin_subscribe-Keeps rid topic params (some cb) l = ground arith

    finish_subscribe-Keeps :
        (topic : String) (cb : Option ℕ) (v : Value) → Keeps f c (finish_subscribe topic cb v c)
    unfolding finish_subscribe
    finish_subscribe-Keeps topic cb v = ground arith

    remove_sub-Keeps : (sub_id : String) → Keeps f c (remove_sub sub_id c)
    unfolding remove_sub drop_callback
    remove_sub-Keeps sub_id = ground arith

    begin_transfer-Keeps :
        (target : Bool) (rid method : String) (params : Value)
        → f < c.next_future
        → Keeps f c (begin_transfer target rid method params c).0
    unfolding begin_transfer await_ready register
    begin_transfer-Keeps target rid method params l = ground arith

    use_direction-Keeps :
        (rid : String) (v : Value) (d : Option truenas_jsonrpc.Types.TransferDirection)
        → Keeps f c (use_direction rid v d c).0
    unfolding use_direction park abandon_transfer
    use_direction-Keeps rid v d = ground arith

    use_ready-Keeps : (rid : String) (x : Future) → Keeps f c (use_ready rid x c).0
    unfolding use_ready abandon_transfer
    use_ready-Keeps rid x = grind (arith, use_direction-Keeps)

    by_final-Keeps : (rid : String) (x y : Future) → Keeps f c (by_final rid x y c).0
    unfolding by_final abandon_transfer
    by_final-Keeps rid x y = grind (arith, use_ready-Keeps)

    prepare-Keeps :
        (rid : String) (w : truenas_jsonrpc.Client.Transfers.Waits) → Keeps f c (prepare rid w c).0
    unfolding prepare
    prepare-Keeps rid w = by_final-Keeps rid (c.futures w.final) (c.futures w.ready)

    pub perform-Keeps :
        (read : String → Option ℤ) (e : Event) → f < c.next_future → Keeps f c (perform read e c)
    unfolding perform
    perform-Keeps read (invokes rid m v p) l = begin_invoke-Keeps f c rid m v p l
    perform-Keeps read (ends rid) l = end_invoke-Keeps f c rid
    perform-Keeps read (cancels rid g) l = cancel_invoke-Keeps f c rid g
    perform-Keeps read (receives v) l = on_message-Keeps f c read v
    perform-Keeps read loses l = end_read_loop-Keeps c
    perform-Keeps read (subscribes rid t v cb) l = begin_subscribe-Keeps rid t v cb l
    perform-Keeps read (abandons t cb) l = abandon_subscribe-Keeps t cb
    perform-Keeps read (subscribed t cb v) l = finish_subscribe-Keeps t cb v
    perform-Keeps read (removes i) l = remove_sub-Keeps i
    perform-Keeps read (begins_transfer t rid m v) l = begin_transfer-Keeps t rid m v l
    perform-Keeps read (prepares rid w) l = prepare-Keeps rid w
    perform-Keeps read (abandons_transfer rid) l =
        unfold abandon_transfer in same-Keeps f c _ refl refl
    perform-Keeps read resumes l = unfold resume in same-Keeps f c _ refl refl
    perform-Keeps read (finishes_transfer rid) l =
        unfold finish_transfer in same-Keeps f c _ refl refl

  -- Whatever happens on the client's loop, in whatever order, a future that has an outcome is not
  -- settled again: no second reply, late error, cancellation or loss of the connection changes it.
  pub perform_all-settled :
      (read : String → Option ℤ) (es : List Event) (c : Client)
      → f < c.next_future
      → is_waiting (c.futures f) ≡ false
      → (perform_all read es c).futures f ≡ c.futures f
  unfolding perform_all
  perform_all-settled read [] c l h = refl
  perform_all-settled read (e ∷ es) c l h =
      let k = perform-Keeps c read e l in
      perform_all-settled read es (perform read e c) (omega (arith, k.grows)) (rw (k.done h) h)
      ∙ k.done h
