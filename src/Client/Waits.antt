-- ===== src/Client/Waits.antt =====
-- truenas_pyjsonrpc_client/client.py: the table of pending requests, and the loss of the connection.
use truenas_jsonrpc.Base.{
  ℕ, ◌<◌, String, ◌≡◌, refl, sym, ◌∙◌, ◌⊎◌, inl, inr, Bool, false, Option, none, some, Bool-cases,
  List, [], ◌∷◌, ◌++◌, Dict, lookup, insert, values, lookup-insert, lookup-erase, ℤ, arith, ◌==◌,
  All, if◌then◌else◌,
}
use mathlib.Core.Option.{some-injective, none-ne-some}
use truenas_jsonrpc.Value.{Value, Fields, null, bool, num, str, arr, obj}
use truenas_jsonrpc.Types.{TransferDirection}
use truenas_jsonrpc.Client.{
  Client, Future, failed_client, is_waiting, settle, register, begin_invoke, end_invoke,
  cancel_invoke, fail_all, fail_pending, end_read_loop,
}
use truenas_jsonrpc.Client.Messages.{
  on_message, on_reply, on_notification, route, on_ready, on_progress, on_topic,
}
use truenas_jsonrpc.Client.Subscriptions.{
  begin_subscribe, add_callback, drop_callback, abandon_subscribe, finish_subscribe, remove_sub,
}
use truenas_jsonrpc.Client.Transfers.{
  begin_transfer, await_ready, prepare, by_final, use_ready, use_direction, park, abandon_transfer,
  resume, finish_transfer,
}
use truenas_jsonrpc.Client.Events.{
  Event, invokes, ends, cancels, receives, loses, subscribes, abandons, subscribed, removes,
  begins_transfer, prepares, abandons_transfer, resumes, finishes_transfer, perform, perform_all,
}
use truenas_jsonrpc.Client.Futures.{
  perform-Keeps, perform_all-settled, fail_all-Keeps, end_read_loop-Keeps,
}

-- An event of another request: it does not register `rid` again, and does not end its call.
abbrev pub IsOther : String → Event → Type 0
IsOther rid (invokes i m v p) = (i == rid) ≡ false
IsOther rid (ends i) = (i == rid) ≡ false
IsOther rid (cancels i f) = (i == rid) ≡ false
IsOther rid (subscribes i t v cb) = (i == rid) ≡ false
IsOther rid (begins_transfer t i m v) = (i == rid) ≡ false
IsOther rid (prepares i w) = (i == rid) ≡ false
IsOther rid (abandons_transfer i) = (i == rid) ≡ false
IsOther rid (finishes_transfer i) = (i == rid) ≡ false
IsOther rid _ = Unit {0}

-- The entry of `rid` in the table is left as it is.
abbrev Same : String → Client → Client → Type 0
Same rid c d = lookup rid d.pending ≡ lookup rid c.pending

module _ (rid : String) (c : Client) where
  register-Same : (i : String) (p : Option ℕ) → (i == rid) ≡ false → Same rid c (register i p c)
  unfolding register
  register-Same i p h = lookup-insert i rid c.next_future c.pending ∙ rw h

  end_invoke-Same : (i : String) → (i == rid) ≡ false → Same rid c (end_invoke i c)
  unfolding end_invoke
  end_invoke-Same i h = lookup-erase i rid c.pending ∙ rw h

  begin_invoke-Same :
      (i m : String) (v : Value) (p : Option ℕ)
      → (i == rid) ≡ false
      → Same rid c (begin_invoke i m v p c).0
  unfolding begin_invoke end_invoke
  begin_invoke-Same i m v p h =
      ground (arith, register-Same i p h, lookup-erase i rid (register i p c).pending)

  settle-Same : (f : ℕ) (x : Future) → Same rid c (settle f x c)
  unfolding settle
  settle-Same f x = ground arith

  on_topic-Same : (m : String) (v : Value) → Same rid c (on_topic m v c)
  unfolding on_topic
  on_topic-Same m v = ground arith

  on_ready-Same : (fs : Fields) → Same rid c (on_ready fs c)
  unfolding on_ready settle
  on_ready-Same fs = ground arith

  on_progress-Same : (fs : Fields) → Same rid c (on_progress fs c)
  unfolding on_progress
  on_progress-Same fs = ground (arith, on_topic-Same "$/progress" (obj fs))

  route-Same : (m : String) (v : Value) → Same rid c (route m v c)
  unfolding route
  route-Same m (obj fs) =
      ground (arith, on_ready-Same fs, on_progress-Same fs, on_topic-Same m (obj fs))
  route-Same m null = on_topic-Same m null
  route-Same m (bool b) = on_topic-Same m (bool b)
  route-Same m (num n) = on_topic-Same m (num n)
  route-Same m (str s) = on_topic-Same m (str s)
  route-Same m (arr vs) = on_topic-Same m (arr vs)

  on_notification-Same : (fs : Fields) → Same rid c (on_notification fs c)
  unfolding on_notification
  on_notification-Same fs = grind (arith, route-Same)

  on_reply-Same :
      (read : String → Option ℤ) (g : ℕ) (fs : Fields) → Same rid c (on_reply read g fs c).0
  unfolding on_reply settle
  on_reply-Same read g fs = ground arith

  on_message-Same : (read : String → Option ℤ) (v : Value) → Same rid c (on_message read v c).0
  unfolding on_message
  on_message-Same read (obj fs) = grind (arith, on_notification-Same, on_reply-Same)
  on_message-Same read null = refl
  on_message-Same read (bool b) = refl
  on_message-Same read (num n) = refl
  on_message-Same read (str s) = refl
  on_message-Same read (arr vs) = refl

  begin_subscribe-Same :
      (i t : String) (v : Value) (cb : Option ℕ)
      → (i == rid) ≡ false
      → Same rid c (begin_subscribe i t v cb c).0
  unfolding begin_subscribe add_callback abandon_subscribe drop_callback begin_invoke end_invoke
      register
  begin_subscribe-Same i t v none h = ground (
    arith,
    lookup-insert i rid c.next_future c.pending,
    lookup-erase i rid (insert i c.next_future c.pending),
  )
  begin_subscribe-Same i t v (some cb) h = ground (
    arith,
    lookup-insert i rid c.next_future c.pending,
    lookup-erase i rid (insert i c.next_future c.pending),
  )

  remove_sub-Same : (i : String) → Same rid c (remove_sub i c)
  unfolding remove_sub drop_callback
  remove_sub-Same i = ground arith

  abandon_subscribe-Same : (t : String) (cb : Option ℕ) → Same rid c (abandon_subscribe t cb c)
  unfolding abandon_subscribe drop_callback
  abandon_subscribe-Same t cb = ground arith

  finish_subscribe-Same :
      (t : String) (cb : Option ℕ) (v : Value) → Same rid c (finish_subscribe t cb v c)
  unfolding finish_subscribe
  finish_subscribe-Same t cb v = ground arith

  begin_transfer-Same :
      (t : Bool) (i m : String) (v : Value)
      → (i == rid) ≡ false
      → Same rid c (begin_transfer t i m v c).0
  unfolding begin_transfer await_ready register
  begin_transfer-Same t i m v h = ground (arith, lookup-insert i rid c.next_future c.pending)

  use_direction-Same :
      (i : String) (v : Value) (d : Option TransferDirection)
      → (i == rid) ≡ false
      → Same rid c (use_direction i v d c).0
  unfolding use_direction park abandon_transfer
  use_direction-Same i v d h = ground (arith, lookup-erase i rid c.pending)

  use_ready-Same : (i : String) (x : Future) → (i == rid) ≡ false → Same rid c (use_ready i x c).0
  unfolding use_ready abandon_transfer
  use_ready-Same i x h = grind (arith, use_direction-Same, lookup-erase i rid c.pending)

  by_final-Same : (i : String) (x y : Future) → (i == rid) ≡ false → Same rid c (by_final i x y c).0
  unfolding by_final abandon_transfer
  by_final-Same i x y h = grind (arith, use_ready-Same, lookup-erase i rid c.pending)

  cancel_invoke-Same : (i : String) (f : ℕ) → (i == rid) ≡ false → Same rid c (cancel_invoke i f c)
  unfolding cancel_invoke end_invoke
  cancel_invoke-Same i f h = ground (
    arith,
    settle-Same f truenas_jsonrpc.Client.cancelled,
    lookup-erase i rid (settle f truenas_jsonrpc.Client.cancelled c).pending,
    lookup-erase i rid c.pending,
  )

-- The call of `rid` can still be answered, or has its outcome.
abbrev pub Tracked : String → ℕ → Client → Type 0
Tracked rid f c = (lookup rid c.pending ≡ some f) ⊎ (is_waiting (c.futures f) ≡ false)

abbrev failed : String → ℕ → Client → Client
failed t g c = if is_waiting (c.futures g) then settle g (failed_client t) c else c

fail_all-settled :
    (t : String) (f : ℕ) (rid : String) (d : Dict ℕ) (c : Client)
    → lookup rid d ≡ some f
    → is_waiting ((fail_all t (values d) c).futures f) ≡ false
unfolding fail_all lookup values
fail_all-settled t f rid [] c e = absurd (none-ne-some _ e)
fail_all-settled t f rid ((i, g) ∷ d) c e = elim (Bool-cases (i == rid)) [
  | inl hit ↦
      let same = some-injective g f (rw hit at e) in
      let now = settled_now g c in
      let k = fail_all-Keeps g t (values d) (failed t g c) in rw (sym same) (rw (k.done now) now)
  | inr miss ↦ fail_all-settled t f rid d (failed t g c) (rw miss at e)
]
  where
    settled_now : (g : ℕ) (c : Client) → is_waiting ((failed t g c).futures g) ≡ false
    settled_now g c = unfold settle in ground arith

end_read_loop-settled :
    (rid : String) (f : ℕ) (c : Client)
    → Tracked rid f c
    → is_waiting ((end_read_loop c).futures f) ≡ false
unfolding end_read_loop
end_read_loop-settled rid f c (inl e) = fail_all-settled "connection closed" f rid c.pending c e
end_read_loop-settled rid f c (inr h) = rw ((end_read_loop-Keeps f c).done h) h

module _ (read : String → Option ℤ) (rid : String) (f : ℕ) where
  pub perform-Tracked :
      (e : Event) (c : Client)
      → IsOther rid e
      → f < c.next_future
      → Tracked rid f c
      → Tracked rid f (perform read e c)
  perform-Tracked e c o l (inr h) = inr (rw ((perform-Keeps f c read e l).done h) h)
  perform-Tracked e c o l (inl h) = by_event e o
    where
      by_event : (e : Event) → IsOther rid e → Tracked rid f (perform read e c)
      by_event (invokes i m v p) o = inl (unfold perform in begin_invoke-Same rid c i m v p o ∙ h)
      by_event (ends i) o = inl (unfold perform in end_invoke-Same rid c i o ∙ h)
      by_event (cancels i g) o = inl (unfold perform in cancel_invoke-Same rid c i g o ∙ h)
      by_event (receives v) o = inl (unfold perform in on_message-Same rid c read v ∙ h)
      by_event loses o = inr (unfold perform in end_read_loop-settled rid f c (inl h))
      by_event (subscribes i t v cb) o =
          inl (unfold perform in begin_subscribe-Same rid c i t v cb o ∙ h)
      by_event (abandons t cb) o = inl (unfold perform in abandon_subscribe-Same rid c t cb ∙ h)
      by_event (subscribed t cb v) o =
          inl (unfold perform in finish_subscribe-Same rid c t cb v ∙ h)
      by_event (removes i) o = inl (unfold perform in remove_sub-Same rid c i ∙ h)
      by_event (begins_transfer t i m v) o =
          inl (unfold perform in begin_transfer-Same rid c t i m v o ∙ h)
      by_event (prepares i w) o = inl (
          unfold perform prepare in
          by_final-Same rid c i (c.futures w.final) (c.futures w.ready) o ∙ h)
      by_event (abandons_transfer i) o =
          inl (unfold perform abandon_transfer in lookup-erase i rid c.pending ∙ rw o h)
      by_event resumes o = inl (unfold perform resume in h)
      by_event (finishes_transfer i) o =
          inl (unfold perform finish_transfer in lookup-erase i rid c.pending ∙ rw o h)

  lost_from :
      (after es : List Event) (c : Client)
      → All (IsOther rid) es
      → f < c.next_future
      → Tracked rid f c
      → is_waiting ((perform_all read (es ++ (loses ∷ after)) c).futures f) ≡ false
  unfolding perform_all perform
  lost_from after [] c o l t =
      let done = end_read_loop-settled rid f c t in
      rw
        (perform_all-settled f read after (end_read_loop c)
          (omega (arith, l, (end_read_loop-Keeps f c).grows)) done)
        done
  lost_from after (e ∷ es) c o l t =
      lost_from after es (perform read e c) o.1
        (omega (arith, l, (perform-Keeps f c read e l).grows)) (perform-Tracked e c o.0 l t)

  -- A call whose request was registered before the connection is lost has its outcome from the loss on,
  -- whatever happens after it, and whatever happens before it but a second use of the call's id and the
  -- end of the call itself.
  pub perform_all-lost :
      (before after : List Event) (c : Client)
      → lookup rid c.pending ≡ some f
      → f < c.next_future
      → All (IsOther rid) before
      → is_waiting ((perform_all read (before ++ (loses ∷ after)) c).futures f) ≡ false
  perform_all-lost before after c e l o = lost_from after before c o l (inl e)
