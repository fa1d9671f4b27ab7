-- ===== src/Client/Refines.antt =====
-- truenas_pyjsonrpc_client/client.py: the tables of the subscriptions and the abstract ledger.
use truenas_jsonrpc.Base.{
  sym, subst, ap, erase, insert, ℕ, String, ◌≡◌, refl, ◌∙◌, Bool, true, false, Option, none, some,
  List, [], ◌∷◌, lookup, ℤ, arith, if◌then◌else◌,
}
use truenas_jsonrpc.Value.{Value, null, bool, num, str, arr, obj}
use truenas_jsonrpc.Client.{Client, end_invoke, begin_invoke}
use truenas_jsonrpc.Client.Subscriptions.{
  add_callback, drop_callback, remove_sub, forget_sub, after_invoke, begin_subscribe,
  abandon_subscribe, finish_subscribe,
}
use truenas_jsonrpc.Client.Transfers.{abandon_transfer, resume, finish_transfer}
use truenas_jsonrpc.Client.Events.{
  Event, invokes, ends, cancels, receives, loses, subscribes, abandons, subscribed, removes,
  begins_transfer, prepares, abandons_transfer, resumes, finishes_transfer, perform, perform_all,
}
use truenas_jsonrpc.Client.Tables.{
  Untouched, begin_invoke-Untouched, on_message-Untouched, begin_transfer-Untouched,
  prepare-Untouched, cancel_invoke-Untouched, end_read_loop-Untouched,
}
use truenas_jsonrpc.Client.Registrations.{
  Ledger, added, withdrawn, withdraw, account, account_all, registered, add_callback-registered,
  drop_callback-registered,
}

-- The client's tables say what the ledger says.
pub record Refines (c : Client) (l : Ledger) : Type 0 where
  pub same_connected : c.connected ≡ l.connected
  pub same_ids : c.sub_ids ≡ l.ids
  pub same_bag : (t : String) (k : ℕ) → registered c t k ≡ l.bag t k

Untouched-Refines : (c d : Client) (l : Ledger) → Untouched c d → Refines c l → Refines d l
Untouched-Refines c d l u r = record {
  same_connected = u.same_connected ∙ r.same_connected;
  same_ids = u.same_ids ∙ r.same_ids;
  same_bag = λ t k. unfold registered in rw u.same_callbacks (r.same_bag t k);
}

module _ (c : Client) (l : Ledger) (r : Refines c l) (topic : String) (cb : ℕ) where
  add_callback-Refines :
      Refines (add_callback topic (some cb) c) (record l { bag = added topic cb l.bag })
  add_callback-Refines = record {
    same_connected = unfold add_callback in r.same_connected;
    same_ids = unfold add_callback in r.same_ids;
    same_bag = λ t k. rw (add_callback-registered topic cb c t k, r.same_bag t k) refl;
  }

  drop_callback-Refines :
      Refines (drop_callback topic cb c) (record l { bag = withdrawn topic cb l.bag })
  drop_callback-Refines = record {
    same_connected = unfold drop_callback in r.same_connected;
    same_ids = unfold drop_callback in r.same_ids;
    same_bag = λ t k. rw (drop_callback-registered topic cb c t k, r.same_bag t k) refl;
  }

added-withdrawn :
    (topic : String) (cb : ℕ) (b : String → ℕ → ℕ) (t : String) (k : ℕ)
    → withdrawn topic cb (added topic cb b) t k ≡ b t k
added-withdrawn topic cb b t k = ground arith

begin_invoke-fst :
    (rid method : String) (params : Value) (p : Option ℕ) (c : Client)
    → begin_invoke rid method params p c
      ≡ ((begin_invoke rid method params p c).0, if c.connected then some c.next_future else none)
unfolding begin_invoke
begin_invoke-fst rid method params p c = ground arith

module _ (rid topic : String) (params : Value) (cb : ℕ) where
  after_invoke-Refines :
      (c : Client) (f : ℕ) (l : Ledger) (b : Bool)
      → l.connected ≡ b
      → Refines c (record l { bag = added topic cb l.bag })
      → Refines
          (after_invoke topic (some cb) (c, if b then some f else none)).0
          (account (subscribes rid topic params (some cb)) l)
  after_invoke-Refines c f l true h r =
      subst (λ x. Refines c (if x then record l { bag = added topic cb l.bag } else l)) (sym h) r
  after_invoke-Refines c f l false h r =
      unfold abandon_subscribe in
      let d = drop_callback-Refines c (record l { bag = added topic cb l.bag }) r topic cb in
      subst
        (λ x.
          Refines (drop_callback topic cb c)
            (if x then record l { bag = added topic cb l.bag } else l))
        (sym h)
        (record {
          same_connected = d.same_connected;
          same_ids = d.same_ids;
          same_bag = λ t k. d.same_bag t k ∙ added-withdrawn topic cb l.bag t k;
        })

module _ (c : Client) (l : Ledger) (r : Refines c l) where
  begin_subscribe-Refines :
      (rid topic : String) (params : Value) (cb : ℕ)
      → Refines
          (begin_subscribe rid topic params (some cb) c).0
          (account (subscribes rid topic params (some cb)) l)
  unfolding begin_subscribe
  begin_subscribe-Refines rid topic params cb =
      let c1 = add_callback topic (some cb) c in
      let r1 = add_callback-Refines c l r topic cb in
      let r2 = Untouched-Refines c1 _ _ (begin_invoke-Untouched c1 rid topic params none) r1 in
      subst
        (λ x.
          Refines (after_invoke topic (some cb) x).0
            (account (subscribes rid topic params (some cb)) l))
        (sym (begin_invoke-fst rid topic params none c1))
        (after_invoke-Refines rid topic params cb _ c1.next_future l c1.connected
          (sym r1.same_connected) r2)

  forget_sub-Refines :
      (i : String) (o : Option (String × ℕ)) → Refines (forget_sub i o c) (withdraw o i l)
  forget_sub-Refines i none = r
  forget_sub-Refines i (some (topic, cb)) =
      drop_callback-Refines (record c { sub_ids = erase i c.sub_ids })
        (record l { ids = erase i l.ids })
        (record {
          same_connected = r.same_connected;
          same_ids = ap (erase i) r.same_ids;
          same_bag = λ t k. unfold registered in r.same_bag t k;
        })
        topic cb

  remove_sub-Refines : (i : String) → Refines (remove_sub i c) (account (removes i) l)
  unfolding remove_sub
  remove_sub-Refines i =
      subst (λ d. Refines (forget_sub i (lookup i c.sub_ids) c) (withdraw (lookup i d) i l))
        r.same_ids (forget_sub-Refines i (lookup i c.sub_ids))

  other : {d : Client} → Untouched c d → Refines d l
  other {d} u = Untouched-Refines c d l u r

  begin_subscribe-none :
      (rid topic : String) (params : Value) → Refines (begin_subscribe rid topic params none c).0 l
  unfolding begin_subscribe add_callback abandon_subscribe
  begin_subscribe-none rid topic params =
      let u = begin_invoke-Untouched c rid topic params none in
      subst (λ x. Refines (after_invoke topic none x).0 l)
        (sym (begin_invoke-fst rid topic params none c)) (by_result c.next_future c.connected u)
    where
      by_result :
          {d : Client} (f : ℕ) (b : Bool)
          → Untouched c d
          → Refines (after_invoke topic none (d, if b then some f else none)).0 l
      by_result f true u = other u
      by_result f false u = other u

  finish_subscribe-Refines :
      (topic : String) (cb : Option ℕ) (v : Value)
      → Refines (finish_subscribe topic cb v c) (account (subscribed topic cb v) l)
  unfolding finish_subscribe
  finish_subscribe-Refines topic none v = r
  finish_subscribe-Refines topic (some cb) (str i) = record {
    same_connected = r.same_connected;
    same_ids = ap (insert i (topic, cb)) r.same_ids;
    same_bag = λ t k. unfold registered in r.same_bag t k;
  }
  finish_subscribe-Refines topic (some cb) null = r
  finish_subscribe-Refines topic (some cb) (bool b) = r
  finish_subscribe-Refines topic (some cb) (num n) = r
  finish_subscribe-Refines topic (some cb) (arr vs) = r
  finish_subscribe-Refines topic (some cb) (obj fs) = r

  perform-Refines :
      (read : String → Option ℤ) (e : Event) → Refines (perform read e c) (account e l)
  unfolding perform
  perform-Refines read (invokes rid m v p) = other (begin_invoke-Untouched c rid m v p)
  perform-Refines read (ends rid) = other (
      unfold end_invoke in record { same_connected = refl; same_callbacks = refl; same_ids = refl })
  perform-Refines read (cancels rid f) = other (cancel_invoke-Untouched c rid f)
  perform-Refines read (receives v) = other (on_message-Untouched c read v)
  perform-Refines read loses = other (end_read_loop-Untouched c)
  perform-Refines read (subscribes rid topic params none) = begin_subscribe-none rid topic params
  perform-Refines read (subscribes rid topic params (some cb)) =
      begin_subscribe-Refines rid topic params cb
  perform-Refines read (abandons topic none) = unfold abandon_subscribe in r
  perform-Refines read (abandons topic (some cb)) =
      unfold abandon_subscribe in drop_callback-Refines c l r topic cb
  perform-Refines read (subscribed topic cb v) = finish_subscribe-Refines topic cb v
  perform-Refines read (removes i) = remove_sub-Refines i
  perform-Refines read (begins_transfer t i m v) = other (begin_transfer-Untouched c t i m v)
  perform-Refines read (prepares i w) = other (prepare-Untouched c i w)
  perform-Refines read (abandons_transfer i) = other (
      unfold abandon_transfer in
      record { same_connected = refl; same_callbacks = refl; same_ids = refl })
  perform-Refines read resumes =
      other
        (unfold resume in record { same_connected = refl; same_callbacks = refl; same_ids = refl })
  perform-Refines read (finishes_transfer i) = other (
      unfold finish_transfer in
      record { same_connected = refl; same_callbacks = refl; same_ids = refl })

-- Whatever happens on the client's loop, in whatever order, its tables say at the end what a ledger
-- says that only adds a callback where a connected client subscribes, withdraws one where that fails
-- or its subscription's id is removed, and forgets an id once it is removed: the same
-- subscriptions' ids, and for each topic each callback as often as the ledger has it.
pub perform_all-Refines :
    (read : String → Option ℤ) (es : List Event) (c : Client) (l : Ledger)
    → Refines c l
    → Refines (perform_all read es c) (account_all es l)
unfolding perform_all
perform_all-Refines read [] c l r = r
perform_all-Refines read (e ∷ es) c l r =
    perform_all-Refines read es (perform read e c) (account e l) (perform-Refines c l r read e)
