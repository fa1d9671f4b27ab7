-- ===== src/Client/Registrations.antt =====
-- truenas_pyjsonrpc_client/client.py: the callbacks of the topics as a bag, and an abstract ledger of
-- subscriptions.
use truenas_jsonrpc.Base.{
  Option-cases, inl, inr, ℕ, ◌+◌, ◌-◌, String, ◌≡◌, Bool, false, Option, none, some, List, [], ◌∷◌,
  ◌++◌, Dict, lookup, insert, erase, lookup-insert, lookup-erase, arith, ◌==◌, eq_iff, nat_eq,
  if◌then◌else◌,
}
use truenas_jsonrpc.Value.{str}
use truenas_jsonrpc.Client.{Client}
use truenas_jsonrpc.Client.Messages.{callbacks_of}
use truenas_jsonrpc.Client.Subscriptions.{
  contains, remove, add_callback, keep_callbacks, dropped, drop_callback,
}
use truenas_jsonrpc.Client.Events.{Event, subscribes, abandons, subscribed, removes}

-- The abstract view: how often each callback is registered for each topic, and what each
-- subscription's id stands for.
pub record Ledger : Type 0 where
  pub connected : Bool
  pub bag : String → ℕ → ℕ
  pub ids : Dict (String × ℕ)

abbrev pub added : String → ℕ → (String → ℕ → ℕ) → String → ℕ → ℕ
added topic cb b t k = b t k + (if topic == t then (if nat_eq cb k then 1 else 0) else 0)

abbrev pub withdrawn : String → ℕ → (String → ℕ → ℕ) → String → ℕ → ℕ
withdrawn topic cb b t k = b t k - (if topic == t then (if nat_eq cb k then 1 else 0) else 0)

abbrev pub withdraw : Option (String × ℕ) → String → Ledger → Ledger
withdraw none i l = l
withdraw (some (topic, cb)) i l = record l { bag = withdrawn topic cb l.bag; ids = erase i l.ids }

abbrev pub account : Event → Ledger → Ledger
account (subscribes rid topic params (some cb)) l =
    if l.connected then record l { bag = added topic cb l.bag } else l
account (abandons topic (some cb)) l = record l { bag = withdrawn topic cb l.bag }
account (subscribed topic (some cb) (str i)) l = record l { ids = insert i (topic, cb) l.ids }
account (removes i) l = withdraw (lookup i l.ids) i l
account _ l = l

abbrev pub account_all : List Event → Ledger → Ledger
account_all [] l = l
account_all (e ∷ es) l = account_all es (account e l)

unfoldable pub count : ℕ → List ℕ → ℕ
count k [] = 0
count k (x ∷ xs) = (if nat_eq x k then 1 else 0) + count k xs

-- How often a callback stands in the list of a topic.
unfoldable pub registered : Client → String → ℕ → ℕ
unfolding count
registered c t k = count k (callbacks_of (lookup t c.sub_callbacks))

count-append :
    (k x : ℕ) (xs : List ℕ) → count k (xs ++ (x ∷ [])) ≡ count k xs + (if nat_eq x k then 1 else 0)
unfolding count
count-append k x [] = ground arith
count-append k x (y ∷ xs) = ground (arith, count-append k x xs)

count-remove :
    (k x : ℕ) (xs : List ℕ) → count k (remove x xs) ≡ count k xs - (if nat_eq x k then 1 else 0)
unfolding count remove
count-remove k x [] = ground arith
count-remove k x (y ∷ xs) = ground (arith, count-remove k x xs)

count-contains :
    (k x : ℕ) (xs : List ℕ)
    → contains x xs ≡ false
    → count k xs ≡ count k xs - (if nat_eq x k then 1 else 0)
unfolding count contains
count-contains k x [] h = ground arith
count-contains k x (y ∷ xs) h = ground (arith, count-contains k x xs)

module _ (topic : String) (cb : ℕ) (c : Client) (t : String) (k : ℕ) where
  pub add_callback-registered :
      registered (add_callback topic (some cb) c) t k ≡ added topic cb (registered c) t k
  unfolding registered add_callback
  add_callback-registered =
      let e =
        lookup-insert topic t (callbacks_of (lookup topic c.sub_callbacks) ++ (cb ∷ []))
          c.sub_callbacks in
      ground
        (arith, e, eq_iff topic t, count-append k cb (callbacks_of (lookup topic c.sub_callbacks)))

  keep_callbacks-count :
      (cbs : List ℕ)
      → count k (callbacks_of (lookup t (keep_callbacks topic cbs c.sub_callbacks)))
        ≡ (if topic == t then count k cbs else count k (callbacks_of (lookup t c.sub_callbacks)))
  unfolding keep_callbacks count
  keep_callbacks-count [] = ground (arith, lookup-erase topic t c.sub_callbacks)
  keep_callbacks-count (x ∷ xs) = ground (arith, lookup-insert topic t (x ∷ xs) c.sub_callbacks)

  pub drop_callback-registered :
      registered (drop_callback topic cb c) t k ≡ withdrawn topic cb (registered c) t k
  unfolding registered drop_callback
  drop_callback-registered = elim (Option-cases (lookup topic c.sub_callbacks)) [
    | inl e ↦ unfold dropped count in ground (arith, e, eq_iff topic t)
    | inr (cbs, e) ↦
        unfold dropped in
        ground (
          arith,
          e,
          eq_iff topic t,
          keep_callbacks-count (remove cb cbs),
          count-remove k cb cbs,
          count-contains k cb cbs,
        )
  ]
