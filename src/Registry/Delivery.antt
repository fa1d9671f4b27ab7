-- ===== src/Registry/Delivery.antt =====
-- truenas_pyjsonrpc/protocol.py: progress never arrives after the reply. The invariant that ties
-- the queued progress messages to the requests in flight, and what each critical section does
-- to it.
use mathlib.Core.Option.{some-injective}
use truenas_jsonrpc.Base.{
  ℕ, ◌<◌, String, ◌≡◌, refl, sym, ◌∙◌, ap, subst, ◌≢◌, inl, inr, Bool, true, Option, none, some,
  List, [], ◌∷◌, Dict, lookup, erase, lookup-insert, lookup-erase, All, All-append, All-mono,
  nat_eq, Bool-cases, eq_iff, arith, if◌then◌else◌,
}
use truenas_jsonrpc.Value.{Value}
use truenas_jsonrpc.Registry.{
  Registry, RequestState, Pending, Progress, Subscription, register_request, is_for_other, purge,
  complete, complete_of, update_progress, polled, count_up, emit_progress, progress_of, fan_out,
  empty_registry, subscribers, publish, poll_notification, subscribe, unsubscribe, unsubscribe_all,
  set_cancelled, set_audit,
}

-- A queued progress message is for a request that is in flight and has counted it.
abbrev pub IsHeld : (ℕ → RequestState) → Dict ℕ → Option String → Type 0
IsHeld h d none = Unit {0}
IsHeld h d (some i) = (r : ℕ) × (lookup i d ≡ some r) × (0 < (h r).count)

abbrev pub AllHeld : (ℕ → RequestState) → Dict ℕ → List Pending → Type 0
AllHeld h d = All (λ p. IsHeld h d p.request_id)

-- Request ids are not shared, the registry files each request under its own id, and every queued
-- progress message is held.
pub record Inv (g : Registry) : Type 0 where
  pub unique :
      (q r : ℕ) (i : String) → (g.requests q).id ≡ some i → (g.requests r).id ≡ some i → q ≡ r
  pub allocated : (r : ℕ) (i : String) → (g.requests r).id ≡ some i → r < g.next_request
  pub filed : (r : ℕ) (i : String) → lookup i g.inflight ≡ some r → (g.requests r).id ≡ some i
  pub held : AllHeld g.requests g.inflight g.outbound

-- No message of the queue is progress of the request id.
abbrev pub IsQuiet : String → List Pending → Type 0
IsQuiet i = All (λ p. is_for_other i p.request_id ≡ true)

-- `IsHeld` after a change of the heap and of the registry, message by message.
held_mono :
    (g g' : Registry) (ps : List Pending)
    → ((i : String) (r : ℕ)
        → lookup i g.inflight ≡ some r
        → 0 < (g.requests r).count
        → (lookup i g'.inflight ≡ some r) × (0 < (g'.requests r).count))
    → AllHeld g.requests g.inflight ps
    → AllHeld g'.requests g'.inflight ps
held_mono g g' ps f =
    All-mono (λ p. IsHeld g.requests g.inflight p.request_id)
      (λ p. IsHeld g'.requests g'.inflight p.request_id) (λ p. one p.request_id) ps
  where
    one : (o : Option String) → IsHeld g.requests g.inflight o → IsHeld g'.requests g'.inflight o
    one none k = tt
    one (some i) (r, e, c) = let (e', c') = f i r e c in (r, e', c')

-- The messages that are not of the request id, as `purge` keeps them.
purge-IsQuiet : (i : String) (ps : List Pending) → IsQuiet i (purge i ps)
unfolding purge
purge-IsQuiet i [] = tt
purge-IsQuiet i (p ∷ ps) = ground (arith, purge-IsQuiet i ps)

erase-IsHeld :
    (h : ℕ → RequestState) (d : Dict ℕ) (i : String) (o : Option String)
    → is_for_other i o ≡ true
    → IsHeld h d o
    → IsHeld h (erase i d) o
unfolding is_for_other
erase-IsHeld h d i none f k = tt
erase-IsHeld h d i (some j) f (r, e, c) =
    (r, ground (arith, lookup-erase i j d, eq_iff i j, eq_iff j i), c)

held-is_for_other :
    (h : ℕ → RequestState) (d : Dict ℕ) (i : String) (r : ℕ) (o : Option String)
    → (h r).count ≡ 0
    → ((q : ℕ) → lookup i d ≡ some q → q ≡ r)
    → IsHeld h d o
    → is_for_other i o ≡ true
unfolding is_for_other
held-is_for_other h d i r none z u k = refl
held-is_for_other h d i r (some j) z u (q, e, c) = ground (arith, eq_iff j i, u q)

AllHeld-purge :
    (h : ℕ → RequestState) (d : Dict ℕ) (i : String) (ps : List Pending)
    → AllHeld h d ps
    → AllHeld h (erase i d) (purge i ps)
unfolding purge
AllHeld-purge h d i [] k = tt
AllHeld-purge h d i (p ∷ ps) k = elim (Bool-cases (is_for_other i p.request_id)) [
  | inl keep ↦
      rw (keep, purge) (erase-IsHeld h d i p.request_id keep k.0, AllHeld-purge h d i ps k.1)
  | inr drop ↦ rw (drop, purge) (AllHeld-purge h d i ps k.1)
]

-- With nothing counted for the request, no queued message is held by it.
AllHeld-erase :
    (h : ℕ → RequestState) (d : Dict ℕ) (i : String) (r : ℕ) (ps : List Pending)
    → (h r).count ≡ 0
    → ((q : ℕ) → lookup i d ≡ some q → q ≡ r)
    → AllHeld h d ps
    → AllHeld h (erase i d) ps × IsQuiet i ps
AllHeld-erase h d i r [] z u k = (tt, tt)
AllHeld-erase h d i r (p ∷ ps) z u k =
    let other = held-is_for_other h d i r p.request_id z u k.0 in
    let (rest, quiet) = AllHeld-erase h d i r ps z u k.1 in
    ((erase-IsHeld h d i p.request_id other k.0, rest), (other, quiet))

module _ (g : Registry) (inv : Inv g) where
  -- A new request whose id no request object has had.
  pub register_request-Inv :
      (rid : Option String) (s : ℕ) (c : Bool)
      → ((i : String) → rid ≡ some i → (r : ℕ) → (g.requests r).id ≢ some i)
      → Inv (register_request rid s c g)
  unfolding register_request
  register_request-Inv none s c new = record {
    unique = λ q r i e e'. grind (arith, inv.unique);
    allocated = λ r i e. grind (arith, inv.allocated);
    filed = λ r i e. grind (arith, inv.filed, inv.allocated);
    held =
        held_mono g (register_request none s c g) g.outbound
          (λ i r e k. (e, grind (arith, inv.filed r i e, inv.allocated))) inv.held;
  }
  register_request-Inv (some n) s c new = record {
    unique = λ q r i e e'. grind (arith, inv.unique, new n refl);
    allocated = λ r i e. grind (arith, inv.allocated);
    filed = λ r i e.
        grind (
          arith,
          lookup-insert n i g.next_request g.inflight,
          eq_iff n i,
          inv.filed,
          inv.allocated,
        );
    held =
        held_mono g (register_request (some n) s c g) g.outbound
          (λ i r e k. (
            grind (
              arith,
              lookup-insert n i g.next_request g.inflight,
              eq_iff n i,
              inv.filed r i e,
              new n refl r,
            ),
            grind (arith, inv.filed r i e, inv.allocated),
          ))
          inv.held;
  }

  in_flight_unique :
      (r : ℕ) (i : String)
      → (g.requests r).id ≡ some i
      → (q : ℕ) → lookup i g.inflight ≡ some q
      → q ≡ r
  in_flight_unique r i e q f = inv.unique q r i (inv.filed q i f) e

  -- The queue that `_complete` leaves.
  abbrev left_over : ℕ → String → List Pending
  left_over r i = if nat_eq (g.requests r).count 0 then g.outbound else purge i g.outbound

  left_over_held :
      (r : ℕ) (i : String)
      → (g.requests r).id ≡ some i
      → AllHeld g.requests (erase i g.inflight) (left_over r i) × IsQuiet i (left_over r i)
  left_over_held r i e = elim (Bool-cases (nat_eq (g.requests r).count 0)) [
    | inl z ↦ rw z (
        AllHeld-erase g.requests g.inflight i r g.outbound (ground arith) (in_flight_unique r i e)
          inv.held)
    | inr n ↦
        rw n (AllHeld-purge g.requests g.inflight i g.outbound inv.held, purge-IsQuiet i g.outbound)
  ]

  complete_of-Inv :
      (r : ℕ) (o : Option String)
      → (g.requests r).id ≡ o
      → Inv (complete_of o r g)
        × ((i : String) → o ≡ some i → IsQuiet i (complete_of o r g).outbound)
  unfolding complete_of
  complete_of-Inv r none e = (inv, λ i f. cc)
  complete_of-Inv r (some i) e =
      let (kept, quiet) = left_over_held r i e in
      (
        record {
          unique = inv.unique;
          allocated = inv.allocated;
          filed = λ q j f. grind (arith, lookup-erase i j g.inflight, inv.filed q j);
          held = kept;
        },
        λ j f. subst (λ k. IsQuiet k (left_over r i)) (some-injective i j f) quiet,
      )

  -- Completing a request keeps the invariant, and leaves no message of its id.
  pub complete-Inv : (r : ℕ) → Inv (complete r g)
  unfolding complete
  complete-Inv r = (complete_of-Inv r (g.requests r).id refl).0

  pub complete-IsQuiet :
      (r : ℕ) (i : String) → (g.requests r).id ≡ some i → IsQuiet i (complete r g).outbound
  unfolding complete
  complete-IsQuiet r i e = (complete_of-Inv r (g.requests r).id refl).1 i e

  -- What a step leaves of ids and registrations: it changes neither.
  same_ids-Inv :
      (h : ℕ → RequestState) (ps : List Pending)
      → ((r : ℕ) → (h r).id ≡ (g.requests r).id)
      → AllHeld h g.inflight ps
      → Inv (record g { requests = h; outbound = ps })
  same_ids-Inv h ps same k = record {
    unique = λ q r i e e'. inv.unique q r i (sym (same q) ∙ e) (sym (same r) ∙ e');
    allocated = λ r i e. inv.allocated r i (sym (same r) ∙ e);
    filed = λ r i e. same r ∙ inv.filed r i e;
    held = k;
  }

  -- Messages that belong to no request.
  pub fan_out-IsHeld :
      (m : Value) (ss : List Subscription) → AllHeld g.requests g.inflight (fan_out m ss)
  unfolding fan_out
  fan_out-IsHeld m [] = tt
  fan_out-IsHeld m (s ∷ ss) = (tt, fan_out-IsHeld m ss)

  pub publish-Inv : (t : String) (m : Value) → Inv (publish t m g)
  unfolding publish
  publish-Inv t m =
      same_ids-Inv g.requests _ (λ r. refl)
        (All-append _ g.outbound _ inv.held (fan_out-IsHeld _ (subscribers t g)))

  subscriptions-Inv : (d : Dict (Dict Subscription)) → Inv (record g { subscriptions = d })
  subscriptions-Inv d = record {
    unique = inv.unique;
    allocated = inv.allocated;
    filed = inv.filed;
    held = inv.held;
  }

  pub subscribe-Inv : (t i : String) (s : ℕ) (v : Value) → Inv (subscribe t i s v g)
  unfolding subscribe
  subscribe-Inv t i s v = subscriptions-Inv _

  pub unsubscribe-Inv : (i : String) → Inv (unsubscribe i g).0
  unfolding unsubscribe
  unsubscribe-Inv i = subscriptions-Inv _

  pub unsubscribe_all-Inv : (f : ℕ → String) (s : ℕ) → Inv (unsubscribe_all f s g).0
  unfolding unsubscribe_all
  unsubscribe_all-Inv f s = subscriptions-Inv _

  polled-Inv : (ps : List Pending) → g.outbound ≡ ps → Inv (polled ps g).1
  unfolding polled
  polled-Inv [] e = inv
  polled-Inv (p ∷ ps) e =
      same_ids-Inv g.requests ps (λ r. refl) (subst (AllHeld g.requests g.inflight) e inv.held).1

  pub poll_notification-Inv : Inv (poll_notification g).1
  unfolding poll_notification
  poll_notification-Inv = polled-Inv g.outbound refl

  pub set_cancelled-Inv : (r : ℕ) → Inv (set_cancelled r g)
  unfolding set_cancelled
  set_cancelled-Inv r =
      same_ids-Inv _ g.outbound (λ q. ground arith)
        (held_mono g (set_cancelled r g) g.outbound (λ i q e c. (e, ground arith)) inv.held)

  pub set_audit-Inv : (r : ℕ) (m : String) → Inv (set_audit r m g)
  unfolding set_audit
  set_audit-Inv r m =
      same_ids-Inv _ g.outbound (λ q. ground arith)
        (held_mono g (set_audit r m g) g.outbound (λ i q e c. (e, ground arith)) inv.held)

  emit_progress-Inv :
      (r : ℕ) (i : String) (p : Progress) (o : Option ℕ)
      → (g.requests r).id ≡ some i
      → lookup i g.inflight ≡ o
      → Inv (emit_progress o r i p g)
  unfolding emit_progress
  emit_progress-Inv r i p none e f = inv
  emit_progress-Inv r i p (some q) e f =
      same_ids-Inv _ _ (λ k. ground arith)
        (All-append _ g.outbound _
          (held_mono g (count_up r g) g.outbound (λ j k l c. (l, ground arith)) inv.held)
          ((r, f ∙ ap some (in_flight_unique r i e q f), ground arith), tt))

  progress_of-Inv :
      (r : ℕ) (p : Progress) (o : Option String) → (g.requests r).id ≡ o → Inv (progress_of o r p g)
  unfolding progress_of
  progress_of-Inv r p none e = inv
  progress_of-Inv r p (some i) e = emit_progress-Inv r i p (lookup i g.inflight) e refl

  pub update_progress-Inv : (r : ℕ) (p : Progress) → Inv (update_progress r p g)
  unfolding update_progress
  update_progress-Inv r p = progress_of-Inv r p (g.requests r).id refl

  -- A request id that is not in flight has no message in the queue.
  pub done-IsQuiet : (i : String) → lookup i g.inflight ≡ none → IsQuiet i g.outbound
  unfolding is_for_other
  done-IsQuiet i e =
      All-mono (λ p. IsHeld g.requests g.inflight p.request_id) _ (λ p. one p.request_id) g.outbound
        inv.held
    where
      one : (o : Option String) → IsHeld g.requests g.inflight o → is_for_other i o ≡ true
      one none k = ground arith
      one (some j) (r, f, c) = ground (arith, eq_iff j i)

-- Nothing is registered and nothing is queued.
pub empty-Inv : Inv empty_registry
unfolding empty_registry
empty-Inv = record {
  unique = λ q r i e f. cc;
  allocated = λ r i e. cc;
  filed = λ r i e. unfold lookup in cc;
  held = tt;
}
