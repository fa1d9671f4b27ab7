-- ===== src/Registry/Done.antt =====
-- truenas_pyjsonrpc/protocol.py: a request that is done stays done, whatever the other critical
-- sections do.
use truenas_jsonrpc.Base.{
  ℕ, String, ◌≡◌, refl, ◌≢◌, ◌∙◌, Bool, Option, none, some, List, [], ◌∷◌, lookup, lookup-insert,
  lookup-erase, eq_iff, ap, arith,
}
use truenas_jsonrpc.Value.{Value}
use truenas_jsonrpc.Registry.{
  Registry, Progress, Pending, register_request, complete, complete_of, update_progress,
  progress_of, emit_progress, publish, poll_notification, polled, subscribe, unsubscribe,
  unsubscribe_all, set_cancelled, set_audit,
}
use truenas_jsonrpc.Registry.Delivery.{Inv}

-- A request object has had the id, and it is not in flight.
pub record IsDone (i : String) (g : Registry) : Type 0 where
  pub object : ℕ
  pub had : (g.requests object).id ≡ some i
  pub out : lookup i g.inflight ≡ none

module _ (i : String) (g : Registry) (d : IsDone i g) where
  same_ids-IsDone :
      (g' : Registry)
      → ((r : ℕ) → (g'.requests r).id ≡ (g.requests r).id)
      → g'.inflight ≡ g.inflight
      → IsDone i g'
  same_ids-IsDone g' same e = record {
    object = d.object;
    had = same d.object ∙ d.had;
    out = ap (lookup i) e ∙ d.out;
  }

  pub register_request-IsDone :
      (rid : Option String) (s : ℕ) (c : Bool)
      → Inv g
      → ((j : String) → rid ≡ some j → (r : ℕ) → (g.requests r).id ≢ some j)
      → IsDone i (register_request rid s c g)
  unfolding register_request
  register_request-IsDone none s c inv new = record {
    object = d.object;
    had = grind (arith, d.had, inv.allocated d.object i d.had);
    out = d.out;
  }
  register_request-IsDone (some n) s c inv new = record {
    object = d.object;
    had = grind (arith, d.had, inv.allocated d.object i d.had);
    out = grind (
      arith,
      d.out,
      d.had,
      new n refl d.object,
      lookup-insert n i g.next_request g.inflight,
      eq_iff n i,
    );
  }

  complete_of-IsDone : (o : Option String) (r : ℕ) → IsDone i (complete_of o r g)
  unfolding complete_of
  complete_of-IsDone none r = d
  complete_of-IsDone (some j) r = record {
    object = d.object;
    had = d.had;
    out = ground (arith, d.out, lookup-erase j i g.inflight);
  }

  pub complete-IsDone : (r : ℕ) → IsDone i (complete r g)
  unfolding complete
  complete-IsDone r = complete_of-IsDone (g.requests r).id r

  emit_progress-IsDone :
      (o : Option ℕ) (r : ℕ) (j : String) (p : Progress) → IsDone i (emit_progress o r j p g)
  unfolding emit_progress
  emit_progress-IsDone none r j p = d
  emit_progress-IsDone (some q) r j p = same_ids-IsDone _ (λ k. ground arith) refl

  progress_of-IsDone : (o : Option String) (r : ℕ) (p : Progress) → IsDone i (progress_of o r p g)
  unfolding progress_of
  progress_of-IsDone none r p = d
  progress_of-IsDone (some j) r p = emit_progress-IsDone (lookup j g.inflight) r j p

  pub update_progress-IsDone : (r : ℕ) (p : Progress) → IsDone i (update_progress r p g)
  unfolding update_progress
  update_progress-IsDone r p = progress_of-IsDone (g.requests r).id r p

  pub publish-IsDone : (t : String) (m : Value) → IsDone i (publish t m g)
  unfolding publish
  publish-IsDone t m = same_ids-IsDone _ (λ k. refl) refl

  polled-IsDone : (ps : List Pending) → IsDone i (polled ps g).1
  unfolding polled
  polled-IsDone [] = d
  polled-IsDone (p ∷ ps) = same_ids-IsDone _ (λ k. refl) refl

  pub poll_notification-IsDone : IsDone i (poll_notification g).1
  unfolding poll_notification
  poll_notification-IsDone = polled-IsDone g.outbound

  pub subscribe-IsDone : (t j : String) (s : ℕ) (v : Value) → IsDone i (subscribe t j s v g)
  unfolding subscribe
  subscribe-IsDone t j s v = same_ids-IsDone _ (λ k. refl) refl

  pub unsubscribe-IsDone : (j : String) → IsDone i (unsubscribe j g).0
  unfolding unsubscribe
  unsubscribe-IsDone j = same_ids-IsDone _ (λ k. refl) refl

  pub unsubscribe_all-IsDone : (f : ℕ → String) (s : ℕ) → IsDone i (unsubscribe_all f s g).0
  unfolding unsubscribe_all
  unsubscribe_all-IsDone f s = same_ids-IsDone _ (λ k. refl) refl

  pub set_cancelled-IsDone : (r : ℕ) → IsDone i (set_cancelled r g)
  unfolding set_cancelled
  set_cancelled-IsDone r = same_ids-IsDone _ (λ k. ground arith) refl

  pub set_audit-IsDone : (r : ℕ) (m : String) → IsDone i (set_audit r m g)
  unfolding set_audit
  set_audit-IsDone r m = same_ids-IsDone _ (λ k. ground arith) refl

-- Completing a request makes it done.
pub completed-IsDone :
    (g : Registry) (r : ℕ) (i : String) → (g.requests r).id ≡ some i → IsDone i (complete r g)
unfolding complete
completed-IsDone g r i e = completed_of (g.requests r).id e
  where
    completed_of : (o : Option String) → o ≡ some i → IsDone i (complete_of o r g)
    completed_of none f = cc
    completed_of (some j) f = record {
      object = r;
      had = e;
      out = ground (arith, lookup-erase j i g.inflight, eq_iff j i);
    }
