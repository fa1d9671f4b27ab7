-- ===== src/Registry/Identity.antt =====
-- truenas_pyjsonrpc/protocol.py: `RequestState.id` is set when the object is made and never after.
use truenas_jsonrpc.Base.{
  ℕ, ◌<◌, String, ◌≡◌, Option, none, some, List, [], ◌∷◌, lookup, Bool, arith,
}
use truenas_jsonrpc.Registry.{
  Registry, Progress, Pending, register_request, complete, complete_of, update_progress,
  progress_of, emit_progress, poll_notification, polled, set_cancelled, set_audit,
}

-- The object at `r` exists, under the id `o`.
pub record Has (r : ℕ) (o : Option String) (g : Registry) : Type 0 where
  pub exists : r < g.next_request
  pub id_is : (g.requests r).id ≡ o

module _ (r : ℕ) (o : Option String) (g : Registry) (k : Has r o g) where
  pub register_request-Has :
      (rid : Option String) (s : ℕ) (c : Bool) → Has r o (register_request rid s c g)
  unfolding register_request
  register_request-Has rid s c = ground arith

  complete_of-Has : (i : Option String) (q : ℕ) → Has r o (complete_of i q g)
  unfolding complete_of
  complete_of-Has none q = k
  complete_of-Has (some i) q = record { exists = k.exists; id_is = k.id_is }

  pub complete-Has : (q : ℕ) → Has r o (complete q g)
  unfolding complete
  complete-Has q = complete_of-Has (g.requests q).id q

  emit_progress-Has :
      (h : Option ℕ) (q : ℕ) (j : String) (p : Progress) → Has r o (emit_progress h q j p g)
  unfolding emit_progress
  emit_progress-Has none q j p = k
  emit_progress-Has (some h) q j p = ground arith

  progress_of-Has : (i : Option String) (q : ℕ) (p : Progress) → Has r o (progress_of i q p g)
  unfolding progress_of
  progress_of-Has none q p = k
  progress_of-Has (some j) q p = emit_progress-Has (lookup j g.inflight) q j p

  pub update_progress-Has : (q : ℕ) (p : Progress) → Has r o (update_progress q p g)
  unfolding update_progress
  update_progress-Has q p = progress_of-Has (g.requests q).id q p

  polled-Has : (ps : List Pending) → Has r o (polled ps g).1
  unfolding polled
  polled-Has [] = k
  polled-Has (p ∷ ps) = record { exists = k.exists; id_is = k.id_is }

  pub poll_notification-Has : Has r o (poll_notification g).1
  unfolding poll_notification
  poll_notification-Has = polled-Has g.outbound

  pub set_cancelled-Has : (q : ℕ) → Has r o (set_cancelled q g)
  unfolding set_cancelled
  set_cancelled-Has q = ground arith

  pub set_audit-Has : (q : ℕ) (m : String) → Has r o (set_audit q m g)
  unfolding set_audit
  set_audit-Has q m = ground arith

-- A request object that is just made has the id that it was given.
pub registered-Has :
    (g : Registry) (rid : Option String) (s : ℕ) (c : Bool)
    → Has g.next_request rid (register_request rid s c g)
unfolding register_request
registered-Has g rid s c = ground arith
