-- ===== src/Protocol/Steps/Delivery.antt =====
-- truenas_pyjsonrpc/protocol.py: what every interleaving of the threads' steps keeps true of the
-- progress messages and the requests in flight.
use truenas_jsonrpc.Base.{ℕ, String, ◌≡◌, ◌≢◌, Option, some, List, [], ◌∷◌}
use truenas_jsonrpc.Registry.{Registry, complete, publish, subscribe, unsubscribe, unsubscribe_all}
use truenas_jsonrpc.Registry.Delivery.{
  Inv, IsQuiet, register_request-Inv, complete-Inv, subscribe-Inv, unsubscribe-Inv,
  unsubscribe_all-Inv, update_progress-Inv, publish-Inv, poll_notification-Inv, set_cancelled-Inv,
  set_audit-Inv, done-IsQuiet,
}
use truenas_jsonrpc.Registry.Done.{
  IsDone, register_request-IsDone, complete-IsDone, update_progress-IsDone, publish-IsDone,
  poll_notification-IsDone, subscribe-IsDone, unsubscribe-IsDone, unsubscribe_all-IsDone,
  set_cancelled-IsDone, set_audit-IsDone, completed-IsDone,
}
use truenas_jsonrpc.Registry.Identity.{
  Has, register_request-Has, complete-Has, update_progress-Has, poll_notification-Has,
  set_cancelled-Has, set_audit-Has,
}
use truenas_jsonrpc.Protocol.{
  World, Step, registers, completes, progresses, publishes, polls, subscribes, unsubscribes,
  cancels, audits, closes, commits, sets_internal,
}
use truenas_jsonrpc.Protocol.Steps.{perform, perform_all, on_registry, close_session}

-- A request starts under an id that no request object has had: clients draw a UUID for each.
abbrev pub IsNew : Option String → Registry → Type 0
IsNew rid g = (i : String) → rid ≡ some i → (r : ℕ) → (g.requests r).id ≢ some i

abbrev pub IsAllowed : World → Step → Type 0
IsAllowed w (registers rid s c) = IsNew rid w.registry
IsAllowed w _ = Unit {0}

abbrev pub AllAllowed : World → List Step → Type 0
AllAllowed w [] = Unit {0}
AllAllowed w (t ∷ ts) = IsAllowed w t × AllAllowed (perform t w) ts

pub perform-Inv :
    (t : Step) (w : World) → IsAllowed w t → Inv w.registry → Inv (perform t w).registry
unfolding perform close_session
perform-Inv (registers rid s c) w a inv = register_request-Inv w.registry inv rid s c a
perform-Inv (completes r) w a inv = complete-Inv w.registry inv r
perform-Inv (progresses r p) w a inv = update_progress-Inv w.registry inv r p
perform-Inv (publishes t m) w a inv = publish-Inv w.registry inv t m
perform-Inv polls w a inv = poll_notification-Inv w.registry inv
perform-Inv (subscribes t i s v) w a inv = subscribe-Inv w.registry inv t i s v
perform-Inv (unsubscribes i) w a inv = unsubscribe-Inv w.registry inv i
perform-Inv (cancels r) w a inv = set_cancelled-Inv w.registry inv r
perform-Inv (audits r m) w a inv = set_audit-Inv w.registry inv r m
perform-Inv (closes s) w a inv = unsubscribe_all-Inv w.registry inv _ s
perform-Inv (commits s l v) w a inv = inv
perform-Inv (sets_internal s i) w a inv = inv

pub perform_all-Inv :
    (ts : List Step) (w : World)
    → AllAllowed w ts
    → Inv w.registry
    → Inv (perform_all ts w).registry
unfolding perform_all
perform_all-Inv [] w a inv = inv
perform_all-Inv (t ∷ ts) w a inv = perform_all-Inv ts (perform t w) a.1 (perform-Inv t w a.0 inv)

pub perform-IsDone :
    (i : String) (t : Step) (w : World)
    → IsAllowed w t
    → Inv w.registry
    → IsDone i w.registry
    → IsDone i (perform t w).registry
unfolding perform close_session
perform-IsDone i (registers rid s c) w a inv d =
    register_request-IsDone i w.registry d rid s c inv a
perform-IsDone i (completes r) w a inv d = complete-IsDone i w.registry d r
perform-IsDone i (progresses r p) w a inv d = update_progress-IsDone i w.registry d r p
perform-IsDone i (publishes t m) w a inv d = publish-IsDone i w.registry d t m
perform-IsDone i polls w a inv d = poll_notification-IsDone i w.registry d
perform-IsDone i (subscribes t j s v) w a inv d = subscribe-IsDone i w.registry d t j s v
perform-IsDone i (unsubscribes j) w a inv d = unsubscribe-IsDone i w.registry d j
perform-IsDone i (cancels r) w a inv d = set_cancelled-IsDone i w.registry d r
perform-IsDone i (audits r m) w a inv d = set_audit-IsDone i w.registry d r m
perform-IsDone i (closes s) w a inv d = unsubscribe_all-IsDone i w.registry d _ s
perform-IsDone i (commits s l v) w a inv d = d
perform-IsDone i (sets_internal s v) w a inv d = d

pub perform_all-IsDone :
    (i : String) (ts : List Step) (w : World)
    → AllAllowed w ts
    → Inv w.registry
    → IsDone i w.registry
    → IsDone i (perform_all ts w).registry
unfolding perform_all
perform_all-IsDone i [] w a inv d = d
perform_all-IsDone i (t ∷ ts) w a inv d =
    perform_all-IsDone i ts (perform t w) a.1 (perform-Inv t w a.0 inv)
      (perform-IsDone i t w a.0 inv d)

perform-Has :
    (r : ℕ) (o : Option String) (t : Step) (w : World)
    → Has r o w.registry
    → Has r o (perform t w).registry
unfolding perform close_session
perform-Has r o (registers rid s c) w k = register_request-Has r o w.registry k rid s c
perform-Has r o (completes q) w k = complete-Has r o w.registry k q
perform-Has r o (progresses q p) w k = update_progress-Has r o w.registry k q p
perform-Has r o polls w k = poll_notification-Has r o w.registry k
perform-Has r o (cancels q) w k = set_cancelled-Has r o w.registry k q
perform-Has r o (audits q m) w k = set_audit-Has r o w.registry k q m
perform-Has r o (publishes t m) w k =
    unfold publish in record { exists = k.exists; id_is = k.id_is }
perform-Has r o (subscribes t j s v) w k =
    unfold subscribe in record { exists = k.exists; id_is = k.id_is }
perform-Has r o (unsubscribes j) w k =
    unfold unsubscribe in record { exists = k.exists; id_is = k.id_is }
perform-Has r o (closes s) w k =
    unfold unsubscribe_all in record { exists = k.exists; id_is = k.id_is }
perform-Has r o (commits s l v) w k = k
perform-Has r o (sets_internal s v) w k = k

pub perform_all-Has :
    (r : ℕ) (o : Option String) (ts : List Step) (w : World)
    → Has r o w.registry
    → Has r o (perform_all ts w).registry
unfolding perform_all
perform_all-Has r o [] w k = k
perform_all-Has r o (t ∷ ts) w k = perform_all-Has r o ts (perform t w) (perform-Has r o t w k)

-- From a state where the registry's invariant holds, once `_complete` has run for a request with
-- the id `i`, no queued message is progress of `i`, after any further steps of any threads in
-- which every new request has an id that no request state had before.
pub no_late_progress :
    (ts : List Step) (w : World) (r : ℕ) (i : String)
    → Inv w.registry
    → (w.registry.requests r).id ≡ some i
    → AllAllowed (on_registry (complete r) w) ts
    → IsQuiet i (perform_all ts (on_registry (complete r) w)).registry.outbound
no_late_progress ts w r i inv e a =
    let w' = on_registry (complete r) w in
    let inv' = complete-Inv w.registry inv r in
    done-IsQuiet _ (perform_all-Inv ts w' a inv') i
      (perform_all-IsDone i ts w' a inv' (completed-IsDone w.registry r i e)).out
