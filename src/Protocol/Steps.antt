-- ===== src/Protocol/Steps.antt =====
-- The steps of the threads on the shared state, and the run of a callback.
pub mod Delivery
pub mod Lifecycle
use truenas_jsonrpc.Base.{ℕ, String, List, [], ◌∷◌}
use truenas_jsonrpc.Value.{Value}
use truenas_jsonrpc.Types.{SessionLifecycle, closed, Attempt}
use truenas_jsonrpc.Registry.{
  Registry, update, register_request, complete, update_progress, publish, poll_notification,
  subscribe, unsubscribe, unsubscribe_all, set_cancelled, set_audit,
}
use truenas_jsonrpc.Session.{Session, Internal}
use truenas_jsonrpc.Protocol.{
  World, Step, registers, completes, progresses, publishes, polls, subscribes, unsubscribes,
  cancels, audits, closes, commits, sets_internal, Callback,
}

abbrev pub uuid_in : (ℕ → Session) → ℕ → String
uuid_in sessions s = (sessions s).session_uuid

abbrev pub on_registry : (Registry → Registry) → World → World
on_registry f w = record w { registry = f w.registry }

abbrev pub set_lifecycle : ℕ → SessionLifecycle → World → World
set_lifecycle s l w = record w {
  sessions = update w.sessions s (record (w.sessions s) { lifecycle = l });
}

-- `unsubscribe_all(session)`
unfoldable pub drop_subscriptions : ℕ → World → World
unfolding unsubscribe_all
drop_subscriptions s w = record w {
  registry = (unsubscribe_all (uuid_in w.sessions) s w.registry).0;
}

-- `close_session`
unfoldable pub close_session : ℕ → World → World
unfolding drop_subscriptions
close_session s w = drop_subscriptions s (set_lifecycle s closed w)

-- `session.lifecycle = lifecycle; session.server_state_external = result`
unfoldable pub commit_setup : ℕ → SessionLifecycle → Value → World → World
commit_setup s l v w = record w {
  sessions = update w.sessions s (record (w.sessions s) { lifecycle = l; external = v });
}

-- `session_state.server_state_internal = i`
unfoldable pub set_internal : ℕ → Internal → World → World
set_internal s i w = record w {
  sessions = update w.sessions s (record (w.sessions s) { internal = i });
}

unfoldable pub perform : Step → World → World
unfolding close_session commit_setup set_internal
perform (registers rid s c) w = on_registry (register_request rid s c) w
perform (completes r) w = on_registry (complete r) w
perform (progresses r p) w = on_registry (update_progress r p) w
perform (publishes t m) w = on_registry (publish t m) w
perform polls w = on_registry (λ g. (poll_notification g).1) w
perform (subscribes t i s v) w = on_registry (subscribe t i s v) w
perform (unsubscribes i) w = on_registry (λ g. (unsubscribe i g).0) w
perform (cancels r) w = on_registry (set_cancelled r) w
perform (audits r m) w = on_registry (set_audit r m) w
perform (closes s) w = close_session s w
perform (commits s l v) w = commit_setup s l v w
perform (sets_internal s i) w = set_internal s i w

unfoldable pub perform_all : List Step → World → World
unfolding perform
perform_all [] w = w
perform_all (t ∷ ts) w = perform_all ts (perform t w)

-- A callback runs to its end.
unfoldable pub run_callback {ℓ} : {A : Type ℓ} → Callback A → World → World × Attempt A
unfolding perform_all
run_callback f w = let (steps, result) = f w in (perform_all steps w, result)
