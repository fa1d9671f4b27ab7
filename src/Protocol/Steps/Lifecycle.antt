-- ===== src/Protocol/Steps/Lifecycle.antt =====
-- truenas_pyjsonrpc/protocol.py: steps that leave a session's lifecycle alone.
use truenas_jsonrpc.Base.{ℕ, ◌≡◌, refl, ◌∙◌, Bool, true, not, nat_eq, List, [], ◌∷◌, arith}
use truenas_jsonrpc.Types.{SessionLifecycle}
use truenas_jsonrpc.Protocol.{World, Step, closes, commits, sets_internal, Callback}
use truenas_jsonrpc.Protocol.Steps.{
  perform, perform_all, close_session, commit_setup, set_internal, run_callback,
}

abbrev pub lifecycle_of : ℕ → World → SessionLifecycle
lifecycle_of s w = (w.sessions s).lifecycle

-- The step neither closes the session nor commits a setup of it.
abbrev pub leaves : ℕ → Step → Bool
leaves s (closes q) = not (nat_eq q s)
leaves s (commits q l v) = not (nat_eq q s)
leaves s _ = true

abbrev pub AllLeave : ℕ → List Step → Type 0
AllLeave s [] = Unit {0}
AllLeave s (t ∷ ts) = (leaves s t ≡ true) × AllLeave s ts

-- While the callback runs, neither it nor another thread changes the session's lifecycle.
abbrev pub IsCalm {ℓ} : {A : Type ℓ} → ℕ → Callback A → Type 0
IsCalm s f = (w : World) → AllLeave s (f w).0

pub perform-lifecycle :
    (s : ℕ) (t : Step) (w : World)
    → leaves s t ≡ true
    → lifecycle_of s (perform t w) ≡ lifecycle_of s w
unfolding perform close_session commit_setup set_internal
perform-lifecycle s (closes q) w h = ground arith
perform-lifecycle s (commits q l v) w h = ground arith
perform-lifecycle s (sets_internal q i) w h = ground arith
perform-lifecycle s _ w h = refl

pub perform_all-lifecycle :
    (s : ℕ) (ts : List Step) (w : World)
    → AllLeave s ts
    → lifecycle_of s (perform_all ts w) ≡ lifecycle_of s w
unfolding perform_all
perform_all-lifecycle s [] w h = refl
perform_all-lifecycle s (t ∷ ts) w h =
    perform_all-lifecycle s ts (perform t w) h.1 ∙ perform-lifecycle s t w h.0

pub run_callback-lifecycle {ℓ} :
    {A : Type ℓ} (s : ℕ) (f : Callback A) (w : World)
    → IsCalm s f
    → lifecycle_of s (run_callback f w).0 ≡ lifecycle_of s w
unfolding run_callback
run_callback-lifecycle s f w h = perform_all-lifecycle s (f w).0 w (h w)
