-- ===== src/Protocol/Control/Lifecycle.antt =====
-- truenas_pyjsonrpc/protocol.py: how the control messages change a session's lifecycle.
use truenas_jsonrpc.Base.{
  ℕ, String, ◌≡◌, refl, ◌∙◌, ◌⊎◌, inl, inr, Bool, true, false, ◌||◌, Option, none, some,
  Option-cases, Bool-cases, arith, lookup, if_both,
}
use truenas_jsonrpc.Value.{Value, null}
use truenas_jsonrpc.Types.{
  Attempt, returned, raised, raised_rpc, Request, Response, SessionLifecycle, fresh, init,
  established, closed, is_fresh, is_init, is_established,
}
use truenas_jsonrpc.Protocol.{
  World, Protocol, Codec, Method, fd_transfer, TransferParts, Call, Callback, SetupMethod,
  SetupOutcome, outcome, no_pair, no_lifecycle, Target, request_target, subscription_target,
  TargetArgument, argument, AuthReply, ServerInfoHandler, Checked, valid, invalid, CancelDecoded,
  cancel_params, bad_params, AuditInfo,
}
use truenas_jsonrpc.Protocol.Steps.{run_callback, commit_setup, drop_subscriptions, set_lifecycle}
use truenas_jsonrpc.Protocol.Steps.Lifecycle.{lifecycle_of, IsCalm, run_callback-lifecycle}
use truenas_jsonrpc.Protocol.Results.{caught, validate}
use truenas_jsonrpc.Protocol.Handlers.{authorize}
use truenas_jsonrpc.Protocol.Audit.{audit}
use truenas_jsonrpc.Protocol.Control.{
  Answered, abort, cancel_target, authorize_and_cancel, find_target, cancel_checked, handle_cancel,
  handle_server_info, commit_checked, setup_outcome, dispatch_session_setup, setup_checked,
  setup_step, handle_session_setup, handle_session_continue, handle_session_close, setup_refusal,
  continue_refusal,
}

-- The connection is driven sequentially: no callback, and no thread beside one, changes the
-- session's lifecycle.
pub record IsSequential (p : Protocol) (s : ℕ) : Type 0 where
  pub authorizing :
      (f : Request → ℕ → TargetArgument → Callback AuthReply)
      → p.authorization_handler ≡ some f
      → (req : Request) (q : ℕ) (t : TargetArgument) → IsCalm s (f req q t)
  pub cancelling :
      (f : Request → ℕ → ℕ → Callback (Unit {0}))
      → p.cancellation_handler ≡ some f
      → (req : Request) (r q : ℕ) → IsCalm s (f req r q)
  pub informing :
      (i : ServerInfoHandler) → p.server_info ≡ some i → (q : ℕ) → IsCalm s (i.handler q)
  pub setting_up :
      (m : SetupMethod) → p.session_setup ≡ some m → (v : Value) → IsCalm s (m.handler v s)
  pub continuing :
      (m : SetupMethod) → p.session_setup_continue ≡ some m → (v : Value) → IsCalm s (m.handler v s)
  pub handling :
      (name : String) (m : Method) (f : Call → Callback Value)
      → lookup name p.methods ≡ some m
      → m.handler ≡ some f
      → (c : Call) → IsCalm s (f c)
  pub negotiating :
      (name : String) (m : Method) (parts : TransferParts)
      → lookup name p.methods ≡ some m
      → m.kind ≡ fd_transfer parts
      → (v : Value) (q : ℕ) → IsCalm s (parts.negotiate v q)

-- How one message may change the lifecycle: not at all, to CLOSED, or to what the handler of the
-- setup step that the lifecycle allows has returned.
pub data Change (p : Protocol) (s : ℕ) (w : World) (l : SessionLifecycle) : Type 0 where
  stays : l ≡ lifecycle_of s w → Change p s w l
  closes :
      (lifecycle_of s w ≡ init) ⊎ (lifecycle_of s w ≡ established) → l ≡ closed → Change p s w l
  sets_up :
      (m : SetupMethod) (params v : Value)
      → p.session_setup ≡ some m
      → lifecycle_of s w ≡ fresh
      → (run_callback (m.handler params s) w).1 ≡ returned (outcome l v)
      → Change p s w l
  continues :
      (m : SetupMethod) (params v : Value)
      → p.session_setup_continue ≡ some m
      → lifecycle_of s w ≡ init
      → (run_callback (m.handler params s) w).1 ≡ returned (outcome l v)
      → Change p s w l

pub audit-lifecycle :
    (p : Protocol) (on : Bool) (req : Request) (r : Response) (q : ℕ) (i : Option AuditInfo)
    (d : Option String) (s : ℕ) (w : World)
    → lifecycle_of s (audit p on req r q i d w) ≡ lifecycle_of s w
unfolding audit
audit-lifecycle p on req r q i d s w = ground arith

module _ (p : Protocol) (s : ℕ) (calm : IsSequential p s) where
  pub authorize-lifecycle :
      (req : Request) (q : ℕ) (t : TargetArgument) (w : World)
      → lifecycle_of s (authorize p req q t w).0 ≡ lifecycle_of s w
  unfolding authorize
  authorize-lifecycle req q t w = elim (Option-cases p.authorization_handler) [
    | inl e ↦ rw (e, authorize)
    | inr (f, e) ↦
        rw (e, authorize) (run_callback-lifecycle s (f req q t) w (calm.authorizing f e req q t))
  ]

  abort-lifecycle :
      (req : Request) (r q : ℕ) (w : World)
      → lifecycle_of s (abort p req r q w).0 ≡ lifecycle_of s w
  unfolding abort
  abort-lifecycle req r q w = elim (Option-cases p.cancellation_handler) [
    | inl e ↦ rw (e, abort)
    | inr (f, e) ↦
        rw (e, abort) (run_callback-lifecycle s (f req r q) w (calm.cancelling f e req r q))
  ]

  cancel_target-lifecycle :
      (req : Request) (i : String) (t : Option Target) (q : ℕ) (w : World)
      → lifecycle_of s (cancel_target p req i t q w).0 ≡ lifecycle_of s w
  unfolding cancel_target
  cancel_target-lifecycle req i none q w = refl
  cancel_target-lifecycle req i (some (subscription_target x)) q w = refl
  cancel_target-lifecycle req i (some (request_target r)) q w = grind (arith, abort-lifecycle)

  authorize_and_cancel-lifecycle :
      (req : Request) (i : String) (q : ℕ) (w : World)
      → lifecycle_of s (authorize_and_cancel p req i q w).0 ≡ lifecycle_of s w
  unfolding authorize_and_cancel
  authorize_and_cancel-lifecycle req i q w =
      let t = find_target i w.registry in
      let same = authorize-lifecycle req q (argument t) w in
      elim (Option-cases (authorize p req q (argument t) w).1) [
        | inl e ↦
            rw (e, authorize_and_cancel)
              (cancel_target-lifecycle req i t q (authorize p req q (argument t) w).0 ∙ same)
        | inr (r, e) ↦ rw (e, authorize_and_cancel) same
      ]

  cancel_checked-lifecycle :
      (c : CancelDecoded) (rid : Option String) (q : ℕ) (w : World)
      → lifecycle_of s (cancel_checked p c rid q w).0 ≡ lifecycle_of s w
  unfolding cancel_checked
  cancel_checked-lifecycle (bad_params t) rid q w = refl
  cancel_checked-lifecycle (cancel_params i) rid q w =
      audit-lifecycle p true _ _ q none none s _ ∙ authorize_and_cancel-lifecycle _ i q w

  pub handle_cancel-lifecycle :
      (codec : Codec) (raw : String) (rid : Option String) (note : Bool) (q : ℕ) (w : World)
      → lifecycle_of s (handle_cancel p codec raw rid note q w).0 ≡ lifecycle_of s w
  unfolding handle_cancel
  handle_cancel-lifecycle codec raw rid true q w = refl
  handle_cancel-lifecycle codec raw rid false q w =
      cancel_checked-lifecycle (codec.decode_cancel raw) rid q w

  pub handle_server_info-lifecycle :
      (rid : Option String) (note : Bool) (q : ℕ) (w : World)
      → lifecycle_of s (handle_server_info p rid note q w).0 ≡ lifecycle_of s w
  unfolding handle_server_info
  handle_server_info-lifecycle rid note q w = elim (Option-cases p.server_info) [
    | inl e ↦ rw (e, handle_server_info)
    | inr (i, e) ↦
        rw (e, handle_server_info)
          (if_both (λ (x : Answered). lifecycle_of s x.0 ≡ lifecycle_of s w) note _ _ refl
            (run_callback-lifecycle s (i.handler q) w (calm.informing i e q)))
  ]

-- The commit of a setup step is the handler's verdict, or nothing.
abbrev pub Verdict : SetupMethod → Value → ℕ → World → SessionLifecycle → Type 0
Verdict m v s w l =
    (l ≡ lifecycle_of s w)
    ⊎ ((u : Value) × ((run_callback (m.handler v s) w).1 ≡ returned (outcome l u)))

commit_checked-lifecycle :
    (rid : Option String) (l : SessionLifecycle) (s : ℕ) (c : Checked) (w : World)
    → (lifecycle_of s (commit_checked rid l s c w).0 ≡ lifecycle_of s w)
      ⊎ (lifecycle_of s (commit_checked rid l s c w).0 ≡ l)
unfolding commit_checked commit_setup
commit_checked-lifecycle rid l s (valid v) w = inr (ground arith)
commit_checked-lifecycle rid l s (invalid t) w = inl refl

setup_outcome-Verdict :
    (m : SetupMethod) (v : Value) (rid : Option String) (s : ℕ) (w w' : World)
    (a : Attempt SetupOutcome)
    → (run_callback (m.handler v s) w).1 ≡ a
    → lifecycle_of s w' ≡ lifecycle_of s w
    → Verdict m v s w (lifecycle_of s (setup_outcome m rid s (caught rid a) w').0)
unfolding setup_outcome caught
setup_outcome-Verdict m v rid s w w' (returned no_pair) e same = inl same
setup_outcome-Verdict m v rid s w w' (returned no_lifecycle) e same = inl same
setup_outcome-Verdict m v rid s w w' (raised_rpc c x d t) e same = inl same
setup_outcome-Verdict m v rid s w w' (raised t) e same = inl same
setup_outcome-Verdict m v rid s w w' (returned (outcome l u)) e same =
    elim (commit_checked-lifecycle rid l s (m.returns u) w') [
      | inl k ↦ inl (k ∙ same)
      | inr k ↦ inr (u, rw k e)
    ]

setup_checked-Verdict :
    (p : Protocol) (m : SetupMethod) (name : String) (c : Checked) (rid : Option String) (s : ℕ)
    (w : World)
    → ((v : Value) → IsCalm s (m.handler v s))
    → (v : Value) × Verdict m v s w (lifecycle_of s (setup_checked p m name c rid s w).0)
unfolding setup_checked dispatch_session_setup
setup_checked-Verdict p m name (invalid t) rid s w calm = (null, inl refl)
setup_checked-Verdict p m name (valid v) rid s w calm = (
  v,
  rw audit-lifecycle (
      setup_outcome-Verdict m v rid s w _ _ refl
        (run_callback-lifecycle s (m.handler v s) w (calm v))),
)

-- What a setup step makes of the lifecycle: nothing, or its handler's verdict where it was wanted.
abbrev StepVerdict : Option SetupMethod → Bool → ℕ → World → SessionLifecycle → Type 0
StepVerdict o allowed s w l =
    (l ≡ lifecycle_of s w)
    ⊎ ((m : SetupMethod) × (v u : Value) × (o ≡ some m)
        × (allowed ≡ true)
        × ((run_callback (m.handler v s) w).1 ≡ returned (outcome l u)))

Verdict-StepVerdict :
    (m : SetupMethod) (v : Value) (s : ℕ) (w : World) (l : SessionLifecycle)
    → Verdict m v s w l
    → StepVerdict (some m) true s w l
Verdict-StepVerdict m v s w l (inl k) = inl k
Verdict-StepVerdict m v s w l (inr (u, e)) = inr (m, v, u, refl, refl, e)

setup_step-Verdict :
    (p : Protocol) (o : Option SetupMethod) (name : String) (wanted : SessionLifecycle → Bool)
    (refusal raw : String) (rid : Option String) (note : Bool) (s : ℕ) (w : World)
    → ((m : SetupMethod) → o ≡ some m → (v : Value) → IsCalm s (m.handler v s))
    → StepVerdict o
        (wanted (lifecycle_of s w))
        s
        w
        (lifecycle_of s (setup_step p o name wanted refusal raw rid note s w).0)
unfolding setup_step
setup_step-Verdict p none name wanted refusal raw rid note s w calm = inl refl
setup_step-Verdict p (some m) name wanted refusal raw rid true s w calm = inl refl
setup_step-Verdict p (some m) name wanted refusal raw rid false s w calm =
    elim (Bool-cases (wanted (lifecycle_of s w))) [
      | inl allowed ↦
          rw (allowed, setup_step)
            (let (v, k) =
                setup_checked-Verdict p m name (validate m.accepts_validator (m.decode_params raw))
                  rid s w (calm m refl) in
              Verdict-StepVerdict m v s w _ k)
      | inr refusing ↦ rw (refusing, setup_step) (inl refl)
    ]

is_fresh-eq : (l : SessionLifecycle) → is_fresh l ≡ true → l ≡ fresh
is_fresh-eq l e = ground arith

is_init-eq : (l : SessionLifecycle) → is_init l ≡ true → l ≡ init
is_init-eq l e = ground arith

open-cases :
    (l : SessionLifecycle) → (is_init l || is_established l) ≡ true → (l ≡ init) ⊎ (l ≡ established)
open-cases fresh e = cc
open-cases init e = inl refl
open-cases established e = inr refl
open-cases closed e = cc

closing-lifecycle :
    (s : ℕ) (w : World) → lifecycle_of s (drop_subscriptions s (set_lifecycle s closed w)) ≡ closed
unfolding drop_subscriptions
closing-lifecycle s w = ground arith

module _ (p : Protocol) (s : ℕ) (calm : IsSequential p s) where
  pub handle_session_setup-Change :
      (raw : String) (rid : Option String) (note : Bool) (w : World)
      → Change p s w (lifecycle_of s (handle_session_setup p raw rid note s w).0)
  unfolding handle_session_setup
  handle_session_setup-Change raw rid note w =
      elim (setup_step-Verdict p p.session_setup "$/sessionSetup" is_fresh setup_refusal raw rid
        note s w calm.setting_up) [
          | inl k ↦ stays k
          | inr (m, v, u, e, a, h) ↦ sets_up m v u e (is_fresh-eq _ a) h
        ]

  pub handle_session_continue-Change :
      (raw : String) (rid : Option String) (note : Bool) (w : World)
      → Change p s w (lifecycle_of s (handle_session_continue p raw rid note s w).0)
  unfolding handle_session_continue
  handle_session_continue-Change raw rid note w =
      elim (setup_step-Verdict p p.session_setup_continue "$/sessionSetupContinue" is_init
        continue_refusal raw rid note s w calm.continuing) [
          | inl k ↦ stays k
          | inr (m, v, u, e, a, h) ↦ continues m v u e (is_init-eq _ a) h
        ]

  pub handle_session_close-Change :
      (rid : Option String) (note : Bool) (w : World)
      → Change p s w (lifecycle_of s (handle_session_close p rid note s w).0)
  unfolding handle_session_close
  handle_session_close-Change rid true w = stays refl
  handle_session_close-Change rid false w =
      let l = lifecycle_of s w in
      elim (Bool-cases (is_init l || is_established l)) [
        | inl open_ ↦
            rw (open_, handle_session_close)
              (closes (open-cases l open_)
                (audit-lifecycle p true _ _ s none none s _ ∙ closing-lifecycle s w))
        | inr shut ↦ rw (shut, handle_session_close) (stays refl)
      ]
