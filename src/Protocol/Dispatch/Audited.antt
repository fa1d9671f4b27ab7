-- ===== src/Protocol/Dispatch/Audited.antt =====
-- truenas_pyjsonrpc/protocol.py: how often a dispatch audits.
use truenas_jsonrpc.Base.{
  ℕ, ◌+◌, String, ◌≡◌, refl, ap, ◌∙◌, Bool, Option, some, List, length, length-append, ◌&&◌,
  is_some, arith, if◌then◌else◌, Option-cases, inl, inr,
}
use truenas_jsonrpc.Value.{Value}
use truenas_jsonrpc.Types.{Request, Response}
use truenas_jsonrpc.Protocol.{
  World, Protocol, Codec, Method, AuditInfo, Callback, Call, TargetArgument, no_argument, Step,
}
use truenas_jsonrpc.Protocol.Steps.{run_callback, perform_all}
use truenas_jsonrpc.Protocol.Audit.{audit}
use truenas_jsonrpc.Protocol.Audit.Laws.{perform_all-audit}
use truenas_jsonrpc.Protocol.Handlers.{
  authorize, authorize_and_dispatch, dispatch_method, run_handler,
}
use truenas_jsonrpc.Protocol.Handlers.Delivery.{invoke_keeps}
use truenas_jsonrpc.Protocol.Dispatch.{run_method}

-- The audit events so far: calls made, and jobs queued.
abbrev pub audit_count : World → ℕ
audit_count w = length w.audit_log + length w.audit_queue

-- How many a call site adds.
abbrev pub audits_once : Protocol → Bool → ℕ
audits_once p on = if is_some p.audit_handler && on then 1 else 0

pub audit-count :
    (p : Protocol) (on : Bool) (req : Request) (r : Response) (s : ℕ) (i : Option AuditInfo)
    (d : Option String) (w : World)
    → audit_count (audit p on req r s i d w) ≡ audit_count w + audits_once p on
unfolding audit
audit-count p on req r s i d w = grind (arith, length-append)

pub perform_all-count :
    (ts : List Step) (w : World) → audit_count (perform_all ts w) ≡ audit_count w
perform_all-count ts w =
    let (a, b) = perform_all-audit ts w in omega (arith, ap length a, ap length b)

pub run_callback-count {ℓ} :
    {A : Type ℓ} (f : Callback A) (w : World) → audit_count (run_callback f w).0 ≡ audit_count w
unfolding run_callback
run_callback-count f w = perform_all-count (f w).0 w

pub authorize-count :
    (p : Protocol) (req : Request) (s : ℕ) (t : TargetArgument) (w : World)
    → audit_count (authorize p req s t w).0 ≡ audit_count w
unfolding authorize
authorize-count p req s t w = elim (Option-cases p.authorization_handler) [
  | inl e ↦ rw (e, authorize)
  | inr (f, e) ↦ rw (e, authorize) (run_callback-count (f req s t) w)
]

run_handler-count :
    (codec : Codec) (m : Method) (f : Call → Callback Value) (v : Value) (rid : Option String)
    (s : ℕ) (w : World)
    → audit_count (run_handler codec m f v rid s w).world ≡ audit_count w
unfolding run_handler
run_handler-count codec m f v rid s w =
    invoke_keeps (λ u. audit_count u ≡ audit_count w) f (λ u c e. perform_all-count (f c u).0 u ∙ e)
      codec m.kind _ _ refl

dispatch_method-count :
    (codec : Codec) (uuid : String) (m : Method) (v : Value) (rid : Option String) (s : ℕ)
    (w : World)
    → audit_count (dispatch_method codec uuid m v rid s w).world ≡ audit_count w
unfolding dispatch_method
dispatch_method-count codec uuid m v rid s w = grind (arith, run_handler-count)

authorize_and_dispatch-count :
    (p : Protocol) (codec : Codec) (uuid : String) (m : Method) (req : Request) (v : Value)
    (rid : Option String) (s : ℕ) (w : World)
    → audit_count (authorize_and_dispatch p codec uuid m req v rid s w).world ≡ audit_count w
unfolding authorize_and_dispatch
authorize_and_dispatch-count p codec uuid m req v rid s w =
    grind (arith, authorize-count p req s no_argument w, dispatch_method-count)

-- A call that `run_method` takes, which is one of any registered method but a raw-fd transfer, once
-- its params have been accepted, is audited exactly once if an audit handler is registered and the
-- method is audited, and never otherwise: denied, failed and successful calls and notifications alike.
pub run_method-count :
    (p : Protocol) (codec : Codec) (uuid : String) (m : Method) (req : Request)
    (rid : Option String) (note : Bool) (s : ℕ) (w : World)
    → audit_count (run_method p codec uuid m req rid note s w).0
      ≡ audit_count w + audits_once p m.audit
unfolding run_method
run_method-count p codec uuid m req rid note s w =
    let d = authorize_and_dispatch p codec uuid m req req.params rid s w in
    audit-count p m.audit req d.response s (some m.info) _ d.world
    ∙ ap (λ (n : ℕ). n + audits_once p m.audit)
        (authorize_and_dispatch-count p codec uuid m req req.params rid s w)
