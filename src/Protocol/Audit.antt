-- ===== src/Protocol/Audit.antt =====
-- truenas_pyjsonrpc/protocol.py: the audit path, from the call sites' test to the record that the
-- handler is run on. What the handler itself does is outside; its exceptions are swallowed.
pub mod Laws
use truenas_jsonrpc.Base.{
  ℕ, String, Bool, true, false, Option, none, some, List, [], ◌∷◌, ◌++◌, ◌<>◌, ◌&&◌, if◌then◌else◌,
}
use truenas_jsonrpc.Value.{truthy_text}
use truenas_jsonrpc.Types.{Request, Response, success, failure}
use truenas_jsonrpc.Redaction.{Plan, ClassPlans, redact}
use truenas_jsonrpc.Protocol.{World, Protocol, AuditInfo, AuditJob, AuditRecord}

-- `x or ...`: a text that is None or empty counts as absent.
present : Option String → Option String
present none = none
present (some t) = if truthy_text t then some t else none

joined : Option String → Option String → Option String
joined none d = d
joined (some b) none = some b
joined (some b) (some d) = some (b <> " " <> d)

-- `_assemble_audit_message`
unfoldable pub assemble_audit_message : Option String → Option String → Option String
unfolding present joined
assemble_audit_message base detail = joined (present base) (present detail)

plan_of : (AuditInfo → Option Plan) → Option AuditInfo → Option Plan
plan_of f none = none
plan_of f (some i) = f i

base_of : Option AuditInfo → Option String
base_of none = none
base_of (some i) = i.audit_message

-- A result is redacted by the method's plan, an error is left alone.
unfoldable pub redact_response : ClassPlans → Option Plan → Response → Response
redact_response classes plan (success i v) = success i (redact classes plan v)
redact_response classes plan (failure i c m d) = failure i c m d

-- `_audit_record`
unfoldable pub audit_record : ClassPlans → AuditJob → AuditRecord
unfolding assemble_audit_message plan_of base_of redact_response
audit_record classes j = record {
  handler = j.handler;
  request = record j.request {
    params = redact classes (plan_of (λ i. i.accepts_plan) j.info) j.request.params;
  };
  response = redact_response classes (plan_of (λ i. i.returns_plan) j.info) j.response;
  session_state = j.session_state;
  audit_message = assemble_audit_message (base_of j.info) j.detail;
}

-- `_audit`: enqueue, or run at once.
unfoldable pub audit_job : Protocol → AuditJob → World → World
audit_job p j w =
    if p.use_audit_queue
    then record w { audit_queue = w.audit_queue ++ (j ∷ []) }
    else record w { audit_log = w.audit_log ++ (audit_record p.classes j ∷ []) }

-- The call sites: with a handler registered, and where the method is audited.
unfoldable pub audit :
    Protocol → Bool → Request → Response → ℕ → Option AuditInfo → Option String → World → World
unfolding audit_job
audit p on req resp s info detail w = elim p.audit_handler [
  | none ↦ w
  | some h ↦
      if on
      then audit_job p
          (record {
            handler = h;
            request = req;
            response = resp;
            session_state = s;
            info = info;
            detail = detail;
          })
          w
      else w
]

polled_job : ClassPlans → List AuditJob → World → Option AuditRecord × World
polled_job classes [] w = (none, w)
polled_job classes (j ∷ js) w = (some (audit_record classes j), record w { audit_queue = js })

-- `poll_audit` where it does not wait.
unfoldable pub poll_audit : Protocol → World → Option AuditRecord × World
unfolding polled_job
poll_audit p w = polled_job p.classes w.audit_queue w

-- `AuditRecord.run`: the call is made, and whatever it raises is swallowed.
unfoldable pub run_record : AuditRecord → World → World
run_record r w = record w { audit_log = w.audit_log ++ (r ∷ []) }
