-- ===== src/Protocol/Audit/Laws.antt =====
-- truenas_pyjsonrpc/protocol.py: the audit queue and the calls of the audit handler.
use truenas_jsonrpc.Base.{
  ℕ, zero, ◌≡◌, refl, sym, ◌∙◌, true, false, none, some, List, [], ◌∷◌, ◌++◌, map, length, suc,
}
use mathlib.Core.List.{append_assoc, append-nil}
use truenas_jsonrpc.Protocol.{World, Protocol, AuditJob, Step, closes}
use truenas_jsonrpc.Protocol.Steps.{perform, perform_all}
use truenas_jsonrpc.Protocol.Audit.{audit_job, audit_record, poll_audit, polled_job, run_record}

-- No step of a thread touches the audit state.
pub perform-audit :
    (t : Step) (w : World)
    → ((perform t w).audit_log ≡ w.audit_log) × ((perform t w).audit_queue ≡ w.audit_queue)
unfolding perform
perform-audit (closes s) w = (refl, refl)
perform-audit _ w = (refl, refl)

pub perform_all-audit :
    (ts : List Step) (w : World)
    → ((perform_all ts w).audit_log ≡ w.audit_log)
      × ((perform_all ts w).audit_queue ≡ w.audit_queue)
unfolding perform_all
perform_all-audit [] w = (refl, refl)
perform_all-audit (t ∷ ts) w =
    let (a, b) = perform-audit t w in
    let (c, d) = perform_all-audit ts (perform t w) in (c ∙ a, d ∙ b)

-- The audit thread's loop: poll, run, until the queue is empty; the fuel is the queue's length.
unfoldable pub drain : Protocol → ℕ → World → World
unfolding poll_audit run_record
drain p zero w = w
drain p (suc n) w =
    let (o, w') = poll_audit p w in elim o [ none ↦ w' | some r ↦ drain p n (run_record r w') ]

unfoldable pub audit_all : Protocol → List AuditJob → World → World
unfolding audit_job
audit_all p [] w = w
audit_all p (j ∷ js) w = audit_all p js (audit_job p j w)

abbrev pub queued : Protocol → Protocol
queued p = record p { use_audit_queue = true }

abbrev pub inline : Protocol → Protocol
inline p = record p { use_audit_queue = false }

audit_all-queued :
    (p : Protocol) (js : List AuditJob) (w : World)
    → audit_all (queued p) js w ≡ record w { audit_queue = w.audit_queue ++ js }
unfolding audit_all
audit_all-queued p [] w = simp append-nil
audit_all-queued p (j ∷ js) w =
    audit_all-queued p js (record w { audit_queue = w.audit_queue ++ (j ∷ []) }) ∙ simp append_assoc

audit_all-inline :
    (p : Protocol) (js : List AuditJob) (w : World)
    → audit_all (inline p) js w
      ≡ record w { audit_log = w.audit_log ++ map (audit_record p.classes) js }
unfolding audit_all
audit_all-inline p [] w = simp append-nil
audit_all-inline p (j ∷ js) w =
    audit_all-inline p js (record w { audit_log = w.audit_log ++ (audit_record p.classes j ∷ []) })
    ∙ simp append_assoc

drain-all :
    (p : Protocol) (js : List AuditJob) (w : World)
    → w.audit_queue ≡ js
    → drain p (length js) w
      ≡ record w { audit_queue = []; audit_log = w.audit_log ++ map (audit_record p.classes) js }
unfolding drain polled_job
drain-all p [] w e = rw append-nil (λ i. record w { audit_queue = e i })
drain-all p (j ∷ js) w e =
    rw (e, polled_job)
      (drain-all p js
          (record w {
            audit_queue = js;
            audit_log = w.audit_log ++ (audit_record p.classes j ∷ []);
          })
          refl
        ∙ simp append_assoc)

-- From an empty queue, enqueueing any jobs and letting the audit thread drain the queue makes the
-- same handler calls, in the same order, as running each job inline, and leaves the same state.
pub drain-queued :
    (p : Protocol) (js : List AuditJob) (w : World)
    → w.audit_queue ≡ []
    → drain (queued p) (length js) (audit_all (queued p) js w) ≡ audit_all (inline p) js w
drain-queued p js w e = rw (audit_all-queued p js w) (
    drain-all (queued p) js (record w { audit_queue = w.audit_queue ++ js }) (rw e)
    ∙ sym (λ i. record w {
      audit_queue = e i;
      audit_log = w.audit_log ++ map (audit_record p.classes) js;
    })
    ∙ sym (audit_all-inline p js w))
