-- ===== src/Tests/Protocols.antt =====
-- The theorems on the protocol, each at a concrete input.
use truenas_jsonrpc.Base.{
  ℕ, String, ◌≡◌, refl, ◌==◌, ◌++◌, true, false, none, some, List, [], ◌∷◌, lookup, length, ◌+◌,
  insert, if◌then◌else◌, Bool-cases, inl, inr, subst, sym,
}
use truenas_jsonrpc.Value.{null, str}
use truenas_jsonrpc.Types.{closed, is_established, success, Request}
use truenas_jsonrpc.Registry.{register_request, complete, empty_registry}
use truenas_jsonrpc.Registry.Delivery.{Inv, IsQuiet, empty-Inv, register_request-Inv}
use mathlib.Core.Option.{some-injective, none-ne-some}
use truenas_jsonrpc.Protocol.{
  World, Protocol, Method, SetupMethod, TransferParts, plain, AuditJob, fd_transfer, Step,
  progresses, publishes, polls,
}
use truenas_jsonrpc.Protocol.Steps.{on_registry, perform_all, set_lifecycle}
use truenas_jsonrpc.Protocol.Steps.Lifecycle.{lifecycle_of, IsCalm}
use truenas_jsonrpc.Protocol.Steps.Delivery.{no_late_progress}
use truenas_jsonrpc.Protocol.Handlers.{run_handler}
use truenas_jsonrpc.Protocol.Handlers.Delivery.{run_handler-IsQuiet, IsOrderly}
use truenas_jsonrpc.Protocol.Control.Lifecycle.{IsSequential, Change}
use truenas_jsonrpc.Protocol.Dispatch.{dispatch_one, dispatch_message, run_method}
use truenas_jsonrpc.Protocol.Dispatch.Lifecycle.{dispatch_one-Change}
use truenas_jsonrpc.Protocol.Dispatch.Gate.{gate_blocks, IsRefusal, closed_refuses}
use truenas_jsonrpc.Protocol.Dispatch.Traces.{dispatch_all, established-IsGranted, IsGranted}
use truenas_jsonrpc.Protocol.Transfers.{Transfer, begin_transfer, run_transfer}
use truenas_jsonrpc.Protocol.Transfers.Audited.{begin_transfer-count, audits_at_once}
use truenas_jsonrpc.Protocol.{FileTransfer}
use truenas_jsonrpc.Types.{download, raised, returned}
use truenas_jsonrpc.Protocol.Dispatch.Audited.{run_method-count, audit_count, audits_once}
use truenas_jsonrpc.Protocol.Audit.Laws.{drain-queued, drain, audit_all, queued, inline}
use truenas_jsonrpc.Protocol.Setup.{IsTable, register, configured, register-IsTable, is_reserved}
use truenas_jsonrpc.Tests.{
  request_uuid, progress, ping_handler, ping, login, demo, codec, start, info,
}

no_id_yet : (i : String) (r : ℕ) → ¬ ((empty_registry.requests r).id ≡ some i)
unfolding empty_registry
no_id_yet i r e = cc

abbrev busy : World
busy = on_registry (register_request (some "r") 0 true) start

busy-Inv : Inv busy.registry
busy-Inv = register_request-Inv empty_registry empty-Inv (some "r") 0 true (λ i e r. no_id_yet i r)

busy_id : (busy.registry.requests 0).id ≡ some "r"
unfolding register_request empty_registry
busy_id = refl

abbrev late : List Step
late = progresses 0 progress ∷ publishes "t" null ∷ polls ∷ []

no_late_progress_example :
    IsQuiet "r" (perform_all late (on_registry (complete 0) busy)).registry.outbound
no_late_progress_example = no_late_progress late busy 0 "r" busy-Inv busy_id (tt, (tt, (tt, tt)))

ping-IsOrderly : IsOrderly ping_handler
ping-IsOrderly c w = (tt, (tt, tt))

run_handler-IsQuiet_example :
    let g = (run_handler codec ping ping_handler null (some "r") 0 start).world.registry in
    Inv g × (lookup "r" g.inflight ≡ none) × IsQuiet "r" g.outbound
run_handler-IsQuiet_example =
    run_handler-IsQuiet codec ping ping_handler null "r" 0 start empty-Inv (λ i e r. no_id_yet i r)
      ping-IsOrderly

-- `register` adds the method to a protocol without methods.
abbrev bare : Protocol
bare = record demo { methods = [] }

bare-IsTable : IsTable bare
unfolding lookup
bare-IsTable = record { entry = λ name m e. absurd (none-ne-some _ e) }

register-ping : register ping bare ≡ configured demo
unfolding register is_reserved lookup insert
register-ping = refl

register-IsTable_example :
    IsTable demo
    × (lookup "ping" bare.methods ≡ none)
    × ((name : String)
        → lookup name demo.methods
          ≡ (if ping.name == name then some ping else lookup name bare.methods))
register-IsTable_example = register-IsTable ping bare demo bare-IsTable register-ping

pub demo-IsTable : IsTable demo
demo-IsTable = (register-IsTable ping bare demo bare-IsTable register-ping).0

is_ping : (name : String) (m : Method) → lookup name demo.methods ≡ some m → ping ≡ m
unfolding lookup
is_ping name m e = elim (Bool-cases ("ping" == name)) [
  | inl hit ↦ some-injective ping m (rw hit at e)
  | inr miss ↦ absurd (none-ne-some _ (rw miss at e))
]

demo-IsSequential : IsSequential demo 0
demo-IsSequential = record {
  authorizing = λ f e req q t. subst (λ g. IsCalm 0 (g req q t)) (some-injective _ f e) (λ w. tt);
  cancelling = λ f e. absurd (none-ne-some _ e);
  informing = λ i e. absurd (none-ne-some _ e);
  setting_up = λ m e v.
      subst (λ (k : SetupMethod). IsCalm 0 (k.handler v 0)) (some-injective login m e) (λ w. tt);
  continuing = λ m e. absurd (none-ne-some _ e);
  handling = λ name m f e h c.
      subst (λ g. IsCalm 0 (g c))
        (some-injective ping_handler f
          (subst (λ (k : Method). k.handler ≡ some f) (sym (is_ping name m e)) h))
        (λ w. (refl, (refl, tt)));
  negotiating = λ name m parts e k. absurd (
      not_transfer parts
        (subst (λ (n : Method). n.kind ≡ fd_transfer parts) (sym (is_ping name m e)) k));
}
  where
    not_transfer : (parts : TransferParts) → ¬ (plain ≡ fd_transfer parts)
    not_transfer parts e = cc

abbrev request : Request
request = record { id = some request_uuid; method = "ping"; params = str "null"; roles = [] }

run_method-count_example :
    audit_count (run_method demo codec "u" ping request (some request_uuid) false 0 start).0
    ≡ audit_count start + audits_once demo ping.audit
run_method-count_example =
    run_method-count demo codec "u" ping request (some request_uuid) false 0 start

-- A transfer whose negotiation is refused.
abbrev refusing : TransferParts
refusing = record {
  transfer_direction = download;
  negotiate = λ v s w. ([], raised "no such dataset");
  transfer = λ ft w. ([], returned null);
  af_unix = false;
}

begin_transfer-count_example :
    let x = begin_transfer demo codec ping refusing request (some request_uuid) 0 start in
    (audit_count x.0 ≡ audit_count start + audits_at_once demo ping x.1)
    × ((t : Transfer) (ft : FileTransfer) (u : World)
        → audit_count (run_transfer demo t ft u).0
          ≡ audit_count u + audits_once demo t.method.audit)
begin_transfer-count_example =
    begin_transfer-count demo ping refusing request request_uuid 0 codec start

dispatch_one-Change_example :
    Change demo 0 start (lifecycle_of 0 (dispatch_one demo codec "u" "login" 0 start).0)
dispatch_one-Change_example = dispatch_one-Change demo 0 codec "u" "login" start demo-IsSequential

-- `$/sessionSetup` leads from a new session to one that the login handler made ESTABLISHED.
becomes-established :
    is_established (lifecycle_of 0 (dispatch_all demo codec 0 (("u", "login") ∷ []) start)) ≡ true
unfolding dispatch_all dispatch_one truenas_jsonrpc.Uuid.is_uuid
becomes-established = refl

established-IsGranted_example :
    (before after : List (String × String)) × (before ++ after ≡ ("u", "login") ∷ [])
    × IsGranted demo codec 0 (dispatch_all demo codec 0 before start)
established-IsGranted_example =
    established-IsGranted demo codec 0 demo-IsSequential (("u", "login") ∷ []) start refl
      becomes-established

abbrev logged_out : World
logged_out = set_lifecycle 0 closed start

closed_refuses_example :
    let x = dispatch_one demo codec "u" "ping" 0 logged_out in (x.0 ≡ logged_out) × IsRefusal x.1
closed_refuses_example = closed_refuses demo codec "u" "ping" 0 logged_out refl

gate_blocks_example :
    let x = dispatch_message demo codec "u" "ping" "null" (some request_uuid) false 0 start in
    (x.0 ≡ start) × IsRefusal x.1
unfolding lookup
gate_blocks_example =
    gate_blocks demo codec "u" "ping" "null" (some request_uuid) false 0 start ping demo-IsTable
      refl refl refl refl

abbrev jobs : List AuditJob
jobs =
    record {
      handler = 0;
      request = request;
      response = success (some request_uuid) (str "pong");
      session_state = 0;
      info = some info;
      detail = some "now";
    }
    ∷ record {
      handler = 0;
      request = request;
      response = success (some request_uuid) null;
      session_state = 1;
      info = none;
      detail = none;
    }
    ∷ []

drain-queued_example :
    drain (queued demo) (length jobs) (audit_all (queued demo) jobs start)
    ≡ audit_all (inline demo) jobs start
drain-queued_example = drain-queued demo jobs start refl
