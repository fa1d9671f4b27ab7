-- ===== src/Protocol/Transfers/Audited.antt =====
-- truenas_pyjsonrpc/protocol.py: how often a raw-fd transfer audits.
use truenas_jsonrpc.Base.{
  ℕ, ◌+◌, String, ◌≡◌, ap, ◌∙◌, Option, none, some, arith, Option-cases, inl, inr,
}
use truenas_jsonrpc.Value.{Value}
use truenas_jsonrpc.Types.{Request}
use truenas_jsonrpc.Protocol.{
  World, Protocol, Codec, Method, TransferParts, FileTransfer, no_argument,
}
use truenas_jsonrpc.Protocol.Steps.{run_callback}
use truenas_jsonrpc.Protocol.Results.{Outcome, value, refused, caught}
use truenas_jsonrpc.Protocol.Handlers.{authorize}
use truenas_jsonrpc.Protocol.Dispatch.Audited.{
  audit_count, audits_once, audit-count, run_callback-count, authorize-count,
}
use truenas_jsonrpc.Protocol.Transfers.{
  Transfer, Reply, silent, respond, transfer, raises, begin_transfer, negotiated, map_outcome,
  do_transfer, run_transfer,
}

-- How many audit events the first part of a transfer has made, by what it returns.
abbrev pub audits_at_once : Protocol → Method → Reply → ℕ
audits_at_once p m (respond r) = audits_once p m.audit
audits_at_once p m silent = 0
audits_at_once p m (transfer t) = 0
audits_at_once p m raises = 0

module _ (p : Protocol) (m : Method) (parts : TransferParts) (req : Request) (i : String)
    (s : ℕ) where
  negotiated-count :
      (o : Outcome (Option Value)) (w : World)
      → let x = negotiated p m parts req i s o w in
        audit_count x.0 ≡ audit_count w + audits_at_once p m x.1
  unfolding negotiated
  negotiated-count (refused r) w = audit-count p m.audit req r s (some m.info) none w
  negotiated-count (value none) w = omega arith
  negotiated-count (value (some v)) w = omega arith

  -- The first part of a raw-fd transfer, `_begin_transfer` for a request, is audited once where it ends
  -- the call with a response (denied, or failed to negotiate), if an audit handler is registered and the
  -- method is audited; it is not audited where the call goes on as a transfer, which is audited once
  -- when it has run, with its final response, nor where `to_builtins` raises.
  pub begin_transfer-count :
      (codec : Codec) (w : World)
      → let x = begin_transfer p codec m parts req (some i) s w in
        (audit_count x.0 ≡ audit_count w + audits_at_once p m x.1)
        × ((t : Transfer) (ft : FileTransfer) (u : World)
            → audit_count (run_transfer p t ft u).0 ≡ audit_count u + audits_once p t.method.audit)
  unfolding begin_transfer
  begin_transfer-count codec w = (first, second)
    where
      first :
          let x = begin_transfer p codec m parts req (some i) s w in
          audit_count x.0 ≡ audit_count w + audits_at_once p m x.1
      first = elim (Option-cases (authorize p req s no_argument w).1) [
        | inl e ↦
            let v = (authorize p req s no_argument w).0 in
            let called = run_callback (parts.negotiate req.params s) v in
            let o = map_outcome codec.to_builtins (caught (some i) called.1) in
            let same =
              run_callback-count (parts.negotiate req.params s) v
              ∙ authorize-count p req s no_argument w in
            rw (e, begin_transfer)
              (negotiated-count o called.0
                ∙ ap (λ (n : ℕ). n + audits_at_once p m (negotiated p m parts req i s o called.0).1)
                    same)
        | inr (r, e) ↦
            rw (e, begin_transfer)
              (audit-count p m.audit req r s (some m.info) none (authorize p req s no_argument w).0
                ∙ ap (λ (n : ℕ). n + audits_once p m.audit) (authorize-count p req s no_argument w))
      ]

      second :
          (t : Transfer) (ft : FileTransfer) (u : World)
          → audit_count (run_transfer p t ft u).0 ≡ audit_count u + audits_once p t.method.audit
      second t ft u =
          unfold run_transfer do_transfer in
          audit-count p t.method.audit t.request _ t.session_state (some t.method.info) none
            (run_callback (t.parts.transfer ft) u).0
          ∙ ap (λ (n : ℕ). n + audits_once p t.method.audit)
              (run_callback-count (t.parts.transfer ft) u)
