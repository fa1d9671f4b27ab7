-- ===== src/Protocol/Transfers/Lifecycle.antt =====
-- truenas_pyjsonrpc/protocol.py: a transfer's negotiation leaves the session's lifecycle alone.
use truenas_jsonrpc.Base.{ℕ, String, ◌≡◌, refl, ◌∙◌, Option, none, some, Option-cases, inl, inr}
use truenas_jsonrpc.Value.{Value}
use truenas_jsonrpc.Types.{Request}
use truenas_jsonrpc.Protocol.{World, Protocol, Codec, Method, TransferParts, no_argument}
use truenas_jsonrpc.Protocol.Steps.{run_callback}
use truenas_jsonrpc.Protocol.Steps.Lifecycle.{lifecycle_of, IsCalm, run_callback-lifecycle}
use truenas_jsonrpc.Protocol.Results.{Outcome, value, refused, caught}
use truenas_jsonrpc.Protocol.Handlers.{authorize}
use truenas_jsonrpc.Protocol.Control.Lifecycle.{IsSequential, audit-lifecycle, authorize-lifecycle}
use truenas_jsonrpc.Protocol.Transfers.{begin_transfer, negotiated, map_outcome}

module _ (p : Protocol) (codec : Codec) (s : ℕ) (calm : IsSequential p s) (m : Method)
    (parts : TransferParts) (req : Request) where
  negotiated-lifecycle :
      (i : String) (o : Outcome (Option Value)) (w : World)
      → lifecycle_of s (negotiated p m parts req i s o w).0 ≡ lifecycle_of s w
  unfolding negotiated
  negotiated-lifecycle i (value none) w = refl
  negotiated-lifecycle i (value (some v)) w = refl
  negotiated-lifecycle i (refused r) w = audit-lifecycle p m.audit req r s (some m.info) none s w

  pub begin_transfer-lifecycle :
      (rid : Option String) (w : World)
      → ((v : Value) (q : ℕ) → IsCalm s (parts.negotiate v q))
      → lifecycle_of s (begin_transfer p codec m parts req rid s w).0 ≡ lifecycle_of s w
  unfolding begin_transfer
  begin_transfer-lifecycle none w h = refl
  begin_transfer-lifecycle (some i) w h =
      let same = authorize-lifecycle p s calm req s no_argument w in
      let v = (authorize p req s no_argument w).0 in
      elim (Option-cases (authorize p req s no_argument w).1) [
        | inl e ↦
            rw (e, begin_transfer)
              (negotiated-lifecycle i
                  (map_outcome codec.to_builtins
                    (caught (some i) (run_callback (parts.negotiate req.params s) v).1))
                  (run_callback (parts.negotiate req.params s) v).0
                ∙ run_callback-lifecycle s (parts.negotiate req.params s) v (h req.params s)
                ∙ same)
        | inr (r, e) ↦
            rw (e, begin_transfer) (audit-lifecycle p m.audit req r s (some m.info) none s v ∙ same)
      ]
