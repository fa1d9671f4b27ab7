-- ===== src/Protocol/Transfers/Replies.antt =====
-- truenas_pyjsonrpc/protocol.py: the replies of `_begin_transfer`.
use truenas_jsonrpc.Base.{
  ℕ, String, ◌≡◌, refl, ◌∙◌, true, Option, none, some, Option-cases, inl, inr, is_some,
}
use truenas_jsonrpc.Value.{Value}
use truenas_jsonrpc.Types.{Attempt, Request, error_envelope, returned, raised, raised_rpc}
use truenas_jsonrpc.Protocol.{World, Protocol, Codec, Method, TransferParts, no_argument}
use truenas_jsonrpc.Protocol.Results.{value, caught, internal_failure}
use truenas_jsonrpc.Protocol.Handlers.{authorize}
use truenas_jsonrpc.Protocol.Handlers.Replies.{authorize-id}
use truenas_jsonrpc.Protocol.Control.Replies.{IsAnswerTo}
use truenas_jsonrpc.Protocol.Transfers.{
  Reply, silent, respond, transfer, raises, begin_transfer, negotiated, map_outcome,
}

-- What `dispatch` may do with a message whose id is `rid`: return an answer, or, for a request, a
-- transfer under its id; it raises for a request only, and only where `to_builtins` does.
abbrev pub IsReplyTo : Codec → Option String → Reply → Type 0
IsReplyTo codec rid silent = IsAnswerTo rid none
IsReplyTo codec rid (respond r) = IsAnswerTo rid (some r)
IsReplyTo codec rid (transfer t) = (t.rid ≡ rid) × (is_some rid ≡ true)
IsReplyTo codec rid raises = (is_some rid ≡ true) × (v : Value) × (codec.to_builtins v ≡ none)

module _ (codec : Codec) (p : Protocol) (m : Method) (parts : TransferParts) (req : Request) where
  interim-IsReplyTo :
      (i : String) (s : ℕ) (v : Value) (o : Option Value) (w : World)
      → codec.to_builtins v ≡ o
      → IsReplyTo codec (some i) (negotiated p m parts req i s (value o) w).1
  unfolding negotiated
  interim-IsReplyTo i s v none w e = (refl, v, e)
  interim-IsReplyTo i s v (some u) w e = (refl, refl)

  negotiated-IsReplyTo :
      (i : String) (s : ℕ) (a : Attempt Value) (w : World)
      → IsReplyTo codec
          (some i)
          (negotiated p m parts req i s (map_outcome codec.to_builtins (caught (some i) a)) w).1
  unfolding negotiated caught error_envelope internal_failure
  negotiated-IsReplyTo i s (returned v) w = interim-IsReplyTo i s v (codec.to_builtins v) w refl
  negotiated-IsReplyTo i s (raised_rpc c x d t) w = refl
  negotiated-IsReplyTo i s (raised t) w = refl

begin_of :
    (codec : Codec) (p : Protocol) (m : Method) (parts : TransferParts) (req : Request)
    (rid : Option String) (s : ℕ) (w : World)
    → req.id ≡ rid
    → IsReplyTo codec rid (begin_transfer p codec m parts req rid s w).1
unfolding begin_transfer error_envelope
begin_of codec p m parts req none s w e = (refl, refl)
begin_of codec p m parts req (some i) s w e =
    elim (Option-cases (authorize p req s no_argument w).1) [
      | inl h ↦ rw (h, begin_transfer) (negotiated-IsReplyTo codec p m parts req i s _ _)
      | inr (r, h) ↦ rw (h, begin_transfer) (authorize-id p req s no_argument w r h ∙ e)
    ]

pub begin_transfer-IsReplyTo :
    (codec : Codec) (p : Protocol) (m : Method) (parts : TransferParts) (req : Request) (s : ℕ)
    (w : World)
    → IsReplyTo codec req.id (begin_transfer p codec m parts req req.id s w).1
begin_transfer-IsReplyTo codec p m parts req s w = begin_of codec p m parts req req.id s w refl
