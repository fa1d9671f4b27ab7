-- ===== src/Protocol/Transfers.antt =====
-- truenas_pyjsonrpc/protocol.py: raw-fd transfers, `_begin_transfer` up to the directive that the
-- server drives, and `_run_transfer` from the handle that the server makes.
pub mod Replies
pub mod Lifecycle
pub mod Audited
use truenas_jsonrpc.Base.{ℕ, String, Bool, true, false, Option, none, some, List, if◌then◌else◌}
use truenas_jsonrpc.Value.{Value, str, obj, pair, end}
use truenas_jsonrpc.Types.{Attempt, Request, Response, TransferDirection, direction_text}
use truenas_jsonrpc.Protocol.{
  Codec, World, Protocol, Method, TransferParts, FileTransfer, no_argument,
}
use truenas_jsonrpc.Protocol.Steps.{run_callback}
use truenas_jsonrpc.Protocol.Results.{Outcome, value, refused, caught, handler_response}
use truenas_jsonrpc.Protocol.Handlers.{authorize}
use truenas_jsonrpc.Protocol.Audit.{audit}
use truenas_jsonrpc.Protocol.Control.{invalid_request_error}

-- The directive `Transfer`; what its `run` closes over is kept beside the wire fields.
pub record Transfer : Type 0 where
  pub rid : Option String
  pub direction : TransferDirection
  pub params : Value
  pub session_state : ℕ
  pub ready : Value
  pub af_unix : Bool
  pub method : Method
  pub parts : TransferParts
  pub request : Request

-- What `dispatch` does: it returns nothing to send, a response, or a transfer for the server to drive,
-- or it lets out the exception of an interim result that `to_builtins` does not take.
pub data Reply : Type 0 where
  silent : Reply
  respond : Response → Reply
  transfer : Transfer → Reply
  raises : Reply

ready_message : String → TransferDirection → Value → Value
ready_message rid d interim = obj (
    pair "jsonrpc" (str "2.0") (
      pair "method" (str "$/transferReady") (
        pair "params"
          (obj (
            pair "id" (str rid)
              (pair "direction" (str (direction_text d)) (pair "result" interim end))))
          end)))

abbrev pub map_outcome : (Value → Option Value) → Outcome Value → Outcome (Option Value)
map_outcome f (refused r) = refused r
map_outcome f (value v) = value (f v)

-- A failed attempt is audited as a normal method's is.
fail : Protocol → Method → Request → ℕ → Response → World → World × Reply
unfolding audit
fail p m req s r w = (audit p m.audit req r s (some m.info) none w, respond r)

-- `msgspec.to_builtins(interim)` stands outside the `try`: where it raises, so does `dispatch`, and
-- nothing is audited.
negotiated :
    Protocol
    → Method
    → TransferParts
    → Request
    → String
    → ℕ
    → Outcome (Option Value)
    → World
    → World × Reply
unfolding fail ready_message
negotiated p m parts req rid s (refused r) w = fail p m req s r w
negotiated p m parts req rid s (value none) w = (w, raises)
negotiated p m parts req rid s (value (some interim)) w = (
  w,
  transfer (record {
    rid = some rid;
    direction = parts.transfer_direction;
    params = req.params;
    session_state = s;
    ready = ready_message rid parts.transfer_direction interim;
    af_unix = parts.af_unix;
    method = m;
    parts = parts;
    request = req;
  }),
)

-- `_begin_transfer`; a request without an id is refused first.
unfoldable pub begin_transfer :
    Protocol → Codec → Method → TransferParts → Request → Option String → ℕ → World → World × Reply
unfolding authorize fail negotiated run_callback caught
begin_transfer p codec m parts req none s w =
    (w, respond (invalid_request_error none "a transfer request requires an 'id'"))
begin_transfer p codec m parts req (some rid) s w =
    let (w', denied) = authorize p req s no_argument w in
    elim denied [
      | some r ↦ fail p m req s r w'
      | none ↦
          let (w'', interim) = run_callback (parts.negotiate req.params s) w' in
          negotiated p m parts req rid s (map_outcome codec.to_builtins (caught (some rid) interim))
            w''
    ]

-- `_do_transfer`
unfoldable pub do_transfer : Transfer → FileTransfer → World → World × Response
unfolding run_callback handler_response caught
do_transfer t ft w =
    let (w', result) = run_callback (t.parts.transfer ft) w in
    (w', handler_response t.rid t.method.returns t.method.returns_validator (caught t.rid result))

-- `_run_transfer`, which `Transfer.complete` calls.
unfoldable pub run_transfer : Protocol → Transfer → FileTransfer → World → World × Response
unfolding do_transfer audit
run_transfer p t ft w =
    let (w', r) = do_transfer t ft w in
    (audit p t.method.audit t.request r t.session_state (some t.method.info) none w', r)
