-- ===== src/Server/Negotiate.antt =====
-- truenas_pyjsonrpc_server/connection.py: `_handle_negotiate`. The two decoders are parameters.
use truenas_jsonrpc.Base.{
  ℕ, String, Bool, false, not, ◌||◌, Option, none, some, List, [], ◌∷◌, lookup, ◌==◌, if◌then◌else◌,
  is_none,
}
use truenas_jsonrpc.Value.{Value, Items, null, str, arr, obj, nil, cons, pair, end}
use truenas_jsonrpc.Types.{
  JsonrpcEnvelope, Response, success, error_envelope, invalid_json, invalid_request, invalid_params,
  request_failed, session_not_established,
}
use truenas_jsonrpc.Protocol.{Protocol, Decoded, envelope, malformed, not_object}
use truenas_jsonrpc.Protocol.Dispatch.{is_version, raw_params}
use truenas_jsonrpc.Server.{
  Server, bound, send_response, on_connection, register_session, protocol_names,
}

-- The params of `$/negotiate` name a protocol, or are refused with a text.
pub data Negotiation : Type 0 where
  names_protocol : String → Negotiation
  undecodable : String → Negotiation

pub record Decoders : Type 0 where
  pub decode_envelope : String → Decoded
  pub decode_negotiate : String → Negotiation

-- `env.id if isinstance(env.id, str) else None`
abbrev pub id_text : Option Value → Option String
id_text (some (str t)) = some t
id_text _ = none

unfoldable pub is_method : String → Option Value → Bool
is_method name (some (str t)) = t == name
is_method name _ = false

unfoldable pub text_items : List String → Items
text_items [] = nil
text_items (s ∷ ss) = cons (str s) (text_items ss)

abbrev pub optional_text : Option String → Value
optional_text none = null
optional_text (some t) = str t

-- The result: the protocol, the server's name and the protocols that there are.
unfoldable pub negotiate_result : String → Server → Value
unfolding text_items
negotiate_result name sv = obj (
    pair "protocol" (str name) (
      pair "server" (optional_text sv.name)
        (pair "available" (arr (text_items (protocol_names sv))) end)))

unfoldable pub refuse : ℕ → Response → Server → Server
refuse k r sv = on_connection k (send_response r (sv.connections k)) sv

-- The protocol is there: the connection is bound to it, with a new session under `uuid`.
unfoldable pub bind : ℕ → String → String → Option String → Server → Server
unfolding negotiate_result register_session
bind k name uuid rid sv =
    on_connection k
      (send_response (success rid (negotiate_result name sv)) (record (sv.connections k) {
        stage = bound;
        binding = some (record { protocol = name; session = uuid });
      }))
      (register_session uuid k sv)

unfoldable pub with_protocol :
    ℕ → String → String → Option String → Option Protocol → Server → Server
unfolding bind refuse text_items error_envelope
with_protocol k name uuid rid none sv =
    refuse k
      (error_envelope rid request_failed "Request failed" (
        obj (
          pair "reason" (str "unknown protocol")
            (pair "available" (arr (text_items (protocol_names sv))) end))))
      sv
with_protocol k name uuid rid (some p) sv = bind k name uuid rid sv

unfoldable pub with_negotiation : ℕ → String → Option String → Negotiation → Server → Server
unfolding with_protocol refuse error_envelope
with_negotiation k uuid rid (undecodable t) sv =
    refuse k (error_envelope rid invalid_params "Invalid params" (str t)) sv
with_negotiation k uuid rid (names_protocol name) sv =
    with_protocol k name uuid rid (lookup name sv.protocols) sv

unfoldable pub with_envelope : Decoders → ℕ → String → JsonrpcEnvelope → Server → Server
unfolding with_negotiation refuse error_envelope is_method is_version
with_envelope d k uuid env sv =
    let rid = id_text env.id in
    if not (is_method "$/negotiate" env.method)
    then refuse k (error_envelope rid session_not_established "negotiate a protocol first" null) sv
    else if not (is_version env.jsonrpc) || is_none rid
    then refuse k
        (error_envelope rid invalid_request "Invalid request"
          (str "$/negotiate needs jsonrpc '2.0' and a string id"))
        sv
    else with_negotiation k uuid rid (d.decode_negotiate (raw_params env.params)) sv

unfoldable pub with_decoded : Decoders → ℕ → String → Decoded → Server → Server
unfolding with_envelope refuse error_envelope
with_decoded d k uuid (malformed t) sv =
    refuse k (error_envelope none invalid_json "Parse error" (str t)) sv
with_decoded d k uuid (not_object t) sv =
    refuse k (error_envelope none invalid_json "Parse error" (str t)) sv
with_decoded d k uuid (envelope env) sv = with_envelope d k uuid env sv

-- `_handle_negotiate`; `uuid` is that of the session that it may make.
unfoldable pub handle_negotiate : Decoders → ℕ → String → String → Server → Server
unfolding with_decoded
handle_negotiate d k msg uuid sv = with_decoded d k uuid (d.decode_envelope msg) sv
