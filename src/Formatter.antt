-- ===== src/Formatter.antt =====
-- truenas_pyjsonrpc/mixins/audit/record.py: `AuditFormatter` with its default extractors. Python's
-- `str` of a value and the JSON encoding are parameters; the uuid and the time that `build` draws are
-- arguments. Params and result are builtins already, so `_to_builtin` changes nothing.
pub mod Laws
use truenas_jsonrpc.Base.{
  ℕ, String, Bool, true, false, not, Option, none, some, List, [], ◌∷◌, ◌++◌, ℤ, pos, ◌==◌, ◌<>◌,
  is_some, is_none, if◌then◌else◌,
}
use text.Mathlib.Text.{starts_with}
use truenas_jsonrpc.Value.{
  Value, Items, Fields, null, bool, num, str, arr, obj, nil, cons, pair, end, truthy,
}
use truenas_jsonrpc.Redaction.{field_value}
use truenas_jsonrpc.Types.{Request}
use truenas_jsonrpc.Session.{
  Internal, nothing, seeded, identity, otp_pending, scram_pending, gssapi_pending, Peer, Session,
}
use truenas_jsonrpc.Client.Messages.{get_or}

-- `str(v)`, of a value and of a number, and `_encode(v)`.
pub record Texts : Type 0 where
  pub text_of : Value → String
  pub encode : Value → String
  pub decimal : ℕ → String

-- `EventType`
pub data EventType : Type 0 where
  method_call control_message : EventType

abbrev pub event_text : EventType → String
event_text method_call = "METHOD_CALL"
event_text control_message = "CONTROL_MESSAGE"

-- `default_event_classifier`
unfoldable pub classify : Request → EventType
classify r = if starts_with r.method "$/" then control_message else method_call

abbrev pub is_control : EventType → Bool
is_control method_call = false
is_control control_message = true

-- `a or b`
abbrev pub or_else : Option Value → Value → Value
or_else none w = w
or_else (some v) w = if truthy v then v else w

module _ (x : Texts) where
  abbrev pub uid_text : Option ℕ → String
  uid_text none = ".UNKNOWN"
  uid_text (some n) = "unix:uid=" <> x.decimal n

  -- `default_username`
  unfoldable pub default_username : Internal → String
  unfolding field_value truthy
  default_username nothing = ".UNAUTHENTICATED"
  default_username (seeded p) = uid_text p.uid
  default_username (identity (obj fs)) =
      x.text_of
        (or_else (field_value "username" fs) (or_else (field_value "user" fs) (str ".UNKNOWN")))
  default_username _ = ".UNKNOWN"

  abbrev pub ids_text : Option ℕ → Option ℕ → Option String
  ids_text (some uid) p = some ("unix:uid=" <> x.decimal uid)
  ids_text none (some pid) = some ("unix:pid=" <> x.decimal pid)
  ids_text none none = none

  abbrev pub address_or : Option String → Peer → Option String
  address_or (some t) p = some t
  address_or none p = ids_text p.uid p.pid

  -- A pair of host and port, another address that is true, or none.
  unfoldable pub address_text : Value → Option String
  unfolding truthy
  address_text (arr (cons a (cons b vs))) = some (x.text_of a <> (":" <> x.text_of b))
  address_text v = if truthy v then some (x.text_of v) else none

  -- `_peer_origin`
  unfoldable pub peer_origin : Peer → Option String
  unfolding address_text
  peer_origin p = address_or (address_text p.address) p

  abbrev pub some_text : Option Value → Option String
  some_text none = none
  some_text (some null) = none
  some_text (some v) = some (x.text_of v)

  -- `default_origin`
  unfoldable pub default_origin : Internal → Option String
  unfolding peer_origin field_value
  default_origin (seeded p) = peer_origin p
  default_origin (identity (obj fs)) = some_text (field_value "origin" fs)
  default_origin _ = none

  abbrev pub copy_key : String → Option Value → Fields → Fields
  copy_key k none fs = fs
  copy_key k (some v) fs = pair k v fs

  -- `{k: ident[k] for k in keys if k in ident}`
  unfoldable pub copy_keys : List String → Fields → Fields
  unfolding field_value
  copy_keys [] fs = end
  copy_keys (k ∷ ks) fs = copy_key k (field_value k fs) (copy_keys ks fs)

  abbrev pub credentials_keys : List String
  credentials_keys = "username" ∷ "account_attributes" ∷ "api_key_id" ∷ []

  abbrev pub kind_of : Option Value → String
  kind_of none = "USER_SESSION"
  kind_of (some v) = if truthy v then "API_KEY" else "USER_SESSION"

  -- `default_credentials`
  unfoldable pub default_credentials : Internal → Value
  unfolding field_value copy_keys truthy
  default_credentials (identity (obj fs)) = obj (
      pair "credentials" (str (kind_of (field_value "api_key_id" fs)))
        (pair "credentials_data" (obj (copy_keys credentials_keys fs)) end))
  default_credentials _ = null

abbrev pub text_or_null : Option String → Value
text_or_null none = null
text_or_null (some t) = str t

-- `AuditFormatter`
pub record Formatter : Type 0 where
  pub service : String
  pub major : ℕ
  pub minor : ℕ
  pub protocol : String

abbrev pub vers : Formatter → Value
vers f = obj (pair "major" (num (pos f.major)) (pair "minor" (num (pos f.minor)) end))

-- `response.get("error") if not success else None`
abbrev pub result_field : Bool → Option Value → Fields
result_field true (some v) = pair "result" v end
result_field b o = end

module _ (x : Texts) (f : Formatter) where
  unfoldable pub svc_data : Internal → Value
  unfolding default_origin default_credentials
  svc_data i = obj (
      pair "vers" (vers f) (
        pair "origin" (text_or_null (default_origin x i))
          (pair "protocol" (str f.protocol) (pair "credentials" (default_credentials x i) end))))

  -- The event's data; `response` are the fields of the response's dict.
  unfoldable pub event_data : Request → Fields → Option String → Value
  unfolding field_value classify
  event_data r response message =
      let success = is_none (field_value "error" response) in
      obj (
        pair "method" (str r.method) (
          pair "params" (arr (cons r.params nil)) (
            pair "description" (text_or_null message) (
              pair "success" (bool success) (
                pair "error" (get_or "error" null response) (
                  pair "vers" (vers f) (
                    result_field (is_control (classify r))
                      (if success then field_value "result" response else none))))))))

  -- `build`
  unfoldable pub build : (aid time : String) → Request → Fields → Session → Option String → Value
  unfolding svc_data event_data default_origin default_username field_value classify
  build aid time r response s message = obj (
      pair "TNAUDIT"
        (obj (
          pair "aid" (str aid) (
            pair "vers" (vers f) (
              pair "addr" (text_or_null (default_origin x s.internal)) (
                pair "user" (str (default_username x s.internal)) (
                  pair "sess" (str s.session_uuid) (
                    pair "time" (str time) (
                      pair "svc" (str f.service) (
                        pair "svc_data" (str (x.encode (svc_data s.internal))) (
                          pair "event" (str (event_text (classify r))) (
                            pair "event_data" (str (x.encode (event_data r response message))) (
                              pair "success" (bool (is_none (field_value "error" response)))
                                end))))))))))))
        end)

  -- `format`
  unfoldable pub format : (aid time : String) → Request → Fields → Session → Option String → String
  unfolding build
  format aid time r response s message = "@cee:" <> x.encode (build aid time r response s message)
