-- ===== src/Tests/Formats.antt =====
-- The theorems on audit records, each at a concrete input.
use truenas_jsonrpc.Base.{String, ◌≡◌, refl, none, some, []}
use truenas_jsonrpc.Value.{Value, Fields, null, bool, num, arr, str, obj, pair, end}
use truenas_jsonrpc.Types.{Request, established}
use truenas_jsonrpc.Session.{Session, nothing}
use truenas_jsonrpc.Redaction.{field_value}
use truenas_jsonrpc.Formatter.{Texts, Formatter, format}
use truenas_jsonrpc.Formatter.Laws.{Agree, with_identity, format-Agree, format-result}

abbrev text_of : Value → String
text_of (str t) = t
text_of (bool b) = "True"
text_of (num n) = "1"
text_of null = "None"
text_of (arr vs) = "[...]"
text_of (obj fs) = "{...}"

abbrev texts : Texts
texts = record { text_of = text_of; encode = text_of; decimal = λ n. "7" }

abbrev formatter : Formatter
formatter = record { service = "MIDDLEWARE"; major = 0; minor = 1; protocol = "JSONRPC" }

abbrev request : Request
request = record { method = "pool.create"; id = some "1"; params = str "tank"; roles = [] }

abbrev session : Session
session = record {
  session_uuid = "s";
  protocol_name = "demo";
  lifecycle = established;
  internal = nothing;
  external = null;
}

-- Two identities of one user with different session keys.
abbrev root_with : String → Fields
root_with secret = pair "username" (str "root") (pair "session_key" (str secret) end)

roots-Agree : Agree (root_with "k1") (root_with "k2")
unfolding field_value
roots-Agree = (refl, (refl, (refl, (refl, (refl, tt)))))

format-Agree_example :
    format texts formatter "a" "t" request end (with_identity (root_with "k1") session) none
    ≡ format texts formatter "a" "t" request end (with_identity (root_with "k2") session) none
format-Agree_example =
    format-Agree texts formatter "a" "t" request end session none (root_with "k1") (root_with "k2")
      roots-Agree

format-result_example :
    format texts formatter "a" "t" request
      (pair "jsonrpc" (str "2.0") (pair "result" (str "x") (pair "id" (str "1") end)))
      session
      none
    ≡ format texts formatter "a" "t" request
        (pair "jsonrpc" (str "2.0") (pair "result" (str "y") (pair "id" (str "1") end)))
        session
        none
format-result_example =
    format-result texts formatter "a" "t" request session none (str "1") (str "x") (str "y") refl
