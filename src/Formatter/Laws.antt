-- ===== src/Formatter/Laws.antt =====
-- truenas_pyjsonrpc/mixins/audit/record.py: what of an identity and of a result reaches the record.
use truenas_jsonrpc.Base.{String, ◌≡◌, refl, false, Option, List, [], ◌∷◌, All}
use text.Mathlib.Text.{starts_with}
use truenas_jsonrpc.Value.{Value, Fields, obj, str, pair, end}
use truenas_jsonrpc.Redaction.{field_value}
use truenas_jsonrpc.Types.{Request}
use truenas_jsonrpc.Session.{identity, Session}
use truenas_jsonrpc.Formatter.{
  Texts, Formatter, default_username, default_origin, default_credentials, copy_keys, classify,
  svc_data, event_data, build, format,
}

-- Two identities that agree on what may be audited of an identity.
abbrev pub audited_keys : List String
audited_keys = "username" ∷ "user" ∷ "origin" ∷ "account_attributes" ∷ "api_key_id" ∷ []

abbrev pub Agree : Fields → Fields → Type 0
Agree fs gs = All (λ k. field_value k fs ≡ field_value k gs) audited_keys

-- Two sessions that differ at most in what else their identities hold.
abbrev pub with_identity : Fields → Session → Session
with_identity fs s = record s { internal = identity (obj fs) }

module _ (x : Texts) (f : Formatter) where
  -- Nothing of an identity reaches the audit log but its user, its origin and the three keys of its
  -- credentials: whatever else the identities of two sessions hold, tokens and keys included, the
  -- audit line is the same.
  pub format-Agree :
      (aid time : String) (r : Request) (response : Fields) (s : Session) (message : Option String)
      (fs gs : Fields)
      → Agree fs gs
      → format x f aid time r response (with_identity fs s) message
        ≡ format x f aid time r response (with_identity gs s) message
  unfolding format build svc_data default_origin default_username default_credentials copy_keys
  format-Agree aid time r response s message fs gs a =
      rw (a.0, a.1.0, a.1.1.0, a.1.1.1.0, a.1.1.1.1.0) refl

  -- The result of a method call reaches no audit line: for a method whose name is not in the `$/`
  -- namespace, two successful responses that differ in their results give the same line.
  pub format-result :
      (aid time : String) (r : Request) (s : Session) (message : Option String) (i v w : Value)
      → starts_with r.method "$/" ≡ false
      → let response =
          λ (u : Value). pair "jsonrpc" (str "2.0") (pair "result" u (pair "id" i end)) in
        format x f aid time r (response v) s message ≡ format x f aid time r (response w) s message
  unfolding format build event_data classify field_value
  format-result aid time r s message i v w h = rw h refl
