-- ===== src/Declarations.antt =====
-- truenas_pyjsonrpc/method.py: the checks of the constructors of JSONRPCMethod,
-- JSONRPCFdTransferMethod and FilterableJSONRPCMethod, and the setter of `handler`. The docstrings are
-- left out; `augment_accepts` of query.py, which builds a class at run time, is a parameter.
pub mod Laws
use truenas_jsonrpc.Base.{
  ℕ, String, Bool, true, false, not, ◌&&◌, ◌||◌, Option, none, some, List, [], ◌∷◌, ◌++◌, ◌==◌,
  ◌<>◌, is_some, is_none, if◌then◌else◌,
}
use truenas_jsonrpc.Types.{MessageDirection, client_server, server_client, TransferDirection}
use truenas_jsonrpc.Redaction.{Plan}
use truenas_jsonrpc.Redaction.Compile.{Classes, compile_plan}

-- A Python argument, as far as the checks tell arguments apart.
pub data Arg : Type 0 where
  not_given anything : Arg
  text : String → Arg
  struct_class : (cls : String) → Arg
  function : (place : ℕ) → Arg
  message_direction : MessageDirection → Arg
  transfer_direction : TransferDirection → Arg

pub record MethodArgs : Type 0 where
  pub name : Arg
  pub accepts : Arg
  pub returns : Arg
  pub handler : Arg
  pub direction : Arg
  pub notifies : Arg
  pub pre_auth : Bool
  pub audit : Bool
  pub audit_message : Arg
  pub cancellable : Bool
  pub roles : List Arg
  pub accepts_validator : Arg
  pub returns_validator : Arg

-- `JSONRPCMethod`, as its constructor leaves it.
pub record Declaration : Type 0 where
  pub name : String
  pub direction : MessageDirection
  pub accepts : Option String
  pub returns : Option String
  pub notifies : Option String
  pub pre_auth : Bool
  pub audit : Bool
  pub audit_message : Option String
  pub cancellable : Bool
  pub roles : List String
  pub accepts_validator : Arg
  pub returns_validator : Arg
  pub handler : Arg
  pub accepts_plan : Option Plan
  pub returns_plan : Option Plan

pub data Declared : Type 0 where
  declared : Declaration → Declared
  type_error : String → Declared

-- `_is_struct`
abbrev pub is_struct : Arg → Bool
is_struct (struct_class c) = true
is_struct _ = false

abbrev pub is_not_given : Arg → Bool
is_not_given not_given = true
is_not_given _ = false

abbrev pub is_text : Arg → Bool
is_text (text t) = true
is_text _ = false

-- A class is callable too.
abbrev pub is_callable : Arg → Bool
is_callable (function f) = true
is_callable (struct_class c) = true
is_callable _ = false

abbrev pub is_message_direction : Arg → Bool
is_message_direction (message_direction d) = true
is_message_direction _ = false

abbrev pub is_transfer_direction : Arg → Bool
is_transfer_direction (transfer_direction d) = true
is_transfer_direction _ = false

abbrev pub text_arg : Arg → Option String
text_arg (text t) = some t
text_arg _ = none

abbrev pub class_arg : Arg → Option String
class_arg (struct_class c) = some c
class_arg _ = none

abbrev pub name_arg : Arg → String
name_arg (text t) = t
name_arg _ = ""

abbrev pub direction_arg : Arg → MessageDirection
direction_arg (message_direction d) = d
direction_arg _ = client_server

-- A check that raises TypeError where it fails.
abbrev pub Check : Type 0
Check = Bool × String

unfoldable pub first_error : List Check → Option String
first_error [] = none
first_error ((ok, t) ∷ cs) = let rest = first_error cs in if ok then rest else some t

-- `_check_returns` and `_check_callable`
abbrev pub check_returns : Arg → Check
check_returns a =
    (is_not_given a || is_struct a, "'returns' must be a msgspec.Struct subclass or None")

abbrev pub check_callable : Arg → String → Check
check_callable a which =
    (is_not_given a || is_callable a, "'" <> (which <> "' must be callable or None"))

abbrev pub direction_checks : MessageDirection → MethodArgs → List Check
direction_checks server_client a =
    (is_struct a.notifies, "a SERVER_CLIENT method requires 'notifies' (a msgspec.Struct subclass)")
    ∷ (is_not_given a.handler, "a SERVER_CLIENT (subscribable) method must not have a handler")
    ∷ (not a.cancellable, "a SERVER_CLIENT (subscribable) method cannot be 'cancellable'")
    ∷ []
direction_checks client_server a =
    (is_not_given a.notifies, "'notifies' is only valid for SERVER_CLIENT methods")
    ∷ check_callable a.handler "handler"
    ∷ []

unfoldable pub all_texts : List Arg → Bool
all_texts [] = true
all_texts (a ∷ rest) = is_text a && all_texts rest

unfoldable pub texts : List Arg → List String
texts [] = []
texts (a ∷ rest) = name_arg a ∷ texts rest

abbrev pub checks : MethodArgs → List Check
checks a =
    (is_text a.name && not (name_arg a.name == ""), "name must be a non-empty str")
    ∷ (is_message_direction a.direction, "'direction' must be a MessageDirection")
    ∷ (is_struct a.accepts, "'accepts' must be a msgspec.Struct subclass")
    ∷ (
      is_not_given a.audit_message || is_text a.audit_message,
      "'audit_message' must be a str or None",
    )
    ∷ check_returns a.returns
    ∷ check_callable a.accepts_validator "accepts_validator"
    ∷ check_callable a.returns_validator "returns_validator"
    ∷ (direction_checks (direction_arg a.direction) a
        ++ ((all_texts a.roles, "'roles' must be an iterable of str") ∷ []))

abbrev pub plan_of : Classes → Option String → Option Plan
plan_of classes none = none
plan_of classes (some c) = compile_plan classes c

-- The attributes.
abbrev pub built : Classes → MethodArgs → Declaration
built classes a = record {
  name = name_arg a.name;
  direction = direction_arg a.direction;
  accepts = class_arg a.accepts;
  returns = class_arg a.returns;
  notifies = class_arg a.notifies;
  pre_auth = a.pre_auth;
  audit = a.audit;
  audit_message = text_arg a.audit_message;
  cancellable = a.cancellable;
  roles = texts a.roles;
  accepts_validator = a.accepts_validator;
  returns_validator = a.returns_validator;
  handler = a.handler;
  accepts_plan = plan_of classes (class_arg a.accepts);
  returns_plan = plan_of classes (class_arg a.returns);
}

abbrev pub declare_unless : Classes → MethodArgs → Option String → Declared
declare_unless classes a (some t) = type_error t
declare_unless classes a none = declared (built classes a)

-- `JSONRPCMethod(...)`
unfoldable pub declare : Classes → MethodArgs → Declared
unfolding first_error all_texts texts
declare classes a = declare_unless classes a (first_error (checks a))

-- `m.handler = value`
abbrev pub handler_checks : Arg → Declaration → List Check
handler_checks h d =
    check_callable h "handler"
    ∷ (
      is_not_given h || (elim d.direction [ server_client ↦ false | client_server ↦ true ]),
      "a SERVER_CLIENT (subscribable) method must not have a handler",
    )
    ∷ []

abbrev pub set_unless : Arg → Declaration → Option String → Declared
set_unless h d (some t) = type_error t
set_unless h d none = declared (record d { handler = h })

unfoldable pub set_handler : Arg → Declaration → Declared
unfolding first_error
set_handler h d = set_unless h d (first_error (handler_checks h d))

-- `JSONRPCFdTransferMethod(...)`: its own checks, and those of the class above it.
abbrev pub transfer_checks : (direction negotiate transfer : Arg) → MethodArgs → List Check
transfer_checks direction negotiate transfer a =
    (is_struct a.returns, "a transfer method requires 'returns' (a msgspec.Struct)")
    ∷ (is_transfer_direction direction, "'direction' must be a TransferDirection")
    ∷ (is_callable negotiate, "'negotiate' must be callable")
    ∷ (is_callable transfer, "'transfer' must be callable")
    ∷ []

abbrev pub super_unless : Classes → MethodArgs → Option String → Declared
super_unless classes a (some t) = type_error t
super_unless classes a none = declare classes a

-- What the class above is given.
abbrev pub transfer_args : MethodArgs → MethodArgs
transfer_args a = record a {
  handler = not_given;
  direction = message_direction client_server;
  notifies = not_given;
  cancellable = false;
}

unfoldable pub declare_transfer :
    Classes → (direction negotiate transfer : Arg) → MethodArgs → Declared
unfolding declare first_error
declare_transfer classes direction negotiate transfer a =
    super_unless classes (transfer_args a)
      (first_error (transfer_checks direction negotiate transfer a))

abbrev pub filterable_args : (Arg → Arg) → MethodArgs → MethodArgs
filterable_args augment a = record a {
  accepts = augment a.accepts;
  returns = not_given;
  direction = message_direction client_server;
  notifies = not_given;
  cancellable = false;
  returns_validator = not_given;
}

abbrev pub entry_checks : Arg → List Check
entry_checks entry = (is_struct entry, "'entry' must be a msgspec.Struct subclass") ∷ []

-- `FilterableJSONRPCMethod(...)`
unfoldable pub declare_filterable : Classes → (Arg → Arg) → (entry : Arg) → MethodArgs → Declared
unfolding declare first_error
declare_filterable classes augment entry a =
    super_unless classes (filterable_args augment a) (first_error (entry_checks entry))
