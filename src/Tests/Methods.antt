-- ===== src/Tests/Methods.antt =====
-- The theorems on method declarations, each at a concrete input.
use truenas_jsonrpc.Base.{◌≡◌, refl, true, false, []}
use truenas_jsonrpc.Types.{client_server}
use truenas_jsonrpc.Declarations.{
  not_given, text, struct_class, function, message_direction, MethodArgs, Declaration, declared,
  built, declare, set_handler,
}
use truenas_jsonrpc.Declarations.Laws.{
  IsConstructed, method_made, handler_set, IsWellFormed, IsConstructed-IsWellFormed,
}
use truenas_jsonrpc.Tests.Schemas.{logins}

abbrev arguments : MethodArgs
arguments = record {
  name = text "login";
  accepts = struct_class "Login";
  returns = not_given;
  handler = not_given;
  direction = message_direction client_server;
  notifies = not_given;
  pre_auth = true;
  audit = true;
  audit_message = text "Log in";
  cancellable = false;
  roles = [];
  accepts_validator = not_given;
  returns_validator = not_given;
}

abbrev login_method : Declaration
login_method = built logins arguments

login-declared : declare logins arguments ≡ declared login_method
unfolding declare
login-declared = refl

handler-set :
    set_handler (function 3) login_method ≡ declared (record login_method { handler = function 3 })
unfolding set_handler
handler-set = refl

with_handler : IsConstructed logins (record login_method { handler = function 3 })
with_handler =
    handler_set (function 3) login_method _ (method_made arguments login_method login-declared)
      handler-set

IsConstructed-IsWellFormed_example :
    IsWellFormed logins (record login_method { handler = function 3 })
IsConstructed-IsWellFormed_example =
    IsConstructed-IsWellFormed logins (record login_method { handler = function 3 }) with_handler
