-- ===== src/Declarations/Laws.antt =====
-- truenas_pyjsonrpc/method.py: methods as their constructors leave them.
use truenas_jsonrpc.Base.{
  String, ◌≡◌, refl, sym, ap, subst, Bool, true, false, not, ◌||◌, Option, none, some, List, ◌∷◌,
  ◌++◌, ◌==◌, is_some, arith,
}
use mathlib.Core.Option.{none-ne-some}
use truenas_jsonrpc.Types.{MessageDirection, client_server, server_client}
use truenas_jsonrpc.Redaction.Compile.{Classes}
use truenas_jsonrpc.Declarations.{
  Arg, not_given, anything, text, struct_class, function, message_direction, transfer_direction,
  MethodArgs, Declaration, Declared, declared, type_error, is_struct, is_not_given, is_callable,
  direction_arg, class_arg, Check, first_error, direction_checks, checks, declare_unless, built,
  declare, handler_checks, set_unless, set_handler, transfer_checks, transfer_args, filterable_args,
  entry_checks, super_unless, declare_transfer, declare_filterable, plan_of,
}

-- What a direction asks of a method.
abbrev pub Fits : MessageDirection → Declaration → Type 0
Fits server_client d =
    (is_some d.notifies ≡ true) × (is_not_given d.handler ≡ true) × (d.cancellable ≡ false)
Fits client_server d = is_some d.notifies ≡ false

pub record IsWellFormed (classes : Classes) (d : Declaration) : Type 0 where
  pub is_named : (d.name == "") ≡ false
  pub takes_struct : is_some d.accepts ≡ true
  pub fits : Fits d.direction d
  pub callable : (is_not_given d.handler || is_callable d.handler) ≡ true
  pub accepts_redacted : d.accepts_plan ≡ plan_of classes d.accepts
  pub returns_redacted : d.returns_plan ≡ plan_of classes d.returns

passes :
    (ok : Bool) (t : String) (cs : List Check)
    → first_error ((ok, t) ∷ cs) ≡ none
    → (ok ≡ true) × (first_error cs ≡ none)
unfolding first_error
passes true t cs h = (refl, h)
passes false t cs h = absurd (none-ne-some t (sym h))

struct-class : (a : Arg) → is_struct a ≡ true → is_some (class_arg a) ≡ true
struct-class (struct_class c) h = refl
struct-class not_given h = cc
struct-class anything h = cc
struct-class (text t) h = cc
struct-class (function f) h = cc
struct-class (message_direction d) h = cc
struct-class (transfer_direction d) h = cc

absent-class : (a : Arg) → is_not_given a ≡ true → is_some (class_arg a) ≡ false
absent-class not_given h = refl
absent-class (struct_class c) h = cc
absent-class anything h = refl
absent-class (text t) h = refl
absent-class (function f) h = refl
absent-class (message_direction d) h = refl
absent-class (transfer_direction d) h = refl

the_declaration : Declaration → Declared → Declaration
the_declaration e (declared d) = d
the_declaration e (type_error t) = e

declare-built :
    (classes : Classes) (a : MethodArgs) (d : Declaration) (o : Option String)
    → declare_unless classes a o ≡ declared d
    → (o ≡ none) × (built classes a ≡ d)
unfolding the_declaration
declare-built classes a d none h = (refl, ap (the_declaration d) h)
declare-built classes a d (some t) h = cc

direction_checks-Fits :
    (classes : Classes) (a : MethodArgs) (m : MessageDirection) (rest : List Check)
    → first_error (direction_checks m a ++ rest) ≡ none
    → Fits m (built classes a) × ((is_not_given a.handler || is_callable a.handler) ≡ true)
direction_checks-Fits classes a server_client rest h =
    let (n, h1) = passes (is_struct a.notifies) _ _ h in
    let (g, h2) = passes (is_not_given a.handler) _ _ h1 in
    let (c, h3) = passes (not a.cancellable) _ _ h2 in
    ((struct-class a.notifies n, g, ground (arith, c)), ground (arith, g))
direction_checks-Fits classes a client_server rest h =
    let (n, h1) = passes (is_not_given a.notifies) _ _ h in
    let (g, h2) = passes (is_not_given a.handler || is_callable a.handler) _ _ h1 in
    (absent-class a.notifies n, g)

built-IsWellFormed :
    (classes : Classes) (a : MethodArgs)
    → first_error (checks a) ≡ none
    → IsWellFormed classes (built classes a)
built-IsWellFormed classes a h =
    let (n, h1) = passes _ _ _ h in
    let (d, h2) = passes _ _ _ h1 in
    let (s, h3) = passes _ _ _ h2 in
    let (m, h4) = passes _ _ _ h3 in
    let (r, h5) = passes _ _ _ h4 in
    let (v, h6) = passes _ _ _ h5 in
    let (w, h7) = passes _ _ _ h6 in
    let f = direction_checks-Fits classes a (direction_arg a.direction) _ h7 in
    record {
      is_named = ground (arith, n);
      takes_struct = struct-class a.accepts s;
      fits = f.0;
      callable = f.1;
      accepts_redacted = refl;
      returns_redacted = refl;
    }

module _ (classes : Classes) where
  -- What the constructor of JSONRPCMethod returns is well formed: it has a name and a Struct class of
  -- params, its handler is callable or None, a SERVER_CLIENT method has a class of notifications, no
  -- handler and is not cancellable, a CLIENT_SERVER method has no class of notifications, and the
  -- plans for redaction are those of its classes.
  pub declare-IsWellFormed :
      (a : MethodArgs) (d : Declaration) → declare classes a ≡ declared d → IsWellFormed classes d
  unfolding declare
  declare-IsWellFormed a d h =
      let (n, e) = declare-built classes a d (first_error (checks a)) h in
      subst (IsWellFormed classes) e (built-IsWellFormed classes a n)

  super-IsWellFormed :
      (a : MethodArgs) (d : Declaration) (o : Option String)
      → super_unless classes a o ≡ declared d
      → IsWellFormed classes d
  super-IsWellFormed a d none h = declare-IsWellFormed a d h
  super-IsWellFormed a d (some t) h = cc

  set_handler-IsWellFormed :
      (v : Arg) (d e : Declaration) (o : Option String)
      → first_error (handler_checks v d) ≡ o
      → set_unless v d o ≡ declared e
      → IsWellFormed classes d
      → IsWellFormed classes e
  unfolding the_declaration
  set_handler-IsWellFormed v d e (some t) c h w = cc
  set_handler-IsWellFormed v d e none c h w =
      let (ok, c1) = passes (is_not_given v || is_callable v) _ _ c in
      let (free, c2) = passes _ _ _ c1 in
      subst (IsWellFormed classes) (ap (the_declaration e) h) (record {
        is_named = w.is_named;
        takes_struct = w.takes_struct;
        fits = still_fits d.direction free w.fits;
        callable = ok;
        accepts_redacted = w.accepts_redacted;
        returns_redacted = w.returns_redacted;
      })
    where
      still_fits :
          (m : MessageDirection)
          → (is_not_given v || (elim m [ server_client ↦ false | client_server ↦ true ])) ≡ true
          → Fits m d
          → Fits m (record d { handler = v })
      still_fits server_client g f = (f.0, ground (arith, g), f.2)
      still_fits client_server g f = f

  -- The methods that the constructors make, and the setter of `handler` keeps.
  pub data IsConstructed : Declaration → Type 0 where
    method_made :
        (a : MethodArgs) (d : Declaration) → declare classes a ≡ declared d → IsConstructed d
    transfer_made :
        (direction negotiate transfer : Arg) (a : MethodArgs) (d : Declaration)
        → declare_transfer classes direction negotiate transfer a ≡ declared d
        → IsConstructed d
    filterable_made :
        (augment : Arg → Arg) (entry : Arg) (a : MethodArgs) (d : Declaration)
        → declare_filterable classes augment entry a ≡ declared d
        → IsConstructed d
    handler_set :
        (v : Arg) (d e : Declaration)
        → IsConstructed d
        → set_handler v d ≡ declared e
        → IsConstructed e

  -- Every method that the three constructors return is well formed, and the setter of `handler` keeps
  -- it so: it has a name and a Struct class of params, its handler is callable or None, a
  -- SERVER_CLIENT method has a class of notifications, no handler and is not cancellable, a
  -- CLIENT_SERVER method has no class of notifications, and its plans for redaction are those of its
  -- classes.
  pub IsConstructed-IsWellFormed : (d : Declaration) → IsConstructed d → IsWellFormed classes d
  unfolding declare_transfer declare_filterable set_handler
  IsConstructed-IsWellFormed _ (method_made a d h) = declare-IsWellFormed a d h
  IsConstructed-IsWellFormed _ (transfer_made direction negotiate transfer a d h) =
      super-IsWellFormed (transfer_args a) d
        (first_error (transfer_checks direction negotiate transfer a)) h
  IsConstructed-IsWellFormed _ (filterable_made augment entry a d h) =
      super-IsWellFormed (filterable_args augment a) d (first_error (entry_checks entry)) h
  IsConstructed-IsWellFormed _ (handler_set v d e c h) =
      set_handler-IsWellFormed v d e (first_error (handler_checks v d)) refl h
        (IsConstructed-IsWellFormed d c)
