-- ===== src/Tests/Schemas.antt =====
-- The theorem on compiled plans, at a recursive class.
use truenas_jsonrpc.Base.{String, ◌≡◌, false, refl, true, none, [], ◌∷◌, lookup}
use truenas_jsonrpc.Value.{Value, str, arr, obj, nil, cons, end, pair}
use truenas_jsonrpc.Base.{some}
use truenas_jsonrpc.Value.{Fields, null}
use truenas_jsonrpc.Redaction.Compile.{class_plan, compile_with, tag_of}
use truenas_jsonrpc.Redaction.Tagged.{redact-tagged_member, pair_of}
use truenas_jsonrpc.Redaction.{
  redact, Plan, struct, mask, subplan, end_subplans, field_value, tag_eq,
}
use truenas_jsonrpc.Redaction.Places.{key, index, IsSafe}
use truenas_jsonrpc.Redaction.Compile.{
  Classes, ClassInfo, metadata, struct_type, items_of, other, named, end_fields, compile_plan,
  class_plans,
}
use truenas_jsonrpc.Redaction.Schemas.{
  Marked, here, below_struct, below_items, this_name, later_name, has_name,
}
use truenas_jsonrpc.Redaction.Declared.{compile_plan-hides}

-- `class Login(Struct): user: str; password: Annotated[str, SECRET]; others: list[Login]`
abbrev pub login_info : ClassInfo
login_info = record {
  tag = none;
  array_like = false;
  fields = named "user" other (
      named "password" (metadata true other)
        (named "others" (items_of (struct_type "Login")) end_fields));
}

abbrev pub logins : Classes
logins = ("Login", login_info) ∷ []

abbrev pub login_value : Value
login_value = obj (
    pair "user" (str "a") (
      pair "password" (str "p") (
        pair "others"
          (arr (
            cons
              (obj
                (pair "user" (str "b") (pair "password" (str "q") (pair "others" (arr nil) end))))
              nil))
          end)))

pub password-Marked : Marked logins (struct_type "Login") (key "password" ∷ [])
unfolding lookup has_name
password-Marked =
    below_struct "Login" login_info "password" [] refl refl
      (later_name "user" other _ "password" [] (this_name "password" _ _ [] refl (here other)))

inner-Marked :
    Marked logins (struct_type "Login") (key "others" ∷ (index 0 ∷ (key "password" ∷ [])))
unfolding lookup has_name
inner-Marked = below_struct "Login" login_info "others" _ refl refl (
    later_name "user" other _ "others" _ (
      later_name "password" _ _ "others" _
        (this_name "others" _ end_fields _ refl (below_items _ 0 _ password-Marked))))

compile_plan-hides_example :
    IsSafe
      (key "others" ∷ (index 0 ∷ (key "password" ∷ [])))
      (redact (class_plans logins) (compile_plan logins "Login") login_value)
compile_plan-hides_example =
    compile_plan-hides logins "Login" (key "others" ∷ (index 0 ∷ (key "password" ∷ []))) login_value
      inner-Marked

-- Two Structs with a password each, told apart by `type`.
abbrev tagged_info : String → ClassInfo
tagged_info t = record {
  tag = some ("type", str t);
  array_like = false;
  fields = named "password" (metadata true other) end_fields;
}

abbrev tagged_classes : Classes
tagged_classes = ("Local", tagged_info "local") ∷ ("Remote", tagged_info "remote") ∷ []

abbrev password_plan : Plan
password_plan = struct (subplan "password" mask end_subplans)

abbrev local_user : Fields
local_user = pair "type" (str "local") (pair "password" (str "p") end)

password_compiled :
    (class_plan tagged_classes 3 [] "Local" ≡ some password_plan)
    × (class_plan tagged_classes 3 [] "Remote" ≡ some password_plan)
unfolding class_plan lookup
password_compiled = (refl, refl)

tags_known :
    (tag_of tagged_classes (struct_type "Local") ≡ some ("type", str "local"))
    × (tag_of tagged_classes (struct_type "Remote") ≡ some ("type", str "remote"))
    × (field_value "type" local_user ≡ some (str "local"))
    × (tag_eq (str "local") (str "local") ≡ true)
    × (tag_eq null (str "local") ≡ false)
    × (tag_eq (str "remote") (str "local") ≡ false)
unfolding lookup field_value tag_eq
tags_known = (refl, refl, refl, refl, refl, refl)

redact-tagged_member_example :
    (redact
        (class_plans tagged_classes)
        (compile_with tagged_classes
          (class_plan tagged_classes 3 [])
          (pair_of (struct_type "Local") (struct_type "Remote")))
        (obj local_user)
      ≡ redact (class_plans tagged_classes) (some password_plan) (obj local_user))
    × (redact
          (class_plans tagged_classes)
          (compile_with tagged_classes
            (class_plan tagged_classes 3 [])
            (pair_of (metadata false (struct_type "Local")) (struct_type "Remote")))
          (obj local_user)
        ≡ obj local_user)
redact-tagged_member_example =
    redact-tagged_member tagged_classes (class_plan tagged_classes 3 [])
      (class_plans tagged_classes) "Local" "Remote" "type" (str "local") (str "remote")
      (str "local") password_plan password_plan local_user password_compiled.0 password_compiled.1
      tags_known.0 tags_known.1 tags_known.2 tags_known.3 tags_known.4 tags_known.5
