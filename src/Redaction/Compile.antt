-- ===== src/Redaction/Compile.antt =====
-- truenas_pyjsonrpc/redaction.py: `compile_plan` and `_compile`, over what `msgspec.inspect` tells of
-- a type. A Struct class is a name, and a table holds what is told of each; the cache is left out.
use truenas_jsonrpc.Base.{
  ℕ, zero, suc, String, Bool, true, false, ◌||◌, Option, none, some, List, [], ◌∷◌, Dict, lookup,
  length, ◌==◌, if◌then◌else◌,
}
use truenas_jsonrpc.Value.{Value, null}
use truenas_jsonrpc.Redaction.{
  Plan, mask, struct, list, dict, tuple, union, recurse, Subplans, end_subplans, subplan, Parts,
  end_parts, open_part, part, Members, end_members, member, ClassPlans,
}

-- `mi.Metadata` (with `extra["secret"]`), `mi.StructType`, the nodes with an `item_type`,
-- `mi.DictType`, `mi.TupleType`, `mi.UnionType`, and any other.
mutual
  pub data Schema : Type 0 where
    metadata : (secret : Bool) → Schema → Schema
    struct_type : (cls : String) → Schema
    items_of dict_of : Schema → Schema
    tuple_type union_type : Schemas → Schema
    other : Schema

  pub data Schemas : Type 0 where
    end_schemas : Schemas
    schema : Schema → Schemas → Schemas

-- `t.fields`, by `encode_name`.
pub data SchemaFields : Type 0 where
  end_fields : SchemaFields
  named : (encode_name : String) → Schema → SchemaFields → SchemaFields

-- The tag is `(tag_field, tag)`. `_compile` does not look at `array_like`; `to_builtins` makes a list of
-- an instance of such a class.
pub record ClassInfo : Type 0 where
  pub tag : Option (String × Value)
  pub array_like : Bool
  pub fields : SchemaFields

abbrev pub Classes : Type 0
Classes = Dict ClassInfo

-- `sub[name] = p`
unfoldable pub set_subplan : String → Plan → Subplans → Subplans
set_subplan k p end_subplans = subplan k p end_subplans
set_subplan k p (subplan j q ps) =
    let rest = set_subplan k p ps in if j == k then subplan k p ps else subplan j q rest

abbrev pub list_plan : Option Plan → Option Plan
list_plan none = none
list_plan (some p) = some (list p)

abbrev pub dict_plan : Option Plan → Option Plan
dict_plan none = none
dict_plan (some p) = some (dict p)

abbrev pub add_part : Option Plan → Parts → Parts
add_part none ps = open_part ps
add_part (some p) ps = part p ps

-- `any(p is not None for p in parts)`
unfoldable pub any_part : Parts → Bool
any_part end_parts = false
any_part (open_part ps) = any_part ps
any_part (part p ps) = true

abbrev pub tuple_plan : Parts → Option Plan
tuple_plan ps = if any_part ps then some (tuple ps) else none

abbrev pub union_plan : Option String × Members → Option Plan
union_plan (f, end_members) = none
union_plan (f, member t p ms) = some (union f (member t p ms))

abbrev pub struct_plan : Subplans → Option Plan
struct_plan end_subplans = none
struct_plan (subplan k p ps) = some (struct (subplan k p ps))

abbrev pub tag_value : Option (String × Value) → Value
tag_value none = null
tag_value (some (f, t)) = t

-- The tag field of the last member that has one.
abbrev pub last_field : Option String → Option (String × Value) → Option String
last_field (some f) o = some f
last_field none none = none
last_field none (some (f, t)) = some f

-- Members without a plan are left out.
abbrev pub add_member :
    Option (String × Value) → Option Plan → Option String × Members → Option String × Members
add_member t none rest = rest
add_member t (some p) (f, ms) = (last_field f t, member (tag_value t) p ms)

abbrev pub class_tag : Option ClassInfo → Option (String × Value)
class_tag none = none
class_tag (some c) = c.tag

abbrev pub class_fields : Option ClassInfo → SchemaFields
class_fields none = end_fields
class_fields (some c) = c.fields

unfoldable pub in_stack : String → List String → Bool
in_stack c [] = false
in_stack c (k ∷ ks) = k == c || in_stack c ks

abbrev pub add_subplan : String → Option Plan → Subplans → Subplans
add_subplan k none ps = ps
add_subplan k (some p) ps = set_subplan k p ps

module _ (classes : Classes) where
  -- `getattr(x, "tag", None)`: only a Struct has one.
  abbrev pub tag_of : Schema → Option (String × Value)
  tag_of (struct_type c) = class_tag (lookup c classes)
  tag_of (metadata b s) = none
  tag_of (items_of s) = none
  tag_of (dict_of s) = none
  tag_of (tuple_type ss) = none
  tag_of (union_type ss) = none
  tag_of other = none

  -- `_compile`, with the treatment of a Struct class as an argument.
  unfoldable mutual
    unfolding any_part

    pub compile_with : (String → Option Plan) → Schema → Option Plan
    compile_with enter (metadata true s) = some mask
    compile_with enter (metadata false s) = compile_with enter s
    compile_with enter (struct_type c) = enter c
    compile_with enter (items_of s) = list_plan (compile_with enter s)
    compile_with enter (dict_of s) = dict_plan (compile_with enter s)
    compile_with enter (tuple_type ss) = tuple_plan (compile_parts enter ss)
    compile_with enter (union_type ss) = union_plan (compile_members enter ss)
    compile_with enter other = none

    pub compile_parts : (String → Option Plan) → Schemas → Parts
    compile_parts enter end_schemas = end_parts
    compile_parts enter (schema s ss) = add_part (compile_with enter s) (compile_parts enter ss)

    pub compile_members : (String → Option Plan) → Schemas → Option String × Members
    compile_members enter end_schemas = (none, end_members)
    compile_members enter (schema s ss) =
        add_member (tag_of s) (compile_with enter s) (compile_members enter ss)

  -- The loop over the fields of a Struct.
  unfoldable pub compile_fields : (String → Option Plan) → SchemaFields → Subplans → Subplans
  unfolding compile_with set_subplan
  compile_fields enter end_fields ps = ps
  compile_fields enter (named k s fs) ps =
      compile_fields enter fs (add_subplan k (compile_with enter s) ps)

  -- A Struct class met below the classes of `stack`; each level takes one unit of fuel.
  unfoldable pub class_plan : ℕ → List String → String → Option Plan
  unfolding compile_fields in_stack
  class_plan zero stack c = none
  class_plan (suc n) stack c =
      let ps =
        compile_fields (class_plan n (c ∷ stack)) (class_fields (lookup c classes)) end_subplans in
      if in_stack c stack then some (recurse c) else struct_plan ps

  -- `compile_plan`: no class is entered twice, so that there are levels enough.
  unfoldable pub compile_plan : String → Option Plan
  unfolding class_plan
  compile_plan c = class_plan (suc (length classes)) [] c

abbrev pub subplans_of : Option Plan → Option Subplans
subplans_of (some (struct ps)) = some ps
subplans_of _ = none

abbrev pub add_class : String → Option Subplans → ClassPlans → ClassPlans
add_class c none d = d
add_class c (some ps) d = (c, ps) ∷ d

unfoldable pub plans_from : Classes → Classes → ClassPlans
unfolding compile_plan
plans_from classes [] = []
plans_from classes ((c, i) ∷ cs) =
    add_class c (subplans_of (compile_plan classes c)) (plans_from classes cs)

-- What `compile_plan` gives for each class, which is what a `("recurse", cls)` finds.
abbrev pub class_plans : Classes → ClassPlans
class_plans classes = plans_from classes classes
