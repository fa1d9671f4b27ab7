-- ===== src/Redaction.antt =====
-- truenas_pyjsonrpc/redaction.py: the plan that a type compiles to, and its application to the
-- builtins copy of a value. A plan is data,
-- and the plan of a class met again, `("recurse", cls)`, is looked up in a table of class plans.
pub mod Fuel
pub mod Enough
pub mod Places
pub mod Masks
pub mod Secrets
pub mod Compile
pub mod Schemas
pub mod Plans
pub mod Declared
pub mod Tagged
use truenas_jsonrpc.Base.{
  ℕ, zero, suc, String, Bool, true, false, Option, none, some, Dict, lookup, ◌==◌, nat_eq,
  if◌then◌else◌, ℤ, pos, negsuc,
}
use Prim.Native.Nat.{max}
use truenas_jsonrpc.Value.{
  Value, Items, Fields, null, bool, num, str, arr, obj, nil, cons, end, pair,
}

mutual
  pub data Plan : Type 0 where
    mask : Plan
    struct : Subplans → Plan
    list : Plan → Plan
    dict : Plan → Plan
    tuple : Parts → Plan
    union : Option String → Members → Plan
    recurse : String → Plan

  -- `{encode_name: plan}`
  pub data Subplans : Type 0 where
    end_subplans : Subplans
    subplan : String → Plan → Subplans → Subplans

  -- `[plan | None, ...]`
  pub data Parts : Type 0 where
    end_parts : Parts
    open_part : Parts → Parts
    part : Plan → Parts → Parts

  -- `[(tag, plan), ...]`; the tag of a member that is no tagged Struct is None.
  pub data Members : Type 0 where
    end_members : Members
    member : Value → Plan → Members → Members

abbrev pub redacted : Value
redacted = str "********"

-- `d[k] = f(d[k])` if `k in d`
unfoldable pub update_field : String → (Value → Value) → Fields → Fields
update_field k f end = end
update_field k f (pair j v fs) = if j == k then pair j (f v) fs else pair j v (update_field k f fs)

unfoldable pub field_value : String → Fields → Option Value
field_value k end = none
field_value k (pair j v fs) = if j == k then some v else field_value k fs

unfoldable pub map_items : (Value → Value) → Items → Items
map_items f nil = nil
map_items f (cons v vs) = cons (f v) (map_items f vs)

unfoldable pub map_fields : (Value → Value) → Fields → Fields
map_fields f end = end
map_fields f (pair k v fs) = pair k (f v) (map_fields f fs)

-- `isinstance(value, dict)` and the two sequences; anything else passes.
abbrev pub on_fields : (Fields → Fields) → Value → Value
on_fields f (obj fs) = obj (f fs)
on_fields f null = null
on_fields f (bool b) = bool b
on_fields f (num n) = num n
on_fields f (str s) = str s
on_fields f (arr vs) = arr vs

abbrev pub on_items : (Items → Items) → Value → Value
on_items f (arr vs) = arr (f vs)
on_items f null = null
on_items f (bool b) = bool b
on_items f (num n) = num n
on_items f (str s) = str s
on_items f (obj fs) = obj fs

abbrev pub mask_value : Value → Value
mask_value null = null
mask_value _ = redacted

-- `tag == value[tag_field]`. A tag is a text, a number or None, and Python's True and False are
-- the numbers 1 and 0.
bool_num : Bool → ℤ
bool_num true = pos 1
bool_num false = pos 0

num_eq : ℤ → ℤ → Bool
num_eq (pos a) (pos b) = nat_eq a b
num_eq (negsuc a) (negsuc b) = nat_eq a b
num_eq (pos a) (negsuc b) = false
num_eq (negsuc a) (pos b) = false

unfoldable pub tag_eq : Value → Value → Bool
unfolding num_eq bool_num
tag_eq null null = true
tag_eq (str s) (str t) = s == t
tag_eq (num m) (num n) = num_eq m n
tag_eq (num m) (bool b) = num_eq m (bool_num b)
tag_eq _ _ = false

-- A union is told apart by the value of its tag field, or not at all.
pub data Choice : Type 0 where
  untagged : Choice
  tagged : Value → Choice

choice_of : Option Value → Choice
choice_of none = untagged
choice_of (some v) = tagged v

unfoldable pub choice : Option String → Value → Choice
unfolding field_value choice_of
choice none v = untagged
choice (some f) (obj fs) = choice_of (field_value f fs)
choice (some f) _ = untagged

-- `_apply`, with the treatment of a class met again as an argument.
unfoldable mutual
  pub apply_with : (String → Value → Value) → Plan → Value → Value
  apply_with again mask v = mask_value v
  apply_with again (struct ps) v = on_fields (apply_struct again ps) v
  apply_with again (list p) v = on_items (map_items (apply_with again p)) v
  apply_with again (dict p) v = on_fields (map_fields (apply_with again p)) v
  apply_with again (tuple ps) v = on_items (apply_tuple again ps) v
  apply_with again (union f ms) v = apply_union again ms (choice f v) v
  apply_with again (recurse c) v = again c v

  pub apply_struct : (String → Value → Value) → Subplans → Fields → Fields
  apply_struct again end_subplans fs = fs
  apply_struct again (subplan k p ps) fs =
      apply_struct again ps (update_field k (apply_with again p) fs)

  -- Items past the end of the plan pass.
  pub apply_tuple : (String → Value → Value) → Parts → Items → Items
  apply_tuple again end_parts vs = vs
  apply_tuple again (open_part ps) nil = nil
  apply_tuple again (open_part ps) (cons v vs) = cons v (apply_tuple again ps vs)
  apply_tuple again (part p ps) nil = nil
  apply_tuple again (part p ps) (cons v vs) = cons (apply_with again p v) (apply_tuple again ps vs)

  pub apply_union : (String → Value → Value) → Members → Choice → Value → Value
  apply_union again end_members c v = v
  apply_union again (member t p ms) untagged v =
      apply_union again ms untagged (apply_with again p v)
  apply_union again (member t p ms) (tagged s) v =
      let rest = apply_union again ms (tagged s) v in
      if tag_eq t s then apply_with again p v else rest

-- How deep a value is nested.
unfoldable mutual
  pub nesting : Value → ℕ
  nesting null = 0
  nesting (bool b) = 0
  nesting (num n) = 0
  nesting (str s) = 0
  nesting (arr vs) = suc (nesting_items vs)
  nesting (obj fs) = suc (nesting_fields fs)

  pub nesting_items : Items → ℕ
  nesting_items nil = 0
  nesting_items (cons v vs) = max (nesting v) (nesting_items vs)

  pub nesting_fields : Fields → ℕ
  nesting_fields end = 0
  nesting_fields (pair k v fs) = max (nesting v) (nesting_fields fs)

-- The struct plans of the classes, by class name: `compile_plan(cls)` of the cache.
abbrev pub ClassPlans : Type 0
ClassPlans = Dict Subplans

-- `("recurse", cls)`: the plan of the class is looked up when it is met, this many times.
unfoldable pub again : ClassPlans → ℕ → String → Value → Value
unfolding apply_with
again classes zero c v = v
again classes (suc n) c v = elim (lookup c classes) [
  | none ↦ v
  | some ps ↦ apply_with (again classes n) (struct ps) v
]

unfoldable pub apply : ClassPlans → ℕ → Plan → Value → Value
unfolding apply_with again
apply classes n p v = apply_with (again classes n) p v

-- `redact(obj, plan)`: None leaves the value as it is.
unfoldable pub redact : ClassPlans → Option Plan → Value → Value
unfolding apply nesting
redact classes none v = v
redact classes (some p) v = apply classes (suc (nesting v)) p v
