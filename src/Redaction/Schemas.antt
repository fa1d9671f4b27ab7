-- ===== src/Redaction/Schemas.antt =====
-- truenas_pyjsonrpc/redaction.py: the secrets that a type declares, and how often classes are entered.
use truenas_jsonrpc.Base.{
  ℕ, zero, suc, ◌+◌, ◌<◌, ◌≤◌, ◌≡◌, refl, String, Bool, true, false, ◌||◌, ◌&&◌, Bool-cases, inl,
  inr, Option, none, some, List, [], ◌∷◌, length, lookup, arith, ◌==◌, eq_iff, if◌then◌else◌,
}
use truenas_jsonrpc.Value.{Value}
use truenas_jsonrpc.Redaction.Places.{Place, key, index}
use truenas_jsonrpc.Redaction.Compile.{
  Schema, metadata, struct_type, items_of, dict_of, tuple_type, union_type, Schemas, end_schemas,
  schema, SchemaFields, end_fields, named, ClassInfo, Classes, in_stack, tag_of,
}

unfoldable pub has_name : String → SchemaFields → Bool
has_name k end_fields = false
has_name k (named j s fs) = j == k || has_name k fs

abbrev pub is_untagged : Option (String × Value) → Bool
is_untagged none = true
is_untagged (some t) = false

-- The places of a type that its outermost secret annotations mark, none of them below a union with
-- a tagged Struct among its members, nor in a class that is `array_like`. A field is looked for under its last mention.
module _ (classes : Classes) where
  unfoldable pub all_untagged : Schemas → Bool
  all_untagged end_schemas = true
  all_untagged (schema s ss) = is_untagged (tag_of classes s) && all_untagged ss

mutual
  pub data Marked (classes : Classes) : Schema → List Place → Type 0 where
    here : (s : Schema) → Marked classes (metadata true s) []
    below_metadata :
        (s : Schema) (path : List Place)
        → Marked classes s path
        → Marked classes (metadata false s) path
    below_struct :
        (c : String) (info : ClassInfo) (k : String) (path : List Place)
        → lookup c classes ≡ some info
        → info.array_like ≡ false
        → MarkedField classes info.fields k path
        → Marked classes (struct_type c) (key k ∷ path)
    below_items :
        (s : Schema) (i : ℕ) (path : List Place)
        → Marked classes s path
        → Marked classes (items_of s) (index i ∷ path)
    below_dict :
        (s : Schema) (k : String) (path : List Place)
        → Marked classes s path
        → Marked classes (dict_of s) (key k ∷ path)
    below_tuple :
        (ss : Schemas) (i : ℕ) (path : List Place)
        → MarkedPart classes ss i path
        → Marked classes (tuple_type ss) (index i ∷ path)
    below_union :
        (ss : Schemas) (path : List Place)
        → all_untagged classes ss ≡ true
        → MarkedMember classes ss path
        → Marked classes (union_type ss) path

  pub data MarkedField (classes : Classes) : SchemaFields → String → List Place → Type 0 where
    this_name :
        (k : String) (s : Schema) (fs : SchemaFields) (path : List Place)
        → has_name k fs ≡ false
        → Marked classes s path
        → MarkedField classes (named k s fs) k path
    later_name :
        (j : String) (s : Schema) (fs : SchemaFields) (k : String) (path : List Place)
        → MarkedField classes fs k path
        → MarkedField classes (named j s fs) k path

  pub data MarkedPart (classes : Classes) : Schemas → ℕ → List Place → Type 0 where
    this_item :
        (s : Schema) (ss : Schemas) (path : List Place)
        → Marked classes s path
        → MarkedPart classes (schema s ss) zero path
    later_item :
        (s : Schema) (ss : Schemas) (i : ℕ) (path : List Place)
        → MarkedPart classes ss i path
        → MarkedPart classes (schema s ss) (suc i) path

  pub data MarkedMember (classes : Classes) : Schemas → List Place → Type 0 where
    this_type :
        (s : Schema) (ss : Schemas) (path : List Place)
        → Marked classes s path
        → MarkedMember classes (schema s ss) path
    later_type :
        (s : Schema) (ss : Schemas) (path : List Place)
        → MarkedMember classes ss path
        → MarkedMember classes (schema s ss) path

-- How many classes of the table are not yet entered.
pub fresh : List String → Classes → ℕ
unfolding in_stack
fresh stack [] = 0
fresh stack ((k, i) ∷ t) = (if in_stack k stack then 0 else 1) + fresh stack t

pub fresh-nil : (t : Classes) → fresh [] t ≡ length t
unfolding fresh
fresh-nil [] = refl
fresh-nil ((k, i) ∷ t) = omega (arith, fresh-nil t)

fresh-grows : (c : String) (stack : List String) (t : Classes) → fresh (c ∷ stack) t ≤ fresh stack t
unfolding fresh
fresh-grows c stack [] = omega arith
fresh-grows c stack ((k, i) ∷ t) = ground (arith, fresh-grows c stack t)

-- Entering a class leaves fewer of them.
pub fresh-enters :
    (c : String) (info : ClassInfo) (stack : List String) (t : Classes)
    → lookup c t ≡ some info
    → in_stack c stack ≡ false
    → fresh (c ∷ stack) t < fresh stack t
unfolding fresh lookup
fresh-enters c info stack [] e h = cc
fresh-enters c info stack ((k, i) ∷ t) e h = elim (Bool-cases (k == c)) [
  | inl y ↦ ground (arith, eq_iff k c, eq_iff c k, fresh-grows c stack t)
  | inr n ↦
      ground (arith, eq_iff c k, eq_iff k c, fresh-grows c stack t, fresh-enters c info stack t)
]
