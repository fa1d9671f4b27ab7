-- ===== src/Redaction/Tagged.antt =====
-- truenas_pyjsonrpc/redaction.py: a union of Structs that are told apart by a tag.
use truenas_jsonrpc.Base.{String, ◌≡◌, refl, true, false, Option, some}
use truenas_jsonrpc.Value.{Value, Fields, null, obj}
use truenas_jsonrpc.Redaction.{
  Plan, union, end_members, member, ClassPlans, redact, apply, apply_with, choice, tag_eq,
  field_value,
}
use truenas_jsonrpc.Redaction.Compile.{
  Classes, Schema, metadata, struct_type, union_type, schema, end_schemas, tag_of, compile_with,
}

-- The plan of a union of two Structs, by the first one's tag.
two_members : String → Value → Value → Plan → Plan → Plan
two_members f s t p q = union (some f) (member s p (member t q end_members))

abbrev pub pair_of : Schema → Schema → Schema
pair_of s t = union_type (schema s (schema t end_schemas))

module _ (classes : Classes) (enter : String → Option Plan) (a b f : String) (s t : Value)
    (p q : Plan) (ea : enter a ≡ some p) (eb : enter b ≡ some q)
    (ta : tag_of classes (struct_type a) ≡ some (f, s))
    (tb : tag_of classes (struct_type b) ≡ some (f, t)) where
  compile_direct :
      compile_with classes enter (pair_of (struct_type a) (struct_type b))
      ≡ some (two_members f s t p q)
  unfolding compile_with two_members
  compile_direct = rw (ea, eb, ta, tb) refl

  compile_wrapped :
      compile_with classes enter (pair_of (metadata false (struct_type a)) (struct_type b))
      ≡ some (two_members f null t p q)
  unfolding compile_with two_members
  compile_wrapped = rw (ea, eb, tb) refl

module _ (plans : ClassPlans) (f : String) (s t v : Value) (p q : Plan) (fs : Fields) where
  redact-matched :
      field_value f fs ≡ some v
      → tag_eq s v ≡ true
      → redact plans (some (two_members f s t p q)) (obj fs) ≡ redact plans (some p) (obj fs)
  unfolding redact apply apply_with choice two_members
  redact-matched e m = rw e (rw m refl)

  redact-unmatched :
      field_value f fs ≡ some v
      → tag_eq s v ≡ false
      → tag_eq t v ≡ false
      → redact plans (some (two_members f s t p q)) (obj fs) ≡ obj fs
  unfolding redact apply apply_with choice two_members
  redact-unmatched e n m = rw e (rw (n, m) refl)

-- In a union of two Structs that have plans and are told apart by the tags of one field, a dict with
-- the first one's tag, which is neither None nor the second one's, is masked by the first one's plan.
-- Where the first one is wrapped in Metadata that is not secret, the dict is not masked at all.
pub redact-tagged_member :
    (classes : Classes) (enter : String → Option Plan) (plans : ClassPlans) (a b f : String)
    (s t v : Value) (p q : Plan) (fs : Fields)
    → enter a ≡ some p
    → enter b ≡ some q
    → tag_of classes (struct_type a) ≡ some (f, s)
    → tag_of classes (struct_type b) ≡ some (f, t)
    → field_value f fs ≡ some v
    → tag_eq s v ≡ true
    → tag_eq null v ≡ false
    → tag_eq t v ≡ false
    → (redact plans (compile_with classes enter (pair_of (struct_type a) (struct_type b))) (obj fs)
        ≡ redact plans (some p) (obj fs))
      × (redact plans
            (compile_with classes enter (pair_of (metadata false (struct_type a)) (struct_type b)))
            (obj fs)
          ≡ obj fs)
redact-tagged_member classes enter plans a b f s t v p q fs ea eb ta tb e m n o = (
  rw (compile_direct classes enter a b f s t p q ea eb ta tb)
      (redact-matched plans f s t v p q fs e m),
  rw (compile_wrapped classes enter a b f s t p q ea eb ta tb)
      (redact-unmatched plans f null t v p q fs e n o),
)
