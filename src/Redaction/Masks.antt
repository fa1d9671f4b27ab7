-- ===== src/Redaction/Masks.antt =====
-- truenas_pyjsonrpc/redaction.py: no secret is left in what is audited.
use truenas_jsonrpc.Base.{ℕ, zero, suc, String, Option-cases, Bool-cases, inl, inr, List, lookup}
use truenas_jsonrpc.Value.{Value, Items, Fields, nil, cons}
use truenas_jsonrpc.Redaction.{
  Plan, mask, struct, list, dict, tuple, union, recurse, Subplans, end_subplans, subplan, Parts,
  end_parts, open_part, part, Members, end_members, member, Choice, untagged, tagged, choice,
  tag_eq, update_field, field_value, apply_with, apply_struct, apply_tuple, apply_union, ClassPlans,
  again,
}
use truenas_jsonrpc.Redaction.Places.{
  Place, item, at, IsHidden, IsSafe, mask-IsSafe, on_fields-IsSafe, on_items-IsSafe,
  update_field-IsSafe, map_fields-IsSafe, map_items-IsSafe,
}

-- No plan brings a value back to a place where it is hidden.
module _ (g : String → Value → Value)
    (keeps : (c : String) (path : List Place) (v : Value)
      → IsSafe path v
      → IsSafe path (g c v)) where
  mutual
    unfolding apply_with item

    pub apply_with-IsSafe :
        (p : Plan) (path : List Place) (v : Value) → IsSafe path v → IsSafe path (apply_with g p v)
    apply_with-IsSafe mask path v h = mask-IsSafe path v h
    apply_with-IsSafe (struct ps) path v h = on_fields-IsSafe _ (apply_struct-IsSafe ps) path v h
    apply_with-IsSafe (list p) path v h =
        on_items-IsSafe _ (map_items-IsSafe (apply_with g p) (apply_with-IsSafe p)) path v h
    apply_with-IsSafe (dict p) path v h =
        on_fields-IsSafe _ (map_fields-IsSafe (apply_with g p) (apply_with-IsSafe p)) path v h
    apply_with-IsSafe (tuple ps) path v h = on_items-IsSafe _ (apply_tuple-IsSafe ps) path v h
    apply_with-IsSafe (union f ms) path v h = apply_union-IsSafe ms (choice f v) path v h
    apply_with-IsSafe (recurse c) path v h = keeps c path v h

    pub apply_struct-IsSafe :
        (ps : Subplans) (k : String) (path : List Place) (fs : Fields)
        → IsHidden (at path (field_value k fs))
        → IsHidden (at path (field_value k (apply_struct g ps fs)))
    apply_struct-IsSafe end_subplans k path fs h = h
    apply_struct-IsSafe (subplan j p ps) k path fs h =
        apply_struct-IsSafe ps k path (update_field j (apply_with g p) fs)
          (update_field-IsSafe (apply_with g p) (apply_with-IsSafe p) j k path fs h)

    apply_tuple-IsSafe :
        (ps : Parts) (i : ℕ) (path : List Place) (vs : Items)
        → IsHidden (at path (item i vs))
        → IsHidden (at path (item i (apply_tuple g ps vs)))
    apply_tuple-IsSafe end_parts i path vs h = h
    apply_tuple-IsSafe (open_part ps) i path nil h = h
    apply_tuple-IsSafe (open_part ps) zero path (cons v vs) h = h
    apply_tuple-IsSafe (open_part ps) (suc i) path (cons v vs) h = apply_tuple-IsSafe ps i path vs h
    apply_tuple-IsSafe (part p ps) i path nil h = h
    apply_tuple-IsSafe (part p ps) zero path (cons v vs) h = apply_with-IsSafe p path v h
    apply_tuple-IsSafe (part p ps) (suc i) path (cons v vs) h = apply_tuple-IsSafe ps i path vs h

    pub apply_union-IsSafe :
        (ms : Members) (c : Choice) (path : List Place) (v : Value)
        → IsSafe path v
        → IsSafe path (apply_union g ms c v)
    apply_union-IsSafe end_members c path v h = h
    apply_union-IsSafe (member t p ms) untagged path v h =
        apply_union-IsSafe ms untagged path (apply_with g p v) (apply_with-IsSafe p path v h)
    apply_union-IsSafe (member t p ms) (tagged s) path v h = elim (Bool-cases (tag_eq t s)) [
      | inl e ↦ rw (apply_union, e) (apply_with-IsSafe p path v h)
      | inr e ↦ rw (apply_union, e) (apply_union-IsSafe ms (tagged s) path v h)
    ]

pub again-IsSafe :
    (classes : ClassPlans) (n : ℕ) (c : String) (path : List Place) (v : Value)
    → IsSafe path v
    → IsSafe path (again classes n c v)
unfolding again
again-IsSafe classes zero c path v h = h
again-IsSafe classes (suc n) c path v h = elim (Option-cases (lookup c classes)) [
  | inl e ↦ rw (again, e) h
  | inr (ps, e) ↦
      rw (again, e)
        (apply_with-IsSafe (again classes n) (again-IsSafe classes n) (struct ps) path v h)
]
