-- ===== src/Redaction/Secrets.antt =====
-- truenas_pyjsonrpc/redaction.py: no secret is left in what is audited. A secret is named by the path
-- that leads to it; which paths a plan holds secret does not depend on the value.
use truenas_jsonrpc.Base.{
  ℕ, zero, suc, ◌+◌, ◌<◌, ◌≡◌, refl, subst, String, none, some, inl, inr, List, [], ◌∷◌, length,
  lookup, arith,
}
use truenas_jsonrpc.Value.{Value, Items, Fields, null, bool, num, str, arr, obj, nil, cons}
use truenas_jsonrpc.Redaction.{
  Plan, mask, struct, list, dict, tuple, union, recurse, Subplans, subplan, Parts, open_part, part,
  Members, member, untagged, choice, mask_value, field_value, apply_with, apply_struct, apply_tuple,
  apply_union, ClassPlans, again, apply, redact, nesting,
}
use truenas_jsonrpc.Redaction.Enough.{apply-redact}
use truenas_jsonrpc.Redaction.Places.{
  Place, key, index, item, at, IsHidden, IsSafe, nowhere, update_field-hides, map_fields-hides,
  map_items-hides, on_fields-hides, on_items-hides,
}
use truenas_jsonrpc.Redaction.Masks.{apply_struct-IsSafe, apply_union-IsSafe, again-IsSafe}

-- The places at which a plan masks. Below a union they are those of its untagged members.
mutual
  pub data Secret (classes : ClassPlans) : Plan → List Place → Type 0 where
    masked : Secret classes mask []
    in_struct :
        (ps : Subplans) (k : String) (path : List Place)
        → SecretField classes ps k path
        → Secret classes (struct ps) (key k ∷ path)
    in_list :
        (p : Plan) (i : ℕ) (path : List Place)
        → Secret classes p path
        → Secret classes (list p) (index i ∷ path)
    in_dict :
        (p : Plan) (k : String) (path : List Place)
        → Secret classes p path
        → Secret classes (dict p) (key k ∷ path)
    in_tuple :
        (ps : Parts) (i : ℕ) (path : List Place)
        → SecretPart classes ps i path
        → Secret classes (tuple ps) (index i ∷ path)
    in_union :
        (ms : Members) (path : List Place)
        → SecretMember classes ms path
        → Secret classes (union none ms) path
    in_class :
        (c : String) (ps : Subplans) (k : String) (path : List Place)
        → lookup c classes ≡ some ps
        → SecretField classes ps k path
        → Secret classes (recurse c) (key k ∷ path)

  pub data SecretField (classes : ClassPlans) : Subplans → String → List Place → Type 0 where
    this_field :
        (k : String) (p : Plan) (ps : Subplans) (path : List Place)
        → Secret classes p path
        → SecretField classes (subplan k p ps) k path
    later_field :
        (j : String) (p : Plan) (ps : Subplans) (k : String) (path : List Place)
        → SecretField classes ps k path
        → SecretField classes (subplan j p ps) k path

  pub data SecretPart (classes : ClassPlans) : Parts → ℕ → List Place → Type 0 where
    this_part :
        (p : Plan) (ps : Parts) (path : List Place)
        → Secret classes p path
        → SecretPart classes (part p ps) zero path
    past_part :
        (p : Plan) (ps : Parts) (i : ℕ) (path : List Place)
        → SecretPart classes ps i path
        → SecretPart classes (part p ps) (suc i) path
    past_open :
        (ps : Parts) (i : ℕ) (path : List Place)
        → SecretPart classes ps i path
        → SecretPart classes (open_part ps) (suc i) path

  pub data SecretMember (classes : ClassPlans) : Members → List Place → Type 0 where
    this_member :
        (t : Value) (p : Plan) (ms : Members) (path : List Place)
        → Secret classes p path
        → SecretMember classes (member t p ms) path
    later_member :
        (t : Value) (p : Plan) (ms : Members) (path : List Place)
        → SecretMember classes ms path
        → SecretMember classes (member t p ms) path

mask-hides : (v : Value) → IsSafe [] (mask_value v)
unfolding at
mask-hides null = inl refl
mask-hides (bool b) = inr refl
mask-hides (num n) = inr refl
mask-hides (str s) = inr refl
mask-hides (arr vs) = inr refl
mask-hides (obj fs) = inr refl

module _ (classes : ClassPlans) where
  mutual
    unfolding apply_with again item choice

    Secret-hides :
        (n : ℕ) (p : Plan) (path : List Place)
        → Secret classes p path
        → length path < n
        → (v : Value) → IsSafe path (apply_with (again classes n) p v)
    Secret-hides n _ _ masked l v = mask-hides v
    Secret-hides n _ _ (in_struct ps k path f) l v =
        on_fields-hides path (apply_struct (again classes n) ps) k
          (field-hides n ps k path f (omega (arith, l))) v
    Secret-hides n _ _ (in_list p i path f) l v =
        on_items-hides path _ i
          (map_items-hides _ path (Secret-hides n p path f (omega (arith, l))) i) v
    Secret-hides n _ _ (in_dict p k path f) l v =
        on_fields-hides path _ k
          (map_fields-hides _ path (Secret-hides n p path f (omega (arith, l))) k) v
    Secret-hides n _ _ (in_tuple ps i path f) l v =
        on_items-hides path _ i (part-hides n ps i path f (omega (arith, l))) v
    Secret-hides n _ _ (in_union ms path f) l v = member-hides n ms path f l v
    Secret-hides zero _ _ (in_class c ps k path e f) l v = absurd (omega (arith, l))
    Secret-hides (suc n) _ _ (in_class c ps k path e f) l v =
        rw (again, e)
          (on_fields-hides path (apply_struct (again classes n) ps) k
            (field-hides n ps k path f (omega (arith, l))) v)

    field-hides :
        (n : ℕ) (ps : Subplans) (k : String) (path : List Place)
        → SecretField classes ps k path
        → length path < n
        → (fs : Fields) → IsHidden (at path (field_value k (apply_struct (again classes n) ps fs)))
    field-hides n _ _ _ (this_field k p ps path f) l fs =
        apply_struct-IsSafe (again classes n) (again-IsSafe classes n) ps k path _
          (update_field-hides _ path (Secret-hides n p path f l) k fs)
    field-hides n _ _ _ (later_field j p ps k path f) l fs = field-hides n ps k path f l _

    part-hides :
        (n : ℕ) (ps : Parts) (i : ℕ) (path : List Place)
        → SecretPart classes ps i path
        → length path < n
        → (vs : Items) → IsHidden (at path (item i (apply_tuple (again classes n) ps vs)))
    part-hides n _ _ _ (this_part p ps path f) l nil = nowhere path
    part-hides n _ _ _ (this_part p ps path f) l (cons v vs) = Secret-hides n p path f l v
    part-hides n _ _ _ (past_part p ps i path f) l nil = nowhere path
    part-hides n _ _ _ (past_part p ps i path f) l (cons v vs) = part-hides n ps i path f l vs
    part-hides n _ _ _ (past_open ps i path f) l nil = nowhere path
    part-hides n _ _ _ (past_open ps i path f) l (cons v vs) = part-hides n ps i path f l vs

    member-hides :
        (n : ℕ) (ms : Members) (path : List Place)
        → SecretMember classes ms path
        → length path < n
        → (v : Value) → IsSafe path (apply_union (again classes n) ms untagged v)
    member-hides n _ _ (this_member t p ms path f) l v =
        apply_union-IsSafe (again classes n) (again-IsSafe classes n) ms untagged path _
          (Secret-hides n p path f l v)
    member-hides n _ _ (later_member t p ms path f) l v = member-hides n ms path f l _

  -- Whatever the value is, at every place that the plan masks the redacted value has nothing, None or
  -- the replacement text, below classes that are met again and untagged unions too.
  pub redact-hides :
      (p : Plan) (path : List Place) (v : Value)
      → Secret classes p path
      → IsSafe path (redact classes (some p) v)
  redact-hides p path v f =
      let n = suc (nesting v + length path) in
      subst (IsSafe path) (apply-redact classes n p v (omega arith))
        (unfold apply in Secret-hides n p path f (omega arith) v)
