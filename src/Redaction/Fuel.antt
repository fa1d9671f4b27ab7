-- ===== src/Redaction/Fuel.antt =====
-- truenas_pyjsonrpc/redaction.py: a plan that is met again is unfolded often enough.
use truenas_jsonrpc.Base.{ℕ, suc, ◌≤◌, ◌≡◌, refl, ap, ◌∙◌, String, arith}
use truenas_jsonrpc.Value.{
  Value, Items, Fields, null, bool, num, str, arr, obj, nil, cons, end, pair,
}
use truenas_jsonrpc.Redaction.{
  Plan, mask, struct, list, dict, tuple, union, recurse, Subplans, end_subplans, subplan, Parts,
  end_parts, open_part, part, Members, end_members, member, Choice, untagged, tagged, choice,
  mask_value, on_fields, on_items, update_field, map_items, map_fields, apply_with, apply_struct,
  apply_tuple, apply_union, nesting, nesting_items, nesting_fields,
}

mask-nesting : (v : Value) → nesting (mask_value v) ≤ nesting v
unfolding nesting
mask-nesting null = omega arith
mask-nesting (bool b) = omega arith
mask-nesting (num n) = omega arith
mask-nesting (str s) = omega arith
mask-nesting (arr vs) = omega arith
mask-nesting (obj fs) = omega arith

-- A function on the entries of a dict, or on the items of a list, that leaves other values alone.
on_fields-nesting :
    (f : Fields → Fields)
    → ((fs : Fields) → nesting_fields (f fs) ≤ nesting_fields fs)
    → (v : Value) → nesting (on_fields f v) ≤ nesting v
unfolding nesting
on_fields-nesting f h (obj fs) = omega (arith, h fs)
on_fields-nesting f h null = omega arith
on_fields-nesting f h (bool b) = omega arith
on_fields-nesting f h (num n) = omega arith
on_fields-nesting f h (str s) = omega arith
on_fields-nesting f h (arr vs) = omega arith

on_items-nesting :
    (f : Items → Items)
    → ((vs : Items) → nesting_items (f vs) ≤ nesting_items vs)
    → (v : Value) → nesting (on_items f v) ≤ nesting v
unfolding nesting
on_items-nesting f h (arr vs) = omega (arith, h vs)
on_items-nesting f h null = omega arith
on_items-nesting f h (bool b) = omega arith
on_items-nesting f h (num n) = omega arith
on_items-nesting f h (str s) = omega arith
on_items-nesting f h (obj fs) = omega arith

pub on_fields-same :
    (f g : Fields → Fields) (n : ℕ)
    → ((fs : Fields) → nesting_fields fs ≤ n → f fs ≡ g fs)
    → (v : Value) → nesting v ≤ suc n
    → on_fields f v ≡ on_fields g v
unfolding nesting
on_fields-same f g n h (obj fs) l = ap obj (h fs (omega (arith, l)))
on_fields-same f g n h null l = refl
on_fields-same f g n h (bool b) l = refl
on_fields-same f g n h (num k) l = refl
on_fields-same f g n h (str s) l = refl
on_fields-same f g n h (arr vs) l = refl

on_items-same :
    (f g : Items → Items) (n : ℕ)
    → ((vs : Items) → nesting_items vs ≤ n → f vs ≡ g vs)
    → (v : Value) → nesting v ≤ suc n
    → on_items f v ≡ on_items g v
unfolding nesting
on_items-same f g n h (arr vs) l = ap arr (h vs (omega (arith, l)))
on_items-same f g n h null l = refl
on_items-same f g n h (bool b) l = refl
on_items-same f g n h (num k) l = refl
on_items-same f g n h (str s) l = refl
on_items-same f g n h (obj fs) l = refl

module _ (f : Value → Value) (shrinks : (v : Value) → nesting (f v) ≤ nesting v) where
  map_items-nesting : (vs : Items) → nesting_items (map_items f vs) ≤ nesting_items vs
  unfolding nesting map_items
  map_items-nesting nil = omega arith
  map_items-nesting (cons v vs) = omega (arith, shrinks v, map_items-nesting vs)

  map_fields-nesting : (fs : Fields) → nesting_fields (map_fields f fs) ≤ nesting_fields fs
  unfolding nesting map_fields
  map_fields-nesting end = omega arith
  map_fields-nesting (pair k v fs) = omega (arith, shrinks v, map_fields-nesting fs)

  update_field-nesting :
      (k : String) (fs : Fields) → nesting_fields (update_field k f fs) ≤ nesting_fields fs
  unfolding nesting update_field
  update_field-nesting k end = omega arith
  update_field-nesting k (pair j v fs) = ground (arith, shrinks v, update_field-nesting k fs)

-- Two functions that agree up to a nesting give the same lists and dicts up to it.
module _ (f g : Value → Value) (n : ℕ) (same : (v : Value) → nesting v ≤ n → f v ≡ g v) where
  map_items-same : (vs : Items) → nesting_items vs ≤ n → map_items f vs ≡ map_items g vs
  unfolding nesting map_items
  map_items-same nil h = refl
  map_items-same (cons v vs) h =
      rw (same v (omega (arith, h)), map_items-same vs (omega (arith, h)))

  map_fields-same : (fs : Fields) → nesting_fields fs ≤ n → map_fields f fs ≡ map_fields g fs
  unfolding nesting map_fields
  map_fields-same end h = refl
  map_fields-same (pair k v fs) h =
      rw (same v (omega (arith, h)), map_fields-same fs (omega (arith, h)))

  update_field-same :
      (k : String) (fs : Fields) → nesting_fields fs ≤ n → update_field k f fs ≡ update_field k g fs
  unfolding nesting update_field
  update_field-same k end h = refl
  update_field-same k (pair j v fs) h =
      rw (same v (omega (arith, h)), update_field-same k fs (omega (arith, h)))

module _ (g : String → Value → Value)
    (shrinks : (c : String) (v : Value) → nesting (g c v) ≤ nesting v) where
  mutual
    unfolding apply_with nesting

    pub apply_with-nesting : (p : Plan) (v : Value) → nesting (apply_with g p v) ≤ nesting v
    apply_with-nesting mask v = mask-nesting v
    apply_with-nesting (struct ps) v =
        on_fields-nesting (apply_struct g ps) (apply_struct-nesting ps) v
    apply_with-nesting (list p) v =
        on_items-nesting (map_items (apply_with g p))
          (map_items-nesting (apply_with g p) (apply_with-nesting p)) v
    apply_with-nesting (dict p) v =
        on_fields-nesting (map_fields (apply_with g p))
          (map_fields-nesting (apply_with g p) (apply_with-nesting p)) v
    apply_with-nesting (tuple ps) v = on_items-nesting (apply_tuple g ps) (apply_tuple-nesting ps) v
    apply_with-nesting (union f ms) v = apply_union-nesting ms (choice f v) v
    apply_with-nesting (recurse c) v = shrinks c v

    pub apply_struct-nesting :
        (ps : Subplans) (fs : Fields) → nesting_fields (apply_struct g ps fs) ≤ nesting_fields fs
    apply_struct-nesting end_subplans fs = omega arith
    apply_struct-nesting (subplan k p ps) fs = omega (
      arith,
      update_field-nesting (apply_with g p) (apply_with-nesting p) k fs,
      apply_struct-nesting ps (update_field k (apply_with g p) fs),
    )

    apply_tuple-nesting :
        (ps : Parts) (vs : Items) → nesting_items (apply_tuple g ps vs) ≤ nesting_items vs
    apply_tuple-nesting end_parts vs = omega arith
    apply_tuple-nesting (open_part ps) nil = omega arith
    apply_tuple-nesting (open_part ps) (cons v vs) = omega (arith, apply_tuple-nesting ps vs)
    apply_tuple-nesting (part p ps) nil = omega arith
    apply_tuple-nesting (part p ps) (cons v vs) =
        omega (arith, apply_with-nesting p v, apply_tuple-nesting ps vs)

    apply_union-nesting :
        (ms : Members) (c : Choice) (v : Value) → nesting (apply_union g ms c v) ≤ nesting v
    apply_union-nesting end_members c v = omega arith
    apply_union-nesting (member t p ms) untagged v =
        omega (arith, apply_with-nesting p v, apply_union-nesting ms untagged (apply_with g p v))
    apply_union-nesting (member t p ms) (tagged s) v =
        ground (arith, apply_with-nesting p v, apply_union-nesting ms (tagged s) v)

head-nesting : {n : ℕ} (v : Value) (vs : Items) → nesting_items (cons v vs) ≤ n → nesting v ≤ n
unfolding nesting
head-nesting v vs l = omega (arith, l)

tail-nesting :
    {n : ℕ} (v : Value) (vs : Items) → nesting_items (cons v vs) ≤ n → nesting_items vs ≤ n
unfolding nesting
tail-nesting v vs l = omega (arith, l)

-- Two treatments of a class met again that agree up to a nesting give the same redaction up to it.
module _ (g h : String → Value → Value)
    (shrinks : (c : String) (v : Value) → nesting (g c v) ≤ nesting v) (n : ℕ)
    (same : (c : String) (v : Value) → nesting v ≤ n → g c v ≡ h c v) where
  mutual
    unfolding apply_with

    pub apply_with-same :
        (p : Plan) (v : Value) → nesting v ≤ n → apply_with g p v ≡ apply_with h p v
    apply_with-same mask v l = refl
    apply_with-same (struct ps) v l =
        on_fields-same _ _ n (apply_struct-same ps) v (omega (arith, l))
    apply_with-same (list p) v l =
        on_items-same _ _ n (map_items-same _ _ n (apply_with-same p)) v (omega (arith, l))
    apply_with-same (dict p) v l =
        on_fields-same _ _ n (map_fields-same _ _ n (apply_with-same p)) v (omega (arith, l))
    apply_with-same (tuple ps) v l = on_items-same _ _ n (apply_tuple-same ps) v (omega (arith, l))
    apply_with-same (union f ms) v l = apply_union-same ms (choice f v) v l
    apply_with-same (recurse c) v l = same c v l

    pub apply_struct-same :
        (ps : Subplans) (fs : Fields)
        → nesting_fields fs ≤ n
        → apply_struct g ps fs ≡ apply_struct h ps fs
    apply_struct-same end_subplans fs l = refl
    apply_struct-same (subplan k p ps) fs l =
        apply_struct-same ps (update_field k (apply_with g p) fs) (
          omega
            (arith, l, update_field-nesting (apply_with g p) (apply_with-nesting g shrinks p) k fs))
        ∙ ap (apply_struct h ps) (update_field-same _ _ n (apply_with-same p) k fs l)

    apply_tuple-same :
        (ps : Parts) (vs : Items) → nesting_items vs ≤ n → apply_tuple g ps vs ≡ apply_tuple h ps vs
    apply_tuple-same end_parts vs l = refl
    apply_tuple-same (open_part ps) nil l = refl
    apply_tuple-same (open_part ps) (cons v vs) l =
        ap (cons v) (apply_tuple-same ps vs (tail-nesting v vs l))
    apply_tuple-same (part p ps) nil l = refl
    apply_tuple-same (part p ps) (cons v vs) l =
        rw (apply_with-same p v (head-nesting v vs l), apply_tuple-same ps vs (tail-nesting v vs l))

    apply_union-same :
        (ms : Members) (c : Choice) (v : Value)
        → nesting v ≤ n
        → apply_union g ms c v ≡ apply_union h ms c v
    apply_union-same end_members c v l = refl
    apply_union-same (member t p ms) untagged v l =
        apply_union-same ms untagged (apply_with g p v)
          (omega (arith, l, apply_with-nesting g shrinks p v))
        ∙ ap (apply_union h ms untagged) (apply_with-same p v l)
    apply_union-same (member t p ms) (tagged s) v l =
        rw (apply_with-same p v l, apply_union-same ms (tagged s) v l)
