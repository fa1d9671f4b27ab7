-- ===== src/Redaction/Places.antt =====
-- truenas_pyjsonrpc/redaction.py: paths into a value, and the steps of `_apply` that keep what is
-- hidden hidden.
use truenas_jsonrpc.Base.{
  ℕ, zero, suc, ◌≡◌, refl, ◌⊎◌, String, Option, none, some, Bool-cases, inl, inr, List, [], ◌∷◌,
  ◌==◌,
}
use truenas_jsonrpc.Value.{
  Value, Items, Fields, null, bool, num, str, arr, obj, nil, cons, end, pair,
}
use truenas_jsonrpc.Redaction.{
  mask_value, redacted, on_fields, on_items, update_field, field_value, map_items, map_fields,
}

-- A step into a value: the value of a dict's key, or the item of a list at a position.
pub data Place : Type 0 where
  key : String → Place
  index : ℕ → Place

unfoldable pub item : ℕ → Items → Option Value
item i nil = none
item zero (cons v vs) = some v
item (suc i) (cons v vs) = item i vs

-- One step, and the value at the end of a path, if it leads anywhere.
unfoldable pub step : Place → Option Value → Option Value
unfolding field_value item
step x none = none
step (key k) (some (obj fs)) = field_value k fs
step (index i) (some (arr vs)) = item i vs
step x (some v) = none

unfoldable pub at : List Place → Option Value → Option Value
unfolding step
at [] o = o
at (x ∷ path) o = at path (step x o)

-- Nothing is there, or None, or the replacement text.
abbrev pub IsHidden : Option Value → Type 0
IsHidden none = Unit {0}
IsHidden (some v) = (v ≡ null) ⊎ (v ≡ redacted)

abbrev pub IsSafe : List Place → Value → Type 0
IsSafe path v = IsHidden (at path (some v))

pub nowhere : (path : List Place) → IsHidden (at path none)
unfolding at
nowhere [] = tt
nowhere (x ∷ path) = nowhere path

-- A value that is None or the replacement text stays one of them.
pub mask-IsSafe : (path : List Place) (v : Value) → IsSafe path v → IsSafe path (mask_value v)
unfolding at
mask-IsSafe [] null h = inl refl
mask-IsSafe [] (bool b) h = inr refl
mask-IsSafe [] (num n) h = inr refl
mask-IsSafe [] (str s) h = inr refl
mask-IsSafe [] (arr vs) h = inr refl
mask-IsSafe [] (obj fs) h = inr refl
mask-IsSafe (key k ∷ path) null h = nowhere path
mask-IsSafe (index i ∷ path) null h = nowhere path
mask-IsSafe (key k ∷ path) (bool b) h = nowhere path
mask-IsSafe (index i ∷ path) (bool b) h = nowhere path
mask-IsSafe (key k ∷ path) (num n) h = nowhere path
mask-IsSafe (index i ∷ path) (num n) h = nowhere path
mask-IsSafe (key k ∷ path) (str s) h = nowhere path
mask-IsSafe (index i ∷ path) (str s) h = nowhere path
mask-IsSafe (key k ∷ path) (arr vs) h = nowhere path
mask-IsSafe (index i ∷ path) (arr vs) h = nowhere path
mask-IsSafe (key k ∷ path) (obj fs) h = nowhere path
mask-IsSafe (index i ∷ path) (obj fs) h = nowhere path

pub on_fields-IsSafe :
    (f : Fields → Fields)
    → ((k : String) (path : List Place) (fs : Fields)
        → IsHidden (at path (field_value k fs))
        → IsHidden (at path (field_value k (f fs))))
    → (path : List Place) (v : Value) → IsSafe path v
    → IsSafe path (on_fields f v)
unfolding at
on_fields-IsSafe f h [] (obj fs) (inl e) = absurd cc
on_fields-IsSafe f h [] (obj fs) (inr e) = absurd cc
on_fields-IsSafe f h (key k ∷ path) (obj fs) s = h k path fs s
on_fields-IsSafe f h (index i ∷ path) (obj fs) s = nowhere path
on_fields-IsSafe f h path null s = s
on_fields-IsSafe f h path (bool b) s = s
on_fields-IsSafe f h path (num n) s = s
on_fields-IsSafe f h path (str t) s = s
on_fields-IsSafe f h path (arr vs) s = s

pub on_items-IsSafe :
    (f : Items → Items)
    → ((i : ℕ) (path : List Place) (vs : Items)
        → IsHidden (at path (item i vs))
        → IsHidden (at path (item i (f vs))))
    → (path : List Place) (v : Value) → IsSafe path v
    → IsSafe path (on_items f v)
unfolding at
on_items-IsSafe f h [] (arr vs) (inl e) = absurd cc
on_items-IsSafe f h [] (arr vs) (inr e) = absurd cc
on_items-IsSafe f h (index i ∷ path) (arr vs) s = h i path vs s
on_items-IsSafe f h (key k ∷ path) (arr vs) s = nowhere path
on_items-IsSafe f h path null s = s
on_items-IsSafe f h path (bool b) s = s
on_items-IsSafe f h path (num n) s = s
on_items-IsSafe f h path (str t) s = s
on_items-IsSafe f h path (obj fs) s = s

module _ (f : Value → Value)
    (keeps : (path : List Place) (v : Value) → IsSafe path v → IsSafe path (f v)) where
  pub update_field-IsSafe :
      (j k : String) (path : List Place) (fs : Fields)
      → IsHidden (at path (field_value k fs))
      → IsHidden (at path (field_value k (update_field j f fs)))
  unfolding field_value update_field
  update_field-IsSafe j k path end h = h
  update_field-IsSafe j k path (pair i v fs) h = elim (Bool-cases (i == j)) [
    | inl a ↦ elim (Bool-cases (i == k)) [
      | inl b ↦ rw (a, field_value, b) (keeps path v (rw b at h))
      | inr b ↦ rw (a, field_value, b) (rw b at h)
    ]
    | inr a ↦ elim (Bool-cases (i == k)) [
      | inl b ↦ rw (a, field_value, b) (rw b at h)
      | inr b ↦ rw (a, field_value, b) (update_field-IsSafe j k path fs (rw b at h))
    ]
  ]

  pub map_fields-IsSafe :
      (k : String) (path : List Place) (fs : Fields)
      → IsHidden (at path (field_value k fs))
      → IsHidden (at path (field_value k (map_fields f fs)))
  unfolding field_value map_fields
  map_fields-IsSafe k path end h = h
  map_fields-IsSafe k path (pair i v fs) h = elim (Bool-cases (i == k)) [
    | inl b ↦ rw b (keeps path v (rw b at h))
    | inr b ↦ rw b (map_fields-IsSafe k path fs (rw b at h))
  ]

  pub map_items-IsSafe :
      (i : ℕ) (path : List Place) (vs : Items)
      → IsHidden (at path (item i vs))
      → IsHidden (at path (item i (map_items f vs)))
  unfolding item map_items
  map_items-IsSafe i path nil h = h
  map_items-IsSafe zero path (cons v vs) h = keeps path v h
  map_items-IsSafe (suc i) path (cons v vs) h = map_items-IsSafe i path vs h

-- Where a function hides the path in every value, it hides it below a key and an index.
module _ (f : Value → Value) (path : List Place) (hides : (v : Value) → IsSafe path (f v)) where
  pub update_field-hides :
      (k : String) (fs : Fields) → IsHidden (at path (field_value k (update_field k f fs)))
  unfolding field_value update_field
  update_field-hides k end = nowhere path
  update_field-hides k (pair i v fs) = elim (Bool-cases (i == k)) [
    | inl b ↦ rw (b, field_value, b) (hides v)
    | inr b ↦ rw (b, field_value, b) (update_field-hides k fs)
  ]

  pub map_fields-hides :
      (k : String) (fs : Fields) → IsHidden (at path (field_value k (map_fields f fs)))
  unfolding field_value map_fields
  map_fields-hides k end = nowhere path
  map_fields-hides k (pair i v fs) = elim (Bool-cases (i == k)) [
    | inl b ↦ rw b (hides v)
    | inr b ↦ rw b (map_fields-hides k fs)
  ]

  pub map_items-hides : (i : ℕ) (vs : Items) → IsHidden (at path (item i (map_items f vs)))
  unfolding item map_items
  map_items-hides i nil = nowhere path
  map_items-hides zero (cons v vs) = hides v
  map_items-hides (suc i) (cons v vs) = map_items-hides i vs

-- What is hidden in every dict, or in every list, is hidden in every value.
module _ (path : List Place) where
  pub on_fields-hides :
      (h : Fields → Fields) (k : String)
      → ((fs : Fields) → IsHidden (at path (field_value k (h fs))))
      → (v : Value) → IsSafe (key k ∷ path) (on_fields h v)
  unfolding at
  on_fields-hides h k e (obj fs) = e fs
  on_fields-hides h k e null = nowhere path
  on_fields-hides h k e (bool b) = nowhere path
  on_fields-hides h k e (num n) = nowhere path
  on_fields-hides h k e (str s) = nowhere path
  on_fields-hides h k e (arr vs) = nowhere path

  pub on_items-hides :
      (h : Items → Items) (i : ℕ)
      → ((vs : Items) → IsHidden (at path (item i (h vs))))
      → (v : Value) → IsSafe (index i ∷ path) (on_items h v)
  unfolding at
  on_items-hides h i e (arr vs) = e vs
  on_items-hides h i e null = nowhere path
  on_items-hides h i e (bool b) = nowhere path
  on_items-hides h i e (num n) = nowhere path
  on_items-hides h i e (str s) = nowhere path
  on_items-hides h i e (obj fs) = nowhere path
