-- ===== src/Redaction/Plans.antt =====
-- truenas_pyjsonrpc/redaction.py: the parts of `_compile`, and the secrets below them.
use truenas_jsonrpc.Base.{
  ℕ, suc, ◌≡◌, refl, String, Bool, true, false, ◌||◌, Bool-cases, inl, inr, Option, none, some,
  List, arith, ◌==◌, eq_iff,
}
use truenas_jsonrpc.Redaction.{
  Plan, struct, Subplans, end_subplans, subplan, Parts, Members, ClassPlans,
}
use truenas_jsonrpc.Value.{Value}
use truenas_jsonrpc.Redaction.Places.{Place}
use truenas_jsonrpc.Redaction.Secrets.{
  Secret, SecretField, this_field, later_field, SecretPart, this_part, past_part, past_open,
  SecretMember, this_member, later_member,
}
use truenas_jsonrpc.Redaction.Compile.{
  SchemaFields, end_fields, named, Classes, set_subplan, add_part, any_part, struct_plan,
  add_member, compile_with, add_subplan, compile_fields,
}
use truenas_jsonrpc.Redaction.Schemas.{has_name}

module _ (plans : ClassPlans) where
  pub set_subplan-this :
      (k : String) (p : Plan) (ps : Subplans) (path : List Place)
      → Secret plans p path
      → SecretField plans (set_subplan k p ps) k path
  unfolding set_subplan
  set_subplan-this k p end_subplans path h = this_field k p end_subplans path h
  set_subplan-this k p (subplan j q ps) path h = elim (Bool-cases (j == k)) [
    | inl y ↦ rw y (this_field k p ps path h)
    | inr n ↦ rw n (later_field j q (set_subplan k p ps) k path (set_subplan-this k p ps path h))
  ]

  pub set_subplan-keeps :
      (j : String) (p : Plan) (ps : Subplans) (k : String) (path : List Place)
      → (j == k) ≡ false
      → SecretField plans ps k path
      → SecretField plans (set_subplan j p ps) k path
  unfolding set_subplan
  set_subplan-keeps j p _ _ _ n (this_field k q ps path h) =
      let m : (k == j) ≡ false = ground (arith, eq_iff k j, eq_iff j k) in
      rw m (this_field k q (set_subplan j p ps) path h)
  set_subplan-keeps j p _ _ _ n (later_field i q ps k path h) = elim (Bool-cases (i == j)) [
    | inl y ↦ rw y (later_field j p ps k path h)
    | inr m ↦
        rw m (later_field i q (set_subplan j p ps) k path (set_subplan-keeps j p ps k path n h))
  ]

  pub add_subplan-keeps :
      (j : String) (o : Option Plan) (ps : Subplans) (k : String) (path : List Place)
      → (j == k) ≡ false
      → SecretField plans ps k path
      → SecretField plans (add_subplan j o ps) k path
  add_subplan-keeps j none ps k path n h = h
  add_subplan-keeps j (some p) ps k path n h = set_subplan-keeps j p ps k path n h

  pub struct_plan-some :
      (ps : Subplans) (k : String) (path : List Place)
      → SecretField plans ps k path
      → struct_plan ps ≡ some (struct ps)
  struct_plan-some _ _ _ (this_field k p ps path h) = refl
  struct_plan-some _ _ _ (later_field j p ps k path h) = refl

  pub any_part-true :
      (ps : Parts) (i : ℕ) (path : List Place) → SecretPart plans ps i path → any_part ps ≡ true
  unfolding any_part
  any_part-true _ _ _ (this_part p ps path h) = refl
  any_part-true _ _ _ (past_part p ps i path h) = refl
  any_part-true _ _ _ (past_open ps i path h) = any_part-true ps i path h

  pub past_this :
      (o : Option Plan) (ps : Parts) (i : ℕ) (path : List Place)
      → SecretPart plans ps i path
      → SecretPart plans (add_part o ps) (suc i) path
  past_this none ps i path h = past_open ps i path h
  past_this (some p) ps i path h = past_part p ps i path h

  pub add_member-this :
      (t : Option (String × Value)) (p : Plan) (r : Option String × Members) (path : List Place)
      → Secret plans p path
      → SecretMember plans (add_member t (some p) r).1 path
  add_member-this t p (f, ms) path h = this_member _ p ms path h

  pub add_member-later :
      (t : Option (String × Value)) (o : Option Plan) (r : Option String × Members)
      (path : List Place)
      → SecretMember plans r.1 path
      → SecretMember plans (add_member t o r).1 path
  add_member-later t none r path h = h
  add_member-later t (some p) (f, ms) path h = later_member _ p ms path h

  pub compile_fields-keeps :
      (classes : Classes) (enter : String → Option Plan) (fs : SchemaFields) (acc : Subplans)
      (k : String) (path : List Place)
      → has_name k fs ≡ false
      → SecretField plans acc k path
      → SecretField plans (compile_fields classes enter fs acc) k path
  unfolding compile_fields has_name
  compile_fields-keeps classes enter end_fields acc k path n h = h
  compile_fields-keeps classes enter (named j s fs) acc k path n h =
      let (this, rest) = or_false (j == k) (has_name k fs) n in
      compile_fields-keeps classes enter fs (add_subplan j (compile_with classes enter s) acc) k
        path rest (add_subplan-keeps j (compile_with classes enter s) acc k path this h)
    where
      or_false : (a b : Bool) → (a || b) ≡ false → (a ≡ false) × (b ≡ false)
      or_false a b h = ground (arith, h)
