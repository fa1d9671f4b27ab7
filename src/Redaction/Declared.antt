-- ===== src/Redaction/Declared.antt =====
-- truenas_pyjsonrpc/redaction.py: the secrets that a type declares, in the plan that it compiles to.
use truenas_jsonrpc.Base.{
  ℕ, zero, suc, ◌<◌, ◌≡◌, refl, ap, String, true, false, ◌&&◌, Bool-cases, inl, inr, Option, none,
  some, List, [], ◌∷◌, length, lookup, arith, ◌==◌, eq_iff, eq_refl,
}
use mathlib.Core.Option.{none-ne-some}
use truenas_jsonrpc.Redaction.{
  Plan, mask, struct, list, dict, tuple, union, recurse, Subplans, end_subplans, Members,
  end_members, member, ClassPlans, redact,
}
use truenas_jsonrpc.Value.{Value}
use truenas_jsonrpc.Redaction.Places.{Place, key, IsSafe}
use truenas_jsonrpc.Redaction.Secrets.{
  Secret, masked, in_struct, in_list, in_dict, in_tuple, in_union, in_class, SecretField,
  SecretPart, this_part, SecretMember, redact-hides,
}
use truenas_jsonrpc.Redaction.Compile.{
  Schema, struct_type, Schemas, end_schemas, schema, SchemaFields, ClassInfo, Classes, list_plan,
  dict_plan, union_plan, add_member, in_stack, tag_of, compile_with, compile_parts, compile_members,
  add_subplan, compile_fields, class_plan, compile_plan, class_plans, plans_from, subplans_of,
  add_class,
}
use truenas_jsonrpc.Redaction.Schemas.{
  Marked, here, below_metadata, below_struct, below_items, below_dict, below_tuple, below_union,
  MarkedField, this_name, later_name, MarkedPart, this_item, later_item, MarkedMember, this_type,
  later_type, all_untagged, is_untagged, fresh, fresh-nil, fresh-enters,
}
use truenas_jsonrpc.Redaction.Plans.{
  set_subplan-this, struct_plan-some, any_part-true, past_this, add_member-this, add_member-later,
  compile_fields-keeps,
}

-- A plan is compiled, and it masks at the path.
abbrev Compiled : ClassPlans → Option Plan → List Place → Type 0
Compiled plans o path = (p : Plan) × (o ≡ some p) × Secret plans p path

compile_members-untagged :
    (classes : Classes) (enter : String → Option Plan) (ss : Schemas)
    → all_untagged classes ss ≡ true
    → (compile_members classes enter ss).0 ≡ none
unfolding compile_with all_untagged
compile_members-untagged classes enter end_schemas h = refl
compile_members-untagged classes enter (schema s ss) h =
    by_tag (tag_of classes s) (compile_with classes enter s) (compile_members classes enter ss) h
      (λ g. compile_members-untagged classes enter ss g)
  where
    by_tag :
        (t : Option (String × Value)) (o : Option Plan) (r : Option String × Members)
        → (is_untagged t && all_untagged classes ss) ≡ true
        → (all_untagged classes ss ≡ true → r.0 ≡ none)
        → (add_member t o r).0 ≡ none
    by_tag none none r h g = g h
    by_tag none (some p) (none, ms) h g = refl
    by_tag none (some p) (some f, ms) h g = g h
    by_tag (some t) o r h g = cc

union_plan-some :
    (plans : ClassPlans) (r : Option String × Members) (path : List Place)
    → r.0 ≡ none
    → SecretMember plans r.1 path
    → Compiled plans (union_plan r) path
union_plan-some plans (f, end_members) path e h = elim h [ ]
union_plan-some plans (f, member t p ms) path e h =
    (union f (member t p ms), refl, rw e (in_union (member t p ms) path h))

class_plans-lookup :
    (classes cs : Classes) (c : String) (info : ClassInfo) (ps : Subplans)
    → lookup c cs ≡ some info
    → subplans_of (compile_plan classes c) ≡ some ps
    → lookup c (plans_from classes cs) ≡ some ps
unfolding lookup plans_from
class_plans-lookup classes [] c info ps e h = absurd (none-ne-some _ e)
class_plans-lookup classes ((k, i) ∷ cs) c info ps e h = elim (Bool-cases (k == c)) [
  | inl y ↦ let same = (eq_iff k c).0 y in rw (same, h) (unfold lookup in rw (eq_refl c) refl)
  | inr n ↦
      skip (subplans_of (compile_plan classes k)) n
        (class_plans-lookup classes cs c info ps (rw n at e) h)
]
  where
    skip :
        (o : Option Subplans)
        → (k == c) ≡ false
        → lookup c (plans_from classes cs) ≡ some ps
        → lookup c (add_class k o (plans_from classes cs)) ≡ some ps
    skip none n l = l
    skip (some qs) n l = rw n l

module _ (classes : Classes) (c : String) (info : ClassInfo) (k : String) (path : List Place) where
  -- What a class met again is looked up to be.
  met_again :
      lookup c classes ≡ some info
      → SecretField
          (class_plans classes)
          (compile_fields classes
            (class_plan classes (length classes) (c ∷ []))
            info.fields
            end_subplans)
          k
          path
      → Secret (class_plans classes) (recurse c) (key k ∷ path)
  unfolding compile_plan class_plan
  met_again e x =
      let ps =
        compile_fields classes (class_plan classes (length classes) (c ∷ [])) info.fields
          end_subplans in
      in_class c ps k path
        (class_plans-lookup classes classes c info ps e
          (rw e (ap subplans_of (struct_plan-some (class_plans classes) ps k path x))))
        x

  class_plan-Compiled :
      (n : ℕ) (stack : List String)
      → lookup c classes ≡ some info
      → (in_stack c stack ≡ false
          → SecretField
              (class_plans classes)
              (compile_fields classes (class_plan classes n (c ∷ stack)) info.fields end_subplans)
              k
              path)
      → SecretField
          (class_plans classes)
          (compile_fields classes
            (class_plan classes (length classes) (c ∷ []))
            info.fields
            end_subplans)
          k
          path
      → Compiled (class_plans classes) (class_plan classes (suc n) stack c) (key k ∷ path)
  unfolding class_plan
  class_plan-Compiled n stack e f x = elim (Bool-cases (in_stack c stack)) [
    | inl y ↦ (recurse c, rw y refl, met_again e x)
    | inr m ↦
        let ps =
          compile_fields classes (class_plan classes n (c ∷ stack)) info.fields end_subplans in
        (
          struct ps,
          rw (m, e) (struct_plan-some (class_plans classes) ps k path (f m)),
          in_struct ps k path (f m),
        )
  ]

not_in_empty : (c : String) → in_stack c [] ≡ false
unfolding in_stack
not_in_empty c = refl

module _ (classes : Classes) where
  mutual
    unfolding compile_with compile_fields

    Marked-Compiled :
        (n : ℕ) (stack : List String) (s : Schema) (path : List Place)
        → fresh stack classes < n
        → Marked classes s path
        → Compiled (class_plans classes) (compile_with classes (class_plan classes n stack) s) path
    Marked-Compiled n stack _ _ l (here s) = (mask, refl, masked)
    Marked-Compiled n stack _ _ l (below_metadata s path h) = Marked-Compiled n stack s path l h
    Marked-Compiled zero stack _ _ l (below_struct c info k path e a h) = absurd (omega (arith, l))
    Marked-Compiled (suc n) stack _ _ l (below_struct c info k path e a h) =
        class_plan-Compiled classes c info k path n stack e
          (λ m.
            Marked-SecretField n (c ∷ stack) info.fields k path end_subplans
              (omega (arith, l, fresh-enters c info stack classes e m)) h)
          (Marked-SecretField (length classes) (c ∷ []) info.fields k path end_subplans
            (omega (arith, fresh-nil classes, fresh-enters c info [] classes e (not_in_empty c))) h)
    Marked-Compiled n stack _ _ l (below_items s i path h) =
        let (p, e, x) = Marked-Compiled n stack s path l h in
        (list p, ap list_plan e, in_list p i path x)
    Marked-Compiled n stack _ _ l (below_dict s k path h) =
        let (p, e, x) = Marked-Compiled n stack s path l h in
        (dict p, ap dict_plan e, in_dict p k path x)
    Marked-Compiled n stack _ _ l (below_tuple ss i path h) =
        let ps = compile_parts classes (class_plan classes n stack) ss in
        let x = Marked-SecretPart n stack ss i path l h in
        (tuple ps, rw (any_part-true (class_plans classes) ps i path x) refl, in_tuple ps i path x)
    Marked-Compiled n stack _ _ l (below_union ss path u h) =
        union_plan-some (class_plans classes)
          (compile_members classes (class_plan classes n stack) ss) path
          (compile_members-untagged classes (class_plan classes n stack) ss u)
          (Marked-SecretMember n stack ss path l h)

    Marked-SecretPart :
        (n : ℕ) (stack : List String) (ss : Schemas) (i : ℕ) (path : List Place)
        → fresh stack classes < n
        → MarkedPart classes ss i path
        → SecretPart
            (class_plans classes)
            (compile_parts classes (class_plan classes n stack) ss)
            i
            path
    Marked-SecretPart n stack _ _ _ l (this_item s ss path h) =
        let (p, e, x) = Marked-Compiled n stack s path l h in
        rw e (this_part p (compile_parts classes (class_plan classes n stack) ss) path x)
    Marked-SecretPart n stack _ _ _ l (later_item s ss i path h) =
        past_this (class_plans classes) (compile_with classes (class_plan classes n stack) s)
          (compile_parts classes (class_plan classes n stack) ss) i path
          (Marked-SecretPart n stack ss i path l h)

    Marked-SecretMember :
        (n : ℕ) (stack : List String) (ss : Schemas) (path : List Place)
        → fresh stack classes < n
        → MarkedMember classes ss path
        → SecretMember
            (class_plans classes)
            (compile_members classes (class_plan classes n stack) ss).1
            path
    Marked-SecretMember n stack _ _ l (this_type s ss path h) =
        let (p, e, x) = Marked-Compiled n stack s path l h in
        rw e (
          add_member-this (class_plans classes) (tag_of classes s) p
            (compile_members classes (class_plan classes n stack) ss) path x)
    Marked-SecretMember n stack _ _ l (later_type s ss path h) =
        add_member-later (class_plans classes) (tag_of classes s)
          (compile_with classes (class_plan classes n stack) s)
          (compile_members classes (class_plan classes n stack) ss) path
          (Marked-SecretMember n stack ss path l h)

    Marked-SecretField :
        (n : ℕ) (stack : List String) (fs : SchemaFields) (k : String) (path : List Place)
        (acc : Subplans)
        → fresh stack classes < n
        → MarkedField classes fs k path
        → SecretField
            (class_plans classes)
            (compile_fields classes (class_plan classes n stack) fs acc)
            k
            path
    Marked-SecretField n stack _ _ _ acc l (this_name k s fs path m h) =
        let (p, e, x) = Marked-Compiled n stack s path l h in
        compile_fields-keeps (class_plans classes) classes (class_plan classes n stack) fs
          (add_subplan k (compile_with classes (class_plan classes n stack) s) acc) k path m
          (rw e (set_subplan-this (class_plans classes) k p acc path x))
    Marked-SecretField n stack _ _ _ acc l (later_name j s fs k path h) =
        Marked-SecretField n stack fs k path
          (add_subplan j (compile_with classes (class_plan classes n stack) s) acc) l h

  -- What a Struct class declares secret is hidden in the redacted value: at every place that the
  -- outermost secret annotations of the class mark, through recursive classes, there is nothing, None
  -- or the replacement text. Of fields with one name the last counts; it is so where no class on the
  -- way to the place is `array_like` and no union on the way has a tagged Struct as a member.
  pub compile_plan-hides :
      (c : String) (path : List Place) (v : Value)
      → Marked classes (struct_type c) path
      → IsSafe path (redact (class_plans classes) (compile_plan classes c) v)
  compile_plan-hides c path v h =
      let (p, e, x) =
        Marked-Compiled (suc (length classes)) [] (struct_type c) path
          (omega (arith, fresh-nil classes)) h in
      let e' : compile_plan classes c ≡ some p = unfold compile_with compile_plan in e in
      rw e' (redact-hides (class_plans classes) p path v x)
