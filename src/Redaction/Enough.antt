-- ===== src/Redaction/Enough.antt =====
-- truenas_pyjsonrpc/redaction.py: the bound on `("recurse", cls)` in `redact` is no bound.
use truenas_jsonrpc.Base.{
  ℕ, zero, suc, ◌≤◌, ◌<◌, ◌≡◌, refl, sym, ap, ◌∙◌, String, some, Option-cases, Bool-cases, ltb, inl,
  inr, lookup, arith,
}
use truenas_jsonrpc.Value.{Value, Fields, null, bool, num, str, arr, obj}
use truenas_jsonrpc.Redaction.{
  Plan, struct, on_fields, apply_with, nesting, ClassPlans, again, apply, redact,
}
use truenas_jsonrpc.Redaction.Fuel.{
  apply_with-nesting, apply_with-same, apply_struct-same, on_fields-same,
}

on_fields-flat : (f g : Fields → Fields) (v : Value) → nesting v ≤ 0 → on_fields f v ≡ on_fields g v
unfolding nesting
on_fields-flat f g (obj fs) l = absurd (omega (arith, l))
on_fields-flat f g null l = refl
on_fields-flat f g (bool b) l = refl
on_fields-flat f g (num k) l = refl
on_fields-flat f g (str s) l = refl
on_fields-flat f g (arr vs) l = refl

module _ (classes : ClassPlans) where
  again-nesting : (n : ℕ) (c : String) (v : Value) → nesting (again classes n c v) ≤ nesting v
  unfolding again
  again-nesting zero c v = omega arith
  again-nesting (suc n) c v = elim (Option-cases (lookup c classes)) [
    | inl e ↦ rw (again, e) (omega arith)
    | inr (ps, e) ↦
        rw (again, e) (apply_with-nesting (again classes n) (again-nesting n) (struct ps) v)
  ]

  -- One unfolding more than the value is deep makes no difference.
  again-same :
      (n : ℕ) (c : String) (v : Value)
      → nesting v ≤ n
      → again classes (suc n) c v ≡ again classes (suc (suc n)) c v
  unfolding again apply_with
  again-same zero c v l = elim (Option-cases (lookup c classes)) [
    | inl e ↦ rw (again, e)
    | inr (ps, e) ↦ rw (again, e) (on_fields-flat _ _ v l)
  ]
  again-same (suc n) c v l = elim (Option-cases (lookup c classes)) [
    | inl e ↦ rw (again, e)
    | inr (ps, e) ↦
        rw (again, e)
          (on_fields-same _ _ n
            (apply_struct-same (again classes (suc n)) (again classes (suc (suc n)))
              (again-nesting (suc n)) n (again-same n) ps)
            v l)
  ]

  apply-suc :
      (n : ℕ) (p : Plan) (v : Value)
      → nesting v ≤ n
      → apply classes (suc n) p v ≡ apply classes (suc (suc n)) p v
  unfolding apply
  apply-suc n p v l =
      apply_with-same (again classes (suc n)) (again classes (suc (suc n))) (again-nesting (suc n))
        n (again-same n) p v l

  exactly :
      (n : ℕ) (p : Plan) (v : Value)
      → n ≡ nesting v
      → apply classes (suc n) p v ≡ redact classes (some p) v
  unfolding redact
  exactly n p v e = ap (λ k. apply classes (suc k) p v) e

  -- `redact` is what any larger number of unfoldings gives: its bound, one more than the value is
  -- deep, cuts nothing off.
  pub apply-redact :
      (n : ℕ) (p : Plan) (v : Value)
      → nesting v < n
      → apply classes n p v ≡ redact classes (some p) v
  unfolding redact
  apply-redact zero p v l = absurd (omega (arith, l))
  apply-redact (suc zero) p v l = exactly 0 p v (omega (arith, l))
  apply-redact (suc (suc n)) p v l = elim (Bool-cases (ltb (nesting v) (suc n))) [
    | inl less ↦
        sym (apply-suc n p v (ground (arith, less)))
        ∙ apply-redact (suc n) p v (ground (arith, less))
    | inr last ↦ exactly (suc n) p v (ground (arith, last, l))
  ]
