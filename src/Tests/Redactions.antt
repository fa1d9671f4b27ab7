-- ===== src/Tests/Redactions.antt =====
-- The theorems on redaction, each at a concrete input: a user with a password and a friend.
use truenas_jsonrpc.Base.{
  ℕ, suc, ◌<◌, ◌≡◌, refl, String, lookup, Option, some, none, List, [], ◌∷◌, arith,
}
use truenas_jsonrpc.Value.{Value, null, str, obj, pair, end}
use truenas_jsonrpc.Redaction.{
  Plan, mask, struct, recurse, subplan, end_subplans, ClassPlans, apply, redact, nesting,
}
use truenas_jsonrpc.Redaction.Enough.{apply-redact}
use truenas_jsonrpc.Redaction.Places.{key, IsSafe}
use truenas_jsonrpc.Redaction.Secrets.{
  Secret, masked, in_struct, in_class, this_field, later_field, redact-hides,
}

abbrev user_plan : Plan
user_plan = struct (subplan "password" mask (subplan "friend" (recurse "User") end_subplans))

abbrev classes : ClassPlans
classes = ("User", subplan "password" mask (subplan "friend" (recurse "User") end_subplans)) ∷ []

abbrev user : String → Value → Value
user secret friend =
    obj (pair "name" (str "n") (pair "password" (str secret) (pair "friend" friend end)))

friend_redacted :
    redact classes (some user_plan) (user "a" (user "b" null))
    ≡ user "********" (user "********" null)
unfolding redact truenas_jsonrpc.Redaction.update_field truenas_jsonrpc.Base.lookup
friend_redacted = refl

nesting-user : nesting (user "a" (user "b" null)) < 7
unfolding nesting
nesting-user = omega arith

apply-redact_example :
    apply classes 7 user_plan (user "a" (user "b" null))
    ≡ redact classes (some user_plan) (user "a" (user "b" null))
apply-redact_example = apply-redact classes 7 user_plan (user "a" (user "b" null)) nesting-user

friend_password : Secret classes user_plan (key "friend" ∷ key "password" ∷ [])
unfolding lookup
friend_password = in_struct _ _ _ (
    later_field _ _ _ _ _
      (this_field _ _ _ _ (in_class "User" _ _ _ refl (this_field _ _ _ _ masked))))

redact-hides_example :
    IsSafe
      (key "friend" ∷ key "password" ∷ [])
      (redact classes (some user_plan) (user "a" (user "b" null)))
redact-hides_example =
    redact-hides classes user_plan (key "friend" ∷ key "password" ∷ []) (user "a" (user "b" null))
      friend_password
