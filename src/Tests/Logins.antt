-- ===== src/Tests/Logins.antt =====
-- The theorems on the auth stack, each at a concrete engine: one proof is good, everything else is not.
use truenas_jsonrpc.Base.{refl, true, false, none, some, ◌==◌, if◌then◌else◌}
use truenas_jsonrpc.Value.{Value, null, str}
use truenas_jsonrpc.Types.{returned}
use truenas_jsonrpc.Session.{tcp, Internal, seeded, scram_pending}
use truenas_jsonrpc.AuthStack.{
  Engine, Authenticated, authenticated, reject, auth_err, client_certificate, scram_next,
  client_final, challenge, finish, no_finish, no_step, default_requirements, on_setup, on_continue,
}
use truenas_jsonrpc.AuthStack.Laws.{IsVerified, on_setup-IsVerified}
use truenas_jsonrpc.AuthStack.Continue.{IsConfirmed, on_continue-IsConfirmed}

abbrev user : Authenticated
user = record { identity = str "user"; user_info = none }

abbrev engine : Engine
engine = record {
  peercred = λ i. returned none;
  client_certificate = λ i. returned (authenticated user);
  otp = λ v t i. returned (reject auth_err);
  scram_begin = λ rfc i. returned (challenge "r=1" (str rfc));
  scram_finish = λ v rfc i.
      if rfc == "p=1" then returned (finish "v=1" user) else returned (no_finish auth_err);
  gssapi_step = λ v t i. returned (no_step auth_err);
  requirements = default_requirements;
  is_loopback = λ v. false;
  peer_origin = λ i. none;
}

abbrev remote : Internal
remote = seeded (record {
  transport = tcp;
  uid = none;
  gid = none;
  pid = none;
  address = null;
  tls = true;
  peercert = str "cert";
  cipher = null;
})

on_setup-IsVerified_example : IsVerified engine remote (some client_certificate)
unfolding on_setup default_requirements truenas_jsonrpc.Value.truthy
on_setup-IsVerified_example = on_setup-IsVerified engine true (some client_certificate) remote refl

on_continue-IsConfirmed_example :
    IsConfirmed engine (scram_next client_final "p=1") (scram_pending remote null)
unfolding on_continue
on_continue-IsConfirmed_example =
    on_continue-IsConfirmed engine true (scram_next client_final "p=1") (scram_pending remote null)
      refl
