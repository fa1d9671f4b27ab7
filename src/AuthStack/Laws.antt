-- ===== src/AuthStack/Laws.antt =====
-- truenas_pyjsonrpc/mixins/auth/stack.py: nobody is let in without a verifier's verdict.
use truenas_jsonrpc.Base.{
  String, ◌≡◌, refl, Bool, true, false, Option, none, some, Bool-cases, inl, inr,
}
use mathlib.Core.Bool.{false≢true}
use truenas_jsonrpc.Types.{Attempt, returned, raised, raised_rpc, is_established, fresh, init}
use truenas_jsonrpc.Session.{Internal, scram_pending}
use truenas_jsonrpc.AuthStack.{
  Engine, Authenticated, Verdict, authenticated, needs_otp, reject, Refusal, auth_err, expired,
  denied, LoginMech, client_certificate, scram, gssapi, ContinueMech, otp_token, scram_next,
  gssapi_next, ScramType, client_first, client_final, ScramChallenge, challenge, no_challenge,
  ScramFinish, finish, finish_otp, no_finish, GssapiStep, another_round, complete, no_step, Answer,
  answer, and_then, establish, apply_verdict, scram_setup, scram_final, gssapi_apply, run_mechanism,
  log_in, on_setup, apply_otp, on_continue, is_unix, all_within, channel_capabilities,
}

-- The handler has returned ESTABLISHED.
abbrev pub lets_in : Attempt Answer → Bool
lets_in (returned a) = is_established a.lifecycle
lets_in (raised_rpc c m d t) = false
lets_in (raised t) = false

-- What a login mechanism's verifier must have said.
pub data IsProved (e : Engine) (peer : Internal) : LoginMech → Type 0 where
  by_certificate :
      (out : Authenticated)
      → e.client_certificate peer ≡ returned (authenticated out)
      → IsProved e peer client_certificate
  by_gssapi :
      (token final : String) (out : Authenticated)
      → e.gssapi_step none token peer ≡ returned (complete final out)
      → IsProved e peer (gssapi token)

-- Why a `$/sessionSetup` may let the client in: its peer credentials, or a mechanism on a channel
-- that has what the mechanism requires.
pub data IsVerified (e : Engine) (peer : Internal) (mech : Option LoginMech) : Type 0 where
  by_peer :
      (out : Authenticated)
      → is_unix peer ≡ true
      → e.peercred peer ≡ returned (some out)
      → IsVerified e peer mech
  by_mechanism :
      (m : LoginMech)
      → mech ≡ some m
      → all_within (e.requirements m) (channel_capabilities e peer) ≡ true
      → IsProved e peer m
      → IsVerified e peer mech

module _ (e : Engine) (options : Bool) where
  run_mechanism-IsProved :
      (m : LoginMech) (peer : Internal)
      → lets_in (run_mechanism e m options peer) ≡ true
      → IsProved e peer m
  unfolding run_mechanism
  run_mechanism-IsProved client_certificate peer t = go (e.client_certificate peer) refl t
    where
      go :
          (a : Attempt Verdict)
          → e.client_certificate peer ≡ a
          → lets_in (and_then a (λ v. apply_verdict e v options peer)) ≡ true
          → IsProved e peer client_certificate
      go (returned (authenticated out)) h t = by_certificate out h
      go (returned (needs_otp p u)) h t = absurd (false≢true t)
      go (returned (reject r)) h t = absurd (false≢true t)
      go (raised_rpc c m d x) h t = absurd (false≢true t)
      go (raised x) h t = absurd (false≢true t)
  run_mechanism-IsProved (scram client_final rfc) peer t = absurd (false≢true t)
  run_mechanism-IsProved (scram client_first rfc) peer t = absurd (go (e.scram_begin rfc peer) t)
    where
      go :
          (a : Attempt ScramChallenge)
          → lets_in (
              and_then a (λ o. elim o [
                | no_challenge r ↦ answer peer fresh (truenas_jsonrpc.AuthStack.refused r)
                | challenge first pending ↦
                    answer
                      (scram_pending peer pending)
                      init
                      (truenas_jsonrpc.AuthStack.server_first first)
              ]))
            ≡ true
          → ⊥
      go (returned (challenge f p)) t = false≢true t
      go (returned (no_challenge r)) t = false≢true t
      go (raised_rpc c m d x) t = false≢true t
      go (raised x) t = false≢true t
  run_mechanism-IsProved (gssapi token) peer t = go (e.gssapi_step none token peer) refl t
    where
      go :
          (a : Attempt GssapiStep)
          → e.gssapi_step none token peer ≡ a
          → lets_in (and_then a (λ o. gssapi_apply e o peer peer options)) ≡ true
          → IsProved e peer (gssapi token)
      go (returned (complete final out)) h t = by_gssapi token final out h
      go (returned (another_round x p)) h t = absurd (false≢true t)
      go (returned (no_step r)) h t = absurd (false≢true t)
      go (raised_rpc c m d x) h t = absurd (false≢true t)
      go (raised x) h t = absurd (false≢true t)

  log_in-IsVerified :
      (mech : Option LoginMech) (peer : Internal)
      → lets_in (log_in e mech options peer) ≡ true
      → IsVerified e peer mech
  unfolding log_in
  log_in-IsVerified none peer t = absurd (false≢true t)
  log_in-IsVerified (some m) peer t =
      elim (Bool-cases (all_within (e.requirements m) (channel_capabilities e peer))) [
        | inl w ↦ by_mechanism m refl w (run_mechanism-IsProved m peer (rw w at t))
        | inr w ↦ absurd (false≢true (rw w at t))
      ]

  -- `$/sessionSetup` lets a client in only where `peercred` trusts its AF_UNIX peer, or where the
  -- channel has every capability that the mechanism requires and the mechanism's verifier has
  -- authenticated it; SCRAM never does so in one step.
  pub on_setup-IsVerified :
      (mech : Option LoginMech) (peer : Internal)
      → lets_in (on_setup e mech options peer) ≡ true
      → IsVerified e peer mech
  unfolding on_setup
  on_setup-IsVerified mech peer t = elim (Bool-cases (is_unix peer)) [
    | inl u ↦ go u (e.peercred peer) refl (rw u at t)
    | inr u ↦ log_in-IsVerified mech peer (rw u at t)
  ]
    where
      go :
          is_unix peer ≡ true
          → (a : Attempt (Option Authenticated)) → e.peercred peer ≡ a
          → lets_in (
              and_then a (λ o. elim o [
                | some out ↦ establish e out options peer
                | none ↦ log_in e mech options peer
              ]))
            ≡ true
          → IsVerified e peer mech
      go u (returned (some out)) h t = by_peer out u h
      go u (returned none) h t = log_in-IsVerified mech peer t
      go u (raised_rpc c m d x) h t = absurd (false≢true t)
      go u (raised x) h t = absurd (false≢true t)
