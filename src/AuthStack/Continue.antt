-- ===== src/AuthStack/Continue.antt =====
-- truenas_pyjsonrpc/mixins/auth/stack.py: `$/sessionSetupContinue`.
use truenas_jsonrpc.Base.{String, ◌≡◌, refl, Bool, true, false, none, some}
use mathlib.Core.Bool.{false≢true}
use truenas_jsonrpc.Value.{Value}
use truenas_jsonrpc.Types.{Attempt, returned, raised, raised_rpc, fresh, init, established}
use truenas_jsonrpc.Session.{
  Internal, nothing, seeded, otp_pending, scram_pending, gssapi_pending, identity,
}
use truenas_jsonrpc.AuthStack.{
  Engine, Authenticated, Verdict, authenticated, needs_otp, reject, Refusal, auth_err, expired,
  denied, refused, client_cert, LoginMech, client_certificate, ContinueMech, otp_token, scram_next,
  gssapi_next, ScramType, client_first, client_final, ScramFinish, finish, finish_otp, no_finish,
  GssapiStep, another_round, complete, no_step, Answer, answer, and_then, scram_final, gssapi_apply,
  log_in, on_setup, apply_otp, on_continue, all_within, channel_capabilities,
}
use truenas_jsonrpc.AuthStack.Laws.{lets_in}

-- Why a `$/sessionSetupContinue` may let the client in: the exchange that is under way is of the
-- message's kind, and its verifier accepted the message for that exchange's own state and peer.
pub data IsConfirmed (e : Engine) : ContinueMech → Internal → Type 0 where
  by_scram :
      (rfc final : String) (peer : Internal) (pending : Value) (out : Authenticated)
      → e.scram_finish pending rfc peer ≡ returned (finish final out)
      → IsConfirmed e (scram_next client_final rfc) (scram_pending peer pending)
  by_gssapi :
      (token final : String) (peer : Internal) (pending : Value) (out : Authenticated)
      → e.gssapi_step (some pending) token peer ≡ returned (complete final out)
      → IsConfirmed e (gssapi_next token) (gssapi_pending peer pending)
  by_otp :
      (t : String) (peer : Internal) (pending : Value) (out : Authenticated)
      → e.otp pending t peer ≡ returned (authenticated out)
      → IsConfirmed e (otp_token t) (otp_pending peer pending)

module _ (e : Engine) (options : Bool) where
  scram_final-IsConfirmed :
      (t : ScramType) (rfc : String) (peer : Internal) (pending : Value)
      → lets_in (scram_final e t rfc (scram_pending peer pending) peer pending options) ≡ true
      → IsConfirmed e (scram_next t rfc) (scram_pending peer pending)
  unfolding scram_final
  scram_final-IsConfirmed client_first rfc peer pending t = absurd (false≢true t)
  scram_final-IsConfirmed client_final rfc peer pending t =
      go (e.scram_finish pending rfc peer) refl t
    where
      go :
          (a : Attempt ScramFinish)
          → e.scram_finish pending rfc peer ≡ a
          → lets_in (
              and_then a (λ o. elim o [
                | no_finish r ↦ answer (scram_pending peer pending) fresh (refused r)
                | finish_otp final next username ↦
                    answer
                      (otp_pending peer next)
                      init
                      (truenas_jsonrpc.AuthStack.server_final final none true)
                | finish final out ↦
                    answer
                      (identity (truenas_jsonrpc.AuthStack.attach_origin e out.identity peer))
                      established
                      (truenas_jsonrpc.AuthStack.server_final final
                        (truenas_jsonrpc.AuthStack.info_if options out.user_info)
                        false)
              ]))
            ≡ true
          → IsConfirmed e (scram_next client_final rfc) (scram_pending peer pending)
      go (returned (finish final out)) h t = by_scram rfc final peer pending out h
      go (returned (finish_otp f n u)) h t = absurd (false≢true t)
      go (returned (no_finish r)) h t = absurd (false≢true t)
      go (raised_rpc c m d x) h t = absurd (false≢true t)
      go (raised x) h t = absurd (false≢true t)

  gssapi-IsConfirmed :
      (token : String) (peer : Internal) (pending : Value) (a : Attempt GssapiStep)
      → e.gssapi_step (some pending) token peer ≡ a
      → lets_in (and_then a (λ o. gssapi_apply e o (gssapi_pending peer pending) peer options))
        ≡ true
      → IsConfirmed e (gssapi_next token) (gssapi_pending peer pending)
  unfolding gssapi_apply
  gssapi-IsConfirmed token peer pending (returned (complete f out)) h t =
      by_gssapi token f peer pending out h
  gssapi-IsConfirmed token peer pending (returned (another_round x p)) h t = absurd (false≢true t)
  gssapi-IsConfirmed token peer pending (returned (no_step r)) h t = absurd (false≢true t)
  gssapi-IsConfirmed token peer pending (raised_rpc c m d x) h t = absurd (false≢true t)
  gssapi-IsConfirmed token peer pending (raised x) h t = absurd (false≢true t)

  otp-IsConfirmed :
      (token : String) (peer : Internal) (pending : Value) (a : Attempt Verdict)
      → e.otp pending token peer ≡ a
      → lets_in (and_then a (λ v. apply_otp e v options (otp_pending peer pending) peer)) ≡ true
      → IsConfirmed e (otp_token token) (otp_pending peer pending)
  unfolding apply_otp
  otp-IsConfirmed token peer pending (returned (authenticated out)) h t =
      by_otp token peer pending out h
  otp-IsConfirmed token peer pending (returned (needs_otp p u)) h t = absurd (false≢true t)
  otp-IsConfirmed token peer pending (returned (reject auth_err)) h t = absurd (false≢true t)
  otp-IsConfirmed token peer pending (returned (reject expired)) h t = absurd (false≢true t)
  otp-IsConfirmed token peer pending (returned (reject denied)) h t = absurd (false≢true t)
  otp-IsConfirmed token peer pending (raised_rpc c m d x) h t = absurd (false≢true t)
  otp-IsConfirmed token peer pending (raised x) h t = absurd (false≢true t)

  -- `$/sessionSetupContinue` lets a client in only where the exchange under way is of the message's
  -- kind and its verifier accepted the message, for the state and the peer that the exchange kept.
  pub on_continue-IsConfirmed :
      (mech : ContinueMech) (holder : Internal)
      → lets_in (on_continue e mech options holder) ≡ true
      → IsConfirmed e mech holder
  unfolding on_continue
  on_continue-IsConfirmed (scram_next c rfc) (scram_pending peer pending) t =
      scram_final-IsConfirmed c rfc peer pending t
  on_continue-IsConfirmed (gssapi_next token) (gssapi_pending peer pending) t =
      gssapi-IsConfirmed token peer pending _ refl t
  on_continue-IsConfirmed (otp_token token) (otp_pending peer pending) t =
      otp-IsConfirmed token peer pending _ refl t
  on_continue-IsConfirmed (scram_next c rfc) nothing t = absurd (false≢true t)
  on_continue-IsConfirmed (scram_next c rfc) (seeded p) t = absurd (false≢true t)
  on_continue-IsConfirmed (scram_next c rfc) (otp_pending p v) t = absurd (false≢true t)
  on_continue-IsConfirmed (scram_next c rfc) (gssapi_pending p v) t = absurd (false≢true t)
  on_continue-IsConfirmed (scram_next c rfc) (identity v) t = absurd (false≢true t)
  on_continue-IsConfirmed (gssapi_next token) nothing t = absurd (false≢true t)
  on_continue-IsConfirmed (gssapi_next token) (seeded p) t = absurd (false≢true t)
  on_continue-IsConfirmed (gssapi_next token) (otp_pending p v) t = absurd (false≢true t)
  on_continue-IsConfirmed (gssapi_next token) (scram_pending p v) t = absurd (false≢true t)
  on_continue-IsConfirmed (gssapi_next token) (identity v) t = absurd (false≢true t)
  on_continue-IsConfirmed (otp_token token) nothing t = absurd (false≢true t)
  on_continue-IsConfirmed (otp_token token) (seeded p) t = absurd (false≢true t)
  on_continue-IsConfirmed (otp_token token) (scram_pending p v) t = absurd (false≢true t)
  on_continue-IsConfirmed (otp_token token) (gssapi_pending p v) t = absurd (false≢true t)
  on_continue-IsConfirmed (otp_token token) (identity v) t = absurd (false≢true t)
