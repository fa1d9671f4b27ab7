-- ===== src/AuthStack.antt =====
-- truenas_pyjsonrpc/mixins/auth/stack.py, with the messages of mixins/auth/messages.py: the handlers of
-- `$/sessionSetup` and `$/sessionSetupContinue`. A handler is given `server_state_internal` and
-- answers with what it leaves there, the lifecycle and the reply; one that raises leaves it as it is.
-- The verifiers that a subclass overrides, and the SCRAM and GSSAPI engines, are an Engine.
pub mod Laws
pub mod Continue
use truenas_jsonrpc.Base.{
  String, Bool, true, false, Option, none, some, List, [], ◌∷◌, ◌++◌, ◌==◌, ◌&&◌, ◌||◌, is_some,
  if◌then◌else◌,
}
use truenas_jsonrpc.Value.{Value, Fields, null, str, obj, end, pair, truthy}
use truenas_jsonrpc.Types.{
  Attempt, returned, raised, raised_rpc, SessionLifecycle, fresh, init, established,
}
use truenas_jsonrpc.Redaction.{field_value}
use truenas_jsonrpc.Session.{
  Transport, unix, tcp, Peer, Internal, nothing, seeded, otp_pending, scram_pending, gssapi_pending,
  identity,
}

-- `Capability`
pub data Capability : Type 0 where
  local encrypted client_cert peercred_known : Capability

-- `Reject.response`, and the outcome of a verifier.
pub data Refusal : Type 0 where
  auth_err expired denied : Refusal

pub record Authenticated : Type 0 where
  pub identity : Value
  pub user_info : Option Value

pub data Verdict : Type 0 where
  authenticated : Authenticated → Verdict
  needs_otp : (pending : Value) (username : String) → Verdict
  reject : Refusal → Verdict

-- `scram_type` of a client message.
pub data ScramType : Type 0 where
  client_first client_final : ScramType

-- `LoginMech` and `ContinueMech`
pub data LoginMech : Type 0 where
  client_certificate : LoginMech
  scram : ScramType → String → LoginMech
  gssapi : String → LoginMech

pub data ContinueMech : Type 0 where
  otp_token : String → ContinueMech
  scram_next : ScramType → String → ContinueMech
  gssapi_next : String → ContinueMech

-- `AuthResponse`
pub data AuthResponse : Type 0 where
  success : Option Value → AuthResponse
  otp_required : String → AuthResponse
  server_first : String → AuthResponse
  server_final : String → Option Value → Bool → AuthResponse
  gssapi_response : String → Bool → Option Value → AuthResponse
  refused : Refusal → AuthResponse

-- What `scram_begin`, `scram_finish` and `gssapi_step` return.
pub data ScramChallenge : Type 0 where
  challenge : String → Value → ScramChallenge
  no_challenge : Refusal → ScramChallenge

pub data ScramFinish : Type 0 where
  finish : String → Authenticated → ScramFinish
  finish_otp : String → Value → String → ScramFinish
  no_finish : Refusal → ScramFinish

pub data GssapiStep : Type 0 where
  another_round : String → Value → GssapiStep
  complete : String → Authenticated → GssapiStep
  no_step : Refusal → GssapiStep

-- What a subclass of AuthStack overrides, and the texts and tests of Python's socket addresses.
pub record Engine : Type 0 where
  pub peercred : Internal → Attempt (Option Authenticated)
  pub client_certificate : Internal → Attempt Verdict
  pub otp : Value → String → Internal → Attempt Verdict
  pub scram_begin : String → Internal → Attempt ScramChallenge
  pub scram_finish : Value → String → Internal → Attempt ScramFinish
  pub gssapi_step : Option Value → String → Internal → Attempt GssapiStep
  pub requirements : LoginMech → List Capability
  pub is_loopback : Value → Bool
  pub peer_origin : Internal → Option String

-- The class's own `requirements`.
unfoldable pub default_requirements : LoginMech → List Capability
default_requirements client_certificate = client_cert ∷ []
default_requirements _ = []

unfoldable pub peer_capabilities : (Value → Bool) → Peer → List Capability
peer_capabilities loopback p =
    let by_transport : List Capability = elim p.transport [
      | unix ↦ local ∷ encrypted ∷ (if is_some p.uid then peercred_known ∷ [] else [])
      | tcp ↦ []
    ] in
    let by_tls : List Capability = if p.tls then encrypted ∷ [] else elim p.transport [
      | unix ↦ []
      | tcp ↦ if loopback p.address then encrypted ∷ [] else []
    ] in
    by_transport ++ by_tls ++ (if truthy p.peercert then client_cert ∷ [] else [])

-- `channel_capabilities`; what is no Peer has none of the attributes that it looks for.
unfoldable pub channel_capabilities : Engine → Internal → List Capability
unfolding peer_capabilities
channel_capabilities e (seeded p) = peer_capabilities e.is_loopback p
channel_capabilities e _ = []

capability_eq : Capability → Capability → Bool
capability_eq local local = true
capability_eq encrypted encrypted = true
capability_eq client_cert client_cert = true
capability_eq peercred_known peercred_known = true
capability_eq _ _ = false

has_capability : Capability → List Capability → Bool
unfolding capability_eq
has_capability c [] = false
has_capability c (d ∷ ds) = capability_eq c d || has_capability c ds

-- `required <= capabilities`, of sets.
unfoldable pub all_within : List Capability → List Capability → Bool
unfolding has_capability
all_within [] ds = true
all_within (c ∷ cs) ds = has_capability c ds && all_within cs ds

with_origin : Fields → Option String → Fields
with_origin fs none = fs
with_origin end (some o) = pair "origin" (str o) end
with_origin (pair k v fs) (some o) = pair k v (with_origin fs (some o))

-- `_attach_origin`
unfoldable pub attach_origin : Engine → Value → Internal → Value
unfolding field_value with_origin
attach_origin e (obj fs) peer =
    if is_some (field_value "origin" fs) then obj fs else obj (with_origin fs (e.peer_origin peer))
attach_origin e v peer = v

pub record Answer : Type 0 where
  pub internal : Internal
  pub lifecycle : SessionLifecycle
  pub response : AuthResponse

abbrev pub and_then {ℓ κ} : {A : Type ℓ} {B : Type κ} → Attempt A → (A → Attempt B) → Attempt B
and_then (returned a) f = f a
and_then (raised_rpc c m d t) f = raised_rpc c m d t
and_then (raised t) f = raised t

abbrev pub answer : Internal → SessionLifecycle → AuthResponse → Attempt Answer
answer i l r = returned (record { internal = i; lifecycle = l; response = r })

abbrev pub info_if : Bool → Option Value → Option Value
info_if options v = if options then v else none

-- `_establish`; `options` is `login_options.user_info`.
unfoldable pub establish : Engine → Authenticated → Bool → Internal → Attempt Answer
unfolding attach_origin
establish e out options peer =
    answer (identity (attach_origin e out.identity peer)) established
      (success (info_if options out.user_info))

-- `_apply`; the session keeps `peer` unless a second factor is asked for.
unfoldable pub apply_verdict : Engine → Verdict → Bool → Internal → Attempt Answer
unfolding establish
apply_verdict e (authenticated out) options peer = establish e out options peer
apply_verdict e (needs_otp pending username) options peer =
    answer (otp_pending peer pending) init (otp_required username)
apply_verdict e (reject r) options peer = answer peer fresh (refused r)

-- `_scram_setup`
unfoldable pub scram_setup : Engine → ScramType → String → Internal → Attempt Answer
scram_setup e client_final rfc peer = answer peer fresh (refused auth_err)
scram_setup e client_first rfc peer = and_then (e.scram_begin rfc peer) (λ o. elim o [
  | no_challenge r ↦ answer peer fresh (refused r)
  | challenge first pending ↦ answer (scram_pending peer pending) init (server_first first)
])

-- `_scram_final`; `holder` is the `_ScramPending` with this peer and this state.
unfoldable pub scram_final :
    Engine → ScramType → String → Internal → Internal → Value → Bool → Attempt Answer
unfolding attach_origin
scram_final e client_first rfc holder peer pending options = answer holder fresh (refused auth_err)
scram_final e client_final rfc holder peer pending options =
    and_then (e.scram_finish pending rfc peer) (λ o. elim o [
      | no_finish r ↦ answer holder fresh (refused r)
      | finish_otp final next username ↦
          answer (otp_pending peer next) init (server_final final none true)
      | finish final out ↦
          answer (identity (attach_origin e out.identity peer)) established
            (server_final final (info_if options out.user_info) false)
    ])

-- `_gssapi_apply`; `holder` is what the session has before.
unfoldable pub gssapi_apply : Engine → GssapiStep → Internal → Internal → Bool → Attempt Answer
unfolding attach_origin
gssapi_apply e (no_step r) holder peer options = answer holder fresh (refused r)
gssapi_apply e (another_round token pending) holder peer options =
    answer (gssapi_pending peer pending) init (gssapi_response token false none)
gssapi_apply e (complete token out) holder peer options =
    answer (identity (attach_origin e out.identity peer)) established
      (gssapi_response token true (info_if options out.user_info))

-- A mechanism whose channel is accepted.
unfoldable pub run_mechanism : Engine → LoginMech → Bool → Internal → Attempt Answer
unfolding apply_verdict scram_setup gssapi_apply
run_mechanism e client_certificate options peer =
    and_then (e.client_certificate peer) (λ v. apply_verdict e v options peer)
run_mechanism e (scram t rfc) options peer = scram_setup e t rfc peer
run_mechanism e (gssapi token) options peer =
    and_then (e.gssapi_step none token peer) (λ o. gssapi_apply e o peer peer options)

-- The second step of `_on_setup`: the login mechanism, on a channel that it accepts.
unfoldable pub log_in : Engine → Option LoginMech → Bool → Internal → Attempt Answer
unfolding run_mechanism all_within channel_capabilities
log_in e none options peer = answer peer fresh (refused auth_err)
log_in e (some m) options peer =
    if all_within (e.requirements m) (channel_capabilities e peer)
    then run_mechanism e m options peer
    else answer peer fresh (refused denied)

abbrev pub is_unix : Internal → Bool
is_unix (seeded p) = elim p.transport [ unix ↦ true | tcp ↦ false ]
is_unix _ = false

-- `_on_setup`
unfoldable pub on_setup : Engine → Option LoginMech → Bool → Internal → Attempt Answer
unfolding log_in establish
on_setup e mech options peer =
    if is_unix peer
    then and_then (e.peercred peer) (λ o. elim o [
      | some out ↦ establish e out options peer
      | none ↦ log_in e mech options peer
    ])
    else log_in e mech options peer

-- The outcome of a second factor: a wrong one may be tried again, at INIT.
unfoldable pub apply_otp : Engine → Verdict → Bool → Internal → Internal → Attempt Answer
unfolding establish
apply_otp e (authenticated out) options holder peer = establish e out options peer
apply_otp e (needs_otp pending username) options holder peer =
    answer (otp_pending peer pending) init (otp_required username)
apply_otp e (reject auth_err) options holder peer = answer holder init (refused auth_err)
apply_otp e (reject r) options holder peer = answer holder fresh (refused r)

-- `_on_continue`
unfoldable pub on_continue : Engine → ContinueMech → Bool → Internal → Attempt Answer
unfolding scram_final gssapi_apply apply_otp
on_continue e (scram_next t rfc) options (scram_pending peer pending) =
    scram_final e t rfc (scram_pending peer pending) peer pending options
on_continue e (gssapi_next token) options (gssapi_pending peer pending) =
    and_then (e.gssapi_step (some pending) token peer)
      (λ o. gssapi_apply e o (gssapi_pending peer pending) peer options)
on_continue e (otp_token t) options (otp_pending peer pending) =
    and_then (e.otp pending t peer) (λ v. apply_otp e v options (otp_pending peer pending) peer)
on_continue e (otp_token t) options holder = answer holder init (refused auth_err)
on_continue e _ options holder = answer holder fresh (refused auth_err)
