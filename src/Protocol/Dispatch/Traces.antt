-- ===== src/Protocol/Dispatch/Traces.antt =====
-- truenas_pyjsonrpc/protocol.py: a connection's messages one after another.
use truenas_jsonrpc.Base.{
  ℕ, String, ◌≡◌, refl, sym, ◌∙◌, ◌⊎◌, inl, inr, true, false, some, List, [], ◌∷◌, ◌++◌, Bool-cases,
  arith, ap, subst,
}
use mathlib.Core.Bool.{false≢true}
use truenas_jsonrpc.Value.{Value}
use truenas_jsonrpc.Types.{returned, SessionLifecycle, established, is_established}
use truenas_jsonrpc.Protocol.{World, Protocol, Codec, SetupMethod, outcome}
use truenas_jsonrpc.Protocol.Steps.{run_callback}
use truenas_jsonrpc.Protocol.Steps.Lifecycle.{lifecycle_of}
use truenas_jsonrpc.Protocol.Control.Lifecycle.{
  IsSequential, Change, stays, closes, sets_up, continues,
}
use truenas_jsonrpc.Protocol.Dispatch.{dispatch_one}
use truenas_jsonrpc.Protocol.Dispatch.Lifecycle.{dispatch_one-Change}

is_established-eq : (l : SessionLifecycle) → is_established l ≡ true → l ≡ established
is_established-eq l e = ground arith

module _ (p : Protocol) (codec : Codec) (s : ℕ) where
  -- The messages of one connection, each with the uuid that its dispatch would draw.
  unfoldable pub dispatch_all : List (String × String) → World → World
  unfolding dispatch_one
  dispatch_all [] w = w
  dispatch_all ((uuid, msg) ∷ rest) w = dispatch_all rest (dispatch_one p codec uuid msg s w).0

  -- A setup handler of the protocol has returned ESTABLISHED for the session, in this state.
  pub record IsGranted (w : World) : Type 0 where
    pub method : SetupMethod
    pub configured : (p.session_setup ≡ some method) ⊎ (p.session_setup_continue ≡ some method)
    pub params : Value
    pub result : Value
    pub verdict :
        (run_callback (method.handler params s) w).1 ≡ returned (outcome established result)

  Change-IsGranted :
      (w : World) (l : SessionLifecycle)
      → Change p s w l
      → is_established (lifecycle_of s w) ≡ false
      → is_established l ≡ true
      → IsGranted w
  Change-IsGranted w l (stays e) f t = absurd (false≢true (sym f ∙ ap is_established (sym e) ∙ t))
  Change-IsGranted w l (closes b e) f t = absurd (false≢true (ap is_established (sym e) ∙ t))
  Change-IsGranted w l (sets_up m v u c b h) f t = record {
    method = m;
    configured = inl c;
    params = v;
    result = u;
    verdict =
        subst (λ k. (run_callback (m.handler v s) w).1 ≡ returned (outcome k u))
          (is_established-eq l t) h;
  }
  Change-IsGranted w l (continues m v u c b h) f t = record {
    method = m;
    configured = inr c;
    params = v;
    result = u;
    verdict =
        subst (λ k. (run_callback (m.handler v s) w).1 ≡ returned (outcome k u))
          (is_established-eq l t) h;
  }

  -- On a connection that is driven sequentially, a session that is not ESTABLISHED becomes so only
  -- by a setup handler that returned ESTABLISHED, after some prefix of the messages.
  pub established-IsGranted :
      IsSequential p s
      → (msgs : List (String × String)) (w : World) → is_established (lifecycle_of s w) ≡ false
      → is_established (lifecycle_of s (dispatch_all msgs w)) ≡ true
      → (before after : List (String × String)) × (before ++ after ≡ msgs)
        × IsGranted (dispatch_all before w)
  unfolding dispatch_all
  established-IsGranted calm [] w f t = absurd (false≢true (sym f ∙ t))
  established-IsGranted calm ((uuid, msg) ∷ rest) w f t =
      let w' = (dispatch_one p codec uuid msg s w).0 in
      elim (Bool-cases (is_established (lifecycle_of s w'))) [
        | inl now ↦ (
          [],
          (uuid, msg) ∷ rest,
          refl,
          Change-IsGranted w _ (dispatch_one-Change p s codec uuid msg w calm) f now,
        )
        | inr later ↦
            let (before, after, e, g) = established-IsGranted calm rest w' later t in
            ((uuid, msg) ∷ before, after, ap (◌∷◌ (uuid, msg)) e, g)
      ]
