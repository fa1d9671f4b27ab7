-- ===== src/Server/Tasks.antt =====
-- truenas_pyjsonrpc_server/connection.py: what a connection's own tasks leave as it is.
use truenas_jsonrpc.Base.{
  ℕ, String, ◌≡◌, refl, Bool, Option, none, some, List, [], ◌∷◌, if_both, arith,
}
use truenas_jsonrpc.Value.{Value}
use truenas_jsonrpc.Protocol.{Decoded}
use truenas_jsonrpc.Server.{enqueue_outbound, Connection}
use truenas_jsonrpc.Protocol.Transfers.{Transfer, Reply, silent, respond, transfer, raises}
use truenas_jsonrpc.Server.Outbound.{is_idle, take_next, take_outbound, write_now, write_held}
use truenas_jsonrpc.Server.Takeover.{
  hand_over, start_transfer, next_task, after_go, break_transfer, resume_rpc,
}
use truenas_jsonrpc.Server.Events.{on_dispatch_done}

-- A step that leaves the session of a connection, and its stage, as they are.
abbrev pub IsSame : Connection → Connection → Type 0
IsSame c d = (d.binding ≡ c.binding) × (d.stage ≡ c.stage)

-- What is left to each connection's own task keeps its session and its stage.
module _ (c : Connection) where
  pub take_outbound-IsSame : IsSame c (take_outbound c)
  unfolding take_outbound
  take_outbound-IsSame = if_both (IsSame c) (is_idle c) _ _ (by_next c.outbound) (refl, refl)
    where
      by_next : (vs : List (Option Value)) → IsSame c (take_next vs c)
      by_next [] = unfold take_next in (refl, refl)
      by_next (none ∷ vs) = unfold take_next in (refl, refl)
      by_next (some v ∷ vs) = unfold take_next in (refl, refl)

  pub write_held-IsSame : IsSame c (write_held c)
  unfolding write_held
  write_held-IsSame = if_both (IsSame c) c.gate _ _ (by_held c.held) (refl, refl)
    where
      by_held : (o : Option Value) → IsSame c (write_now o c)
      by_held none = unfold write_now in (refl, refl)
      by_held (some v) = unfold write_now in (refl, refl)

  pub on_dispatch_done-IsSame : (f : ℕ) (r : Reply) → IsSame c (on_dispatch_done f r c)
  unfolding on_dispatch_done
  on_dispatch_done-IsSame f silent = ground arith
  on_dispatch_done-IsSame f (respond r) = ground arith
  on_dispatch_done-IsSame f (transfer x) = ground arith
  on_dispatch_done-IsSame f raises = ground arith

  pub start_transfer-IsSame :
      (target : Bool) (t : ℕ) (x : Transfer) → IsSame c (start_transfer target t x c)
  unfolding start_transfer hand_over
  start_transfer-IsSame target t x = ground arith

  pub after_go-IsSame :
      (decode : String → Decoded) (o : Option String) → IsSame c (after_go decode o c)
  unfolding after_go break_transfer resume_rpc
  after_go-IsSame decode o = ground arith

  pub enqueue_outbound-IsSame : (v : Value) → IsSame c (enqueue_outbound v c)
  unfolding enqueue_outbound
  enqueue_outbound-IsSame v = ground arith

pub next_task-IsSame :
    (target : Bool) (t : ℕ) (xs : List Transfer) (c : Connection)
    → IsSame c (next_task target t xs c)
unfolding next_task
next_task-IsSame target t [] c = (refl, refl)
next_task-IsSame target t (x ∷ xs) c = start_transfer-IsSame (record c { tasks = xs }) target t x
