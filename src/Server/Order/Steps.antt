-- ===== src/Server/Order/Steps.antt =====
-- truenas_pyjsonrpc_server/connection.py: what the steps of one connection's own tasks do to what it has
-- written and is to write.
use truenas_jsonrpc.Base.{
  ℕ, ◌≡◌, refl, sym, ap, ◌∙◌, true, Option, none, some, List, [], ◌∷◌, ◌++◌, arith, String, if_both,
  Bool-cases, inl, inr,
}
use mathlib.Core.List.{append_assoc, append-nil}
use truenas_jsonrpc.Value.{Value}
use truenas_jsonrpc.Types.{Response, response_value}
use truenas_jsonrpc.Protocol.Transfers.{Reply, silent, respond, transfer, raises}
use truenas_jsonrpc.Server.{Connection, put, enqueue_outbound, send_response, is_closed_stage}
use truenas_jsonrpc.Server.Negotiate.{Decoders}
use truenas_jsonrpc.Server.Outbound.{is_idle, take_next, take_outbound, write_now, write_held}
use truenas_jsonrpc.Client.Subscriptions.{contains, remove}
use truenas_jsonrpc.Server.Takeover.{after_go, break_transfer, resume_rpc, is_go}
use truenas_jsonrpc.Server.Drains.{held_items}
use truenas_jsonrpc.Server.Events.{on_dispatch_done, with_reply}

-- The messages of a queue that are before its sentinel.
abbrev pub queued : List (Option Value) → List Value
queued [] = []
queued (none ∷ vs) = []
queued (some v ∷ vs) = v ∷ queued vs

-- What has been written, what the writer holds, and what it is to write.
abbrev pub traffic : Connection → List Value
traffic c = c.written ++ (held_items c.held ++ queued c.outbound)

-- More is to be written, after all that was.
abbrev pub Extends : Connection → Connection → Type 0
Extends c d = (added : List Value) × (traffic d ≡ traffic c ++ added)

queued-append :
    (o vs : List (Option Value)) → (added : List Value) × (queued (o ++ vs) ≡ queued o ++ added)
queued-append [] vs = (queued vs, refl)
queued-append (none ∷ o) vs = ([], refl)
queued-append (some v ∷ o) vs =
    let (a, e) = queued-append o vs in (a, ap (λ (l : List Value). v ∷ l) e)

same-Extends : (c d : Connection) → traffic d ≡ traffic c → Extends c d
same-Extends c d e = ([], e ∙ sym (append-nil (traffic c)))

pub unchanged-Extends : (c : Connection) → Extends c c
unchanged-Extends c = same-Extends c c refl

pub compose-Extends : (c d e : Connection) → Extends c d → Extends d e → Extends c e
compose-Extends c d e (a, p) (b, q) =
    (a ++ b, q ∙ ap (λ (l : List Value). l ++ b) p ∙ append_assoc (traffic c) a b)

-- Something is put into the queue.
grows-Extends :
    (vs : List (Option Value)) (c d : Connection)
    → d.written ≡ c.written
    → d.held ≡ c.held
    → d.outbound ≡ c.outbound ++ vs
    → Extends c d
grows-Extends vs c d w h o =
    let (a, e) = queued-append c.outbound vs in
    let before = held_items c.held in
    (
      a,
      rw (w, h, o, e)
          (ap (λ (l : List Value). c.written ++ l) (sym (append_assoc before (queued c.outbound) a))
            ∙ sym (append_assoc c.written (before ++ queued c.outbound) a)),
    )

module _ (c : Connection) where
  pub put-Extends : (v : Option Value) → Extends c (put v c)
  put-Extends v = grows-Extends (v ∷ []) c (put v c) refl refl refl

  pub send_response-Extends : (r : Response) → Extends c (send_response r c)
  send_response-Extends r = put-Extends (some (response_value r))

  take_next-Extends :
      (vs : List (Option Value)) → c.outbound ≡ vs → c.held ≡ none → Extends c (take_next vs c)
  unfolding take_next
  take_next-Extends [] o h = unchanged-Extends c
  take_next-Extends (none ∷ vs) o h =
      (queued vs, rw (o, h) (ap (λ (l : List Value). l ++ queued vs) (sym (append-nil c.written))))
  take_next-Extends (some v ∷ vs) o h = same-Extends c (take_next (some v ∷ vs) c) (rw (o, h) refl)

  idle_holds_nothing : is_idle c ≡ true → c.held ≡ none
  idle_holds_nothing h = ground (arith, h)

  pub take_outbound-Extends : Extends c (take_outbound c)
  unfolding take_outbound
  take_outbound-Extends = elim (Bool-cases (is_idle c)) [
    | inl y ↦ rw y (take_next-Extends c.outbound refl (idle_holds_nothing y))
    | inr n ↦ rw n (unchanged-Extends c)
  ]

  write_now-Extends : (o : Option Value) → c.held ≡ o → Extends c (write_now o c)
  unfolding write_now
  write_now-Extends none h = unchanged-Extends c
  write_now-Extends (some v) h =
      same-Extends c (write_now (some v) c)
        (rw h (append_assoc c.written (v ∷ []) (queued c.outbound)))

  pub write_held-Extends : Extends c (write_held c)
  unfolding write_held
  write_held-Extends =
      if_both (Extends c) c.gate _ _ (write_now-Extends c.held refl) (unchanged-Extends c)

  with_reply-Extends : (r : Reply) → Extends c (with_reply r c)
  with_reply-Extends silent = unchanged-Extends c
  with_reply-Extends raises = unchanged-Extends c
  with_reply-Extends (transfer x) = unchanged-Extends c
  with_reply-Extends (respond r) = send_response-Extends r

  pub enqueue_outbound-Extends : (v : Value) → Extends c (enqueue_outbound v c)
  unfolding enqueue_outbound
  enqueue_outbound-Extends v =
      if_both (Extends c) (is_closed_stage c.stage) _ _ (unchanged-Extends c) (put-Extends (some v))

  pub after_go-Extends :
      (d : Decoders) (o : Option String) → Extends c (after_go d.decode_envelope o c)
  unfolding after_go break_transfer resume_rpc
  after_go-Extends d none = unchanged-Extends c
  after_go-Extends d (some msg) =
      if_both (Extends c) (is_go (d.decode_envelope msg)) _ _ (unchanged-Extends c)
        (unchanged-Extends c)

pub on_dispatch_done-Extends :
    (f : ℕ) (r : Reply) (c : Connection) → Extends c (on_dispatch_done f r c)
unfolding on_dispatch_done
on_dispatch_done-Extends f r c =
    if_both (Extends c) (contains f c.inflight) _ _
      (with_reply-Extends (record c { inflight = remove f c.inflight }) r) (unchanged-Extends c)
