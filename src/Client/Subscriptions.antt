-- ===== src/Client/Subscriptions.antt =====
-- truenas_pyjsonrpc_client/client.py: the callbacks of the topics: `_do_subscribe`, `_drop_cb`,
-- `_remove_sub`.
use truenas_jsonrpc.Base.{
  ℕ, String, Bool, false, ◌||◌, Option, none, some, List, [], ◌∷◌, ◌++◌, Dict, lookup, insert,
  erase, nat_eq, if◌then◌else◌,
}
use truenas_jsonrpc.Value.{Value, str}
use truenas_jsonrpc.Client.{Client, begin_invoke}
use truenas_jsonrpc.Client.Messages.{callbacks_of}

-- `cb in cbs`, and `cbs.remove(cb)`, which takes out the first.
unfoldable pub contains : ℕ → List ℕ → Bool
contains cb [] = false
contains cb (x ∷ xs) = nat_eq x cb || contains cb xs

unfoldable pub remove : ℕ → List ℕ → List ℕ
remove cb [] = []
remove cb (x ∷ xs) = let rest = remove cb xs in if nat_eq x cb then xs else x ∷ rest

-- `_sub_callbacks.setdefault(topic, []).append(cb)`
unfoldable pub add_callback : String → Option ℕ → Client → Client
add_callback topic none c = c
add_callback topic (some cb) c = record c {
  sub_callbacks =
      insert topic (callbacks_of (lookup topic c.sub_callbacks) ++ (cb ∷ [])) c.sub_callbacks;
}

unfoldable pub keep_callbacks : String → List ℕ → Dict (List ℕ) → Dict (List ℕ)
keep_callbacks topic [] d = erase topic d
keep_callbacks topic (cb ∷ cbs) d = insert topic (cb ∷ cbs) d

unfoldable pub dropped : String → ℕ → Option (List ℕ) → Dict (List ℕ) → Dict (List ℕ)
unfolding keep_callbacks contains remove
dropped topic cb none d = d
dropped topic cb (some cbs) d =
    if contains cb cbs then keep_callbacks topic (remove cb cbs) d else d

-- `_drop_cb`
unfoldable pub drop_callback : String → ℕ → Client → Client
unfolding dropped
drop_callback topic cb c = record c {
  sub_callbacks = dropped topic cb (lookup topic c.sub_callbacks) c.sub_callbacks;
}

abbrev pub forget_sub : String → Option (String × ℕ) → Client → Client
forget_sub sub_id none c = c
forget_sub sub_id (some (topic, cb)) c =
    drop_callback topic cb (record c { sub_ids = erase sub_id c.sub_ids })

-- `_remove_sub`
unfoldable pub remove_sub : String → Client → Client
unfolding drop_callback
remove_sub sub_id c = forget_sub sub_id (lookup sub_id c.sub_ids) c

-- The subscribe request has failed, or its wait was cancelled.
unfoldable pub abandon_subscribe : String → Option ℕ → Client → Client
unfolding drop_callback
abandon_subscribe topic none c = c
abandon_subscribe topic (some cb) c = drop_callback topic cb c

-- `_invoke` waits, or has raised at once, and then the callback goes.
abbrev pub after_invoke : String → Option ℕ → Client × Option ℕ → Client × Option ℕ
after_invoke topic cb (c, some f) = (c, some f)
after_invoke topic cb (c, none) = (abandon_subscribe topic cb c, none)

-- `_do_subscribe` as far as the wait of its `_invoke`.
unfoldable pub begin_subscribe : String → String → Value → Option ℕ → Client → Client × Option ℕ
unfolding add_callback begin_invoke abandon_subscribe
begin_subscribe rid topic params cb c =
    after_invoke topic cb (begin_invoke rid topic params none (add_callback topic cb c))

-- The subscribe request has returned a result, which is the subscription's id if it is a text.
unfoldable pub finish_subscribe : String → Option ℕ → Value → Client → Client
finish_subscribe topic (some cb) (str sub_id) c = record c {
  sub_ids = insert sub_id (topic, cb) c.sub_ids;
}
finish_subscribe topic _ _ c = c
