-- ===== src/Protocol/Setup.antt =====
-- truenas_pyjsonrpc/protocol.py: the configuration calls `register` and `add_session_setup`, and
-- `new_session`. What Python's isinstance checks refuse cannot be written here: the types rule it out.
use truenas_jsonrpc.Base.{
  none, ℕ, String, ◌≡◌, Bool, false, Option, some, Bool-cases, subst, inl, inr, ◌||◌, lookup,
  insert, lookup-insert, is_some, ◌==◌, eq_iff, arith, ◌<>◌, if◌then◌else◌,
}
use mathlib.Core.Option.{some-injective}
use text.Mathlib.Text.{starts_with}
use truenas_jsonrpc.Value.{null}
use truenas_jsonrpc.Types.{fresh}
use truenas_jsonrpc.Registry.{update}
use truenas_jsonrpc.Session.{Internal}
use truenas_jsonrpc.Protocol.{World, Protocol, Method, SetupMethod}

-- The exceptions of the configuration calls: ValueError and TypeError.
pub data Configured {ℓ} (A : Type ℓ) : Type ℓ where
  configured : A → Configured A
  value_error : String → Configured A

-- The names that only the protocol's own control messages have.
unfoldable pub is_reserved : String → Bool
is_reserved name = starts_with name "rpc." || starts_with name "$/"

-- `register`
unfoldable pub register : Method → Protocol → Configured Protocol
register m p =
    if is_reserved m.name
    then value_error "method names beginning with 'rpc.' or '$/' are reserved"
    else if is_some (lookup m.name p.methods)
    then value_error ("duplicate method: '" <> m.name <> "'")
    else configured (record p { methods = insert m.name m p.methods })

-- `add_session_setup`, for methods that its checks accept.
unfoldable pub add_session_setup : SetupMethod → Option SetupMethod → Protocol → Protocol
add_session_setup setup continue p = record p {
  session_setup = some setup;
  session_setup_continue = continue;
}

-- `new_session`: `s` is the new object's place, `uuid` the `uuid4()` it draws.
unfoldable pub new_session : Protocol → ℕ → String → Internal → World → World
new_session p s uuid internal w = record w {
  sessions = update w.sessions s (record {
    session_uuid = uuid;
    protocol_name = p.name;
    lifecycle = fresh;
    internal = internal;
    external = null;
  });
}

-- Every method is in the table under its own name, which is not reserved.
pub record IsTable (p : Protocol) : Type 0 where
  pub entry :
      (name : String) (m : Method)
      → lookup name p.methods ≡ some m
      → (m.name ≡ name) × (is_reserved name ≡ false)

registered :
    (m : Method) (p q : Protocol)
    → register m p ≡ configured q
    → (is_reserved m.name ≡ false)
      × (q.methods ≡ insert m.name m p.methods)
      × (lookup m.name p.methods ≡ none)
unfolding register
registered m p q e = ground arith

-- `register`, where it succeeds, keeps the table well formed, and overwrites no method: the new
-- method's name was free before, it is in the table under that name now, and every other name gives
-- what it gave.
pub register-IsTable :
    (m : Method) (p q : Protocol)
    → IsTable p
    → register m p ≡ configured q
    → IsTable q
      × (lookup m.name p.methods ≡ none)
      × ((name : String)
          → lookup name q.methods ≡ (if m.name == name then some m else lookup name p.methods))
register-IsTable m p q t e = (
  record {
    entry = λ name n f. elim (Bool-cases (m.name == name)) [
      | inl hit ↦
          let own = (eq_iff m.name name).0 hit in
          (
            subst (λ (k : Method). k.name ≡ name) (some-injective m n (rw (found name, hit) at f))
                own,
            subst (λ k. is_reserved k ≡ false) own (registered m p q e).0,
          )
      | inr miss ↦ t.entry name n (rw (found name, miss) at f)
    ];
  },
  (registered m p q e).2,
  found,
)
  where
    found :
        (name : String)
        → lookup name q.methods ≡ (if m.name == name then some m else lookup name p.methods)
    found name = rw (registered m p q e).1 (lookup-insert m.name name m p.methods)
