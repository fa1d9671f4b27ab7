-- ===== src/Value.antt =====
-- Python values as msgspec's `to_builtins` gives them: None, bool, int, str, list, dict. A tuple
-- is a list here (both are a JSON array); floats and bytes do not occur in what is modelled.
use truenas_jsonrpc.Base.{zero, String, Bool, true, false, not, ℤ, pos, ◌==◌}

mutual
  pub data Value : Type 0 where
    null : Value
    bool : Bool → Value
    num : ℤ → Value
    str : String → Value
    arr : Items → Value
    obj : Fields → Value

  pub data Items : Type 0 where
    nil : Items
    cons : Value → Items → Items

  pub data Fields : Type 0 where
    pair : String → Value → Fields → Fields
    end : Fields

-- Python's truth value of a text.
abbrev pub truthy_text : String → Bool
truthy_text s = not (s == "")

-- Python's truth value: None, False, 0, "", [] and {} are false.
unfoldable pub truthy : Value → Bool
truthy null = false
truthy (bool b) = b
truthy (num (pos zero)) = false
truthy (num n) = true
truthy (str s) = truthy_text s
truthy (arr nil) = false
truthy (arr (cons v vs)) = true
truthy (obj end) = false
truthy (obj (pair k v fs)) = true
