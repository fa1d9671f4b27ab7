-- ===== src/Uuid.antt =====
-- truenas_pyjsonrpc/protocol.py's `_is_uuid`, over the code points of a text. Of Python's `uuid.UUID`
-- it has what can pass: 32 hex digits once the dashes are out. A text that `UUID` reads beside
-- those (with `urn:`, braces, a sign, `0x`, an underscore, spaces) is not what `str` prints, so the
-- comparison refuses it as `none` does here.
use Prim.Native.Char.{code}
use truenas_jsonrpc.Base.{
  ℕ, ◌+◌, ◌-◌, String, Bool, true, false, Option, none, some, List, [], ◌∷◌, ◌++◌, map, ◌&&◌, leb,
  ltb, nat_eq, length, take, drop, if◌then◌else◌,
}

-- The code points of a text.
abbrev pub codes : String → List ℕ
codes String.[] = []
codes (String.◌∷◌ c s) = code c ∷ codes s

unfoldable pub codes_eq : List ℕ → List ℕ → Bool
codes_eq [] [] = true
codes_eq [] (y ∷ ys) = false
codes_eq (x ∷ xs) [] = false
codes_eq (x ∷ xs) (y ∷ ys) = nat_eq x y && codes_eq xs ys

-- `str.lower`, as far as a hex digit can come out of it: the ASCII letters.
unfoldable pub lower : ℕ → ℕ
lower c = if leb b'A' c && leb c b'Z' then c + 32 else c

unfoldable pub hex_digit : ℕ → Option ℕ
unfolding lower
hex_digit c =
    if leb b'0' c && leb c b'9'
    then some (c - 48)
    else (if leb b'a' (lower c) && leb (lower c) b'f' then some (lower c - 87) else none)

-- The digit's lower-case text.
unfoldable pub hex_code : ℕ → ℕ
hex_code d = if ltb d 10 then d + 48 else d + 87

unfoldable pub without_dashes : List ℕ → List ℕ
without_dashes [] = []
without_dashes (c ∷ cs) = let rest = without_dashes cs in if nat_eq c b'-' then rest else c ∷ rest

unfoldable pub hex_digits : List ℕ → Option (List ℕ)
hex_digits [] = some []
hex_digits (c ∷ cs) =
    let rest = hex_digits cs in
    elim (hex_digit c) [
      | none ↦ none
      | some d ↦ elim rest [ none ↦ none | some ds ↦ some (d ∷ ds) ]
    ]

-- `uuid.UUID(value)`, its 128 bits as 32 hex digits.
unfoldable pub parse_uuid : List ℕ → Option (List ℕ)
unfolding hex_digits without_dashes
parse_uuid cs =
    let hex = without_dashes cs in if nat_eq (length hex) 32 then hex_digits hex else none

-- `str(uuid)`: groups of 8, 4, 4, 4 and 12 digits.
unfoldable pub print_uuid : List ℕ → List ℕ
unfolding hex_code
print_uuid ds =
    let cs = map hex_code ds in
    take 8 cs
    ++ (b'-'
        ∷ (take 4 (drop 8 cs)
            ++ (b'-'
                ∷ (take 4 (drop 12 cs) ++ (b'-' ∷ (take 4 (drop 16 cs) ++ (b'-' ∷ drop 20 cs)))))))

unfoldable pub is_uuid_codes : List ℕ → Bool
unfolding parse_uuid print_uuid codes_eq lower hex_digit
is_uuid_codes cs = elim (parse_uuid cs) [
  | none ↦ false
  | some ds ↦ codes_eq (print_uuid ds) (map lower cs)
]

-- `_is_uuid`
unfoldable pub is_uuid : String → Bool
unfolding is_uuid_codes
is_uuid s = is_uuid_codes (codes s)
