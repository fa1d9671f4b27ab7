-- ===== src/Framing.antt =====
-- truenas_pyjsonrpc_server/framing.py: length-prefixed messages on a byte stream. A byte is a number
-- below 256, and a stream is what is still to come before the end of the connection.
pub mod Laws
use truenas_jsonrpc.Base.{
  ℕ, zero, suc, ◌+◌, ◌*◌, ◌/◌, ◌%◌, Option, none, some, List, [], ◌∷◌, ◌++◌, length, take, drop,
  ltb, leb, if◌then◌else◌,
}

-- `struct.pack(">I", n)`: `none` is `struct.error`.
unfoldable pub pack : ℕ → Option (List ℕ)
pack n =
    if ltb n 4294967296
    then some (n / 16777216 ∷ (n / 65536) % 256 ∷ (n / 256) % 256 ∷ n % 256 ∷ [])
    else none

-- `struct.unpack(">I", header)`, of four bytes.
unfoldable pub unpack : List ℕ → ℕ
unpack (a ∷ b ∷ c ∷ d ∷ []) = ((a * 256 + b) * 256 + c) * 256 + d
unpack _ = 0

-- `frame`
unfoldable pub frame : List ℕ → Option (List ℕ)
unfolding pack
frame payload = elim (pack (length payload)) [
  | none ↦ none
  | some header ↦ some (header ++ payload)
]

-- `reader.readexactly(n)`: the bytes and the rest; `none` is IncompleteReadError, at the end.
unfoldable pub read_exactly : ℕ → List ℕ → Option (List ℕ × List ℕ)
read_exactly n stream = if leb n (length stream) then some (take n stream, drop n stream) else none

-- What `read_message` returns or raises; a message comes with the rest of the stream.
pub data Received : Type 0 where
  message : List ℕ → List ℕ → Received
  ended : Received
  frame_too_large : ℕ → Received

read_payload : Option (List ℕ × List ℕ) → Received
read_payload none = ended
read_payload (some (payload, rest)) = message payload rest

read_body : ℕ → Option (List ℕ × List ℕ) → Received
unfolding read_payload
read_body limit none = ended
read_body limit (some (header, rest)) =
    if ltb limit (unpack header)
    then frame_too_large (unpack header)
    else read_payload (read_exactly (unpack header) rest)

-- `read_message`
unfoldable pub read_message : ℕ → List ℕ → Received
unfolding read_body
read_message limit stream = read_body limit (read_exactly 4 stream)

-- How reading a connection to its end goes: the messages, and whether a frame was refused.
pub data Ending : Type 0 where
  at_end : Ending
  refused : ℕ → Ending
  out_of_fuel : Ending

-- The loop round `read_message`: messages are taken until the end, or a frame that is too large.
unfoldable pub read_all : ℕ → ℕ → List ℕ → List (List ℕ) × Ending
unfolding read_message
read_all zero limit stream = ([], out_of_fuel)
read_all (suc n) limit stream = elim (read_message limit stream) [
  | message payload rest ↦ let (ms, e) = read_all n limit rest in (payload ∷ ms, e)
  | ended ↦ ([], at_end)
  | frame_too_large k ↦ ([], refused k)
]
