-- ===== src/Framing/Laws.antt =====
-- truenas_pyjsonrpc_server/framing.py: what is framed is what is read.
use truenas_jsonrpc.Base.{
  ℕ, zero, suc, ◌+◌, ◌-◌, ◌/◌, ◌%◌, ◌≤◌, ◌<◌, ◌≡◌, ◌≢◌, ◌⊎◌, refl, sym, ap, Option, none, some,
  List, [], ◌∷◌, ◌++◌, length, take, drop, length-append, Option-cases, inl, inr, ltb, leb, arith,
  All, true, false,
}
use mathlib.Core.Option.{some-injective, none-ne-some}
use truenas_jsonrpc.Framing.{
  pack, unpack, frame, read_exactly, Received, message, ended, frame_too_large, read_message,
  at_end, out_of_fuel, read_all,
}

abbrev header : ℕ → List ℕ
header n = n / 16777216 ∷ (n / 65536) % 256 ∷ (n / 256) % 256 ∷ n % 256 ∷ []

pub unpack-header : (n : ℕ) → unpack (header n) ≡ n
unfolding unpack
unpack-header n = omega arith

take-append : (xs ys : List ℕ) → take (length xs) (xs ++ ys) ≡ xs
take-append [] ys = refl
take-append (x ∷ xs) ys = ap (◌∷◌ x) (take-append xs ys)

drop-append : (xs ys : List ℕ) → drop (length xs) (xs ++ ys) ≡ ys
drop-append [] ys = refl
drop-append (x ∷ xs) ys = drop-append xs ys

read_exactly-append : (xs ys : List ℕ) → read_exactly (length xs) (xs ++ ys) ≡ some (xs, ys)
unfolding read_exactly
read_exactly-append xs ys = rw (enough, take-append xs ys, drop-append xs ys)
  where
    enough : leb (length xs) (length (xs ++ ys)) ≡ true
    enough = ground (arith, length-append xs ys)

short-read : (n : ℕ) (xs : List ℕ) → length xs < n → read_exactly n xs ≡ none
unfolding read_exactly
short-read n xs h = ground arith

length-take : (k : ℕ) (xs : List ℕ) → length (take k xs) ≤ k
length-take zero xs = omega arith
length-take (suc k) [] = omega arith
length-take (suc k) (x ∷ xs) = omega (arith, length-take k xs)

framed :
    (payload bytes : List ℕ)
    → frame payload ≡ some bytes
    → bytes ≡ header (length payload) ++ payload
unfolding frame pack
framed payload bytes e = ground arith

-- A frame whose payload is within the limit is read back whole, and what follows it is left.
read_message-frame :
    (limit : ℕ) (payload bytes rest : List ℕ)
    → frame payload ≡ some bytes
    → length payload ≤ limit
    → read_message limit (bytes ++ rest) ≡ message payload rest
unfolding read_message
read_message-frame limit payload bytes rest e h = rw (
  framed payload bytes e,
  read_exactly-append (header (length payload)) (payload ++ rest),
  unpack-header (length payload),
  within,
  read_exactly-append payload rest,
)
  where
    within : ltb limit (length payload) ≡ false
    within = ground arith

cut_header : (limit : ℕ) (stream : List ℕ) → length stream < 4 → read_message limit stream ≡ ended
unfolding read_message
cut_header limit stream l = rw (short-read 4 stream l)

cut_payload :
    (limit j : ℕ) (payload : List ℕ)
    → length payload ≤ limit
    → j < length payload
    → read_message limit (header (length payload) ++ take j payload) ≡ ended
unfolding read_message
cut_payload limit j payload h l = rw (
  read_exactly-append (header (length payload)) (take j payload),
  unpack-header (length payload),
  within,
  short-read (length payload) (take j payload) shorter,
)
  where
    within : ltb limit (length payload) ≡ false
    within = ground arith

    shorter : length (take j payload) < length payload
    shorter = omega (arith, length-take j payload)

cut :
    (limit k : ℕ) (payload : List ℕ)
    → length payload ≤ limit
    → k < 4 + length payload
    → read_message limit (take k (header (length payload) ++ payload)) ≡ ended
cut limit zero payload h l = cut_header limit _ (omega arith)
cut limit (suc zero) payload h l = cut_header limit _ (omega arith)
cut limit (suc (suc zero)) payload h l = cut_header limit _ (omega arith)
cut limit (suc (suc (suc zero))) payload h l = cut_header limit _ (omega arith)
cut limit (suc (suc (suc (suc j)))) payload h l = cut_payload limit j payload h (omega arith)

-- A frame within the limit that is cut off anywhere is the end of the connection, never a message.
pub read_message-take :
    (limit k : ℕ) (payload bytes : List ℕ)
    → frame payload ≡ some bytes
    → length payload ≤ limit
    → k < length bytes
    → read_message limit (take k bytes) ≡ ended
read_message-take limit k payload bytes e h l = rw (framed payload bytes e) (
    cut limit k payload h (
      omega (
        arith,
        ap length (framed payload bytes e),
        length-append (header (length payload)) payload,
      )))

-- The frames of several messages, one after another, as a connection writes them.
unfoldable pub frame_all : List (List ℕ) → Option (List ℕ)
unfolding frame
frame_all [] = some []
frame_all (m ∷ ms) = elim (frame m) [
  | none ↦ none
  | some bytes ↦ elim (frame_all ms) [ none ↦ none | some rest ↦ some (bytes ++ rest) ]
]

frame_all-parts :
    (m : List ℕ) (ms : List (List ℕ)) (bytes : List ℕ)
    → frame_all (m ∷ ms) ≡ some bytes
    → (b rest : List ℕ) × (frame m ≡ some b) × (frame_all ms ≡ some rest) × (bytes ≡ b ++ rest)
unfolding frame_all
frame_all-parts m ms bytes e = elim (Option-cases (frame m)) [
  | inl f ↦ absurd (none-ne-some _ (rw (frame_all, f) at e))
  | inr (b, f) ↦ elim (Option-cases (frame_all ms)) [
    | inl g ↦ absurd (none-ne-some _ (rw (frame_all, f, g) at e))
    | inr (rest, g) ↦
        (b, rest, f, g, sym (some-injective (b ++ rest) bytes (rw (frame_all, f, g) at e)))
  ]
]

-- The reader's loop gives back exactly the messages that were framed, in order, and then sees the
-- end of the connection, if each of them is within the limit and the fuel exceeds their number.
pub read_all-frame_all :
    (limit n : ℕ) (ms : List (List ℕ)) (bytes : List ℕ)
    → frame_all ms ≡ some bytes
    → All (λ m. length m ≤ limit) ms
    → length ms < n
    → read_all n limit bytes ≡ (ms, at_end)
unfolding read_all frame_all
read_all-frame_all limit zero ms bytes e h l = absurd (omega (arith, l))
read_all-frame_all limit (suc n) [] bytes e h l =
    rw (sym (some-injective [] bytes e), read_all, cut_header limit [] (omega arith))
read_all-frame_all limit (suc n) (m ∷ ms) bytes e h l =
    let (b, rest, f, g, k) = frame_all-parts m ms bytes e in
    rw (
      k,
      read_all,
      read_message-frame limit m b rest f h.0,
      read_all-frame_all limit n ms rest g h.1 (omega (arith, l)),
    )

length-drop : (k : ℕ) (xs : List ℕ) → length (drop k xs) ≤ length xs - k
length-drop zero xs = omega arith
length-drop (suc k) [] = omega arith
length-drop (suc k) (x ∷ xs) = omega (arith, length-drop k xs)

-- What `readexactly` gives has the length that was asked for, and is taken off the stream.
read_exactly-length :
    (n : ℕ) (xs taken rest : List ℕ)
    → read_exactly n xs ≡ some (taken, rest)
    → (length taken ≤ n) × (length rest + n ≤ length xs)
unfolding read_exactly
read_exactly-length n xs taken rest e = ground (arith, length-take n xs, length-drop n xs)

body_length :
    (limit : ℕ) (stream header rest payload after : List ℕ)
    → read_exactly 4 stream ≡ some (header, rest)
    → read_message limit stream ≡ message payload after
    → (length payload ≤ limit) × (length after + 4 ≤ length stream)
unfolding read_message
body_length limit stream header rest payload after f e =
    elim (Option-cases (read_exactly (unpack header) rest)) [
      | inl g ↦ ground arith
      | inr (r, g) ↦ ground (
        arith,
        read_exactly-length 4 stream header rest f,
        read_exactly-length (unpack header) rest r.0 r.1 g,
      )
    ]

-- A message that was read is within the limit, and at least its header is taken off the stream.
read_message-length :
    (limit : ℕ) (stream payload rest : List ℕ)
    → read_message limit stream ≡ message payload rest
    → (length payload ≤ limit) × (length rest + 4 ≤ length stream)
unfolding read_message
read_message-length limit stream payload rest e = elim (Option-cases (read_exactly 4 stream)) [
  | inl f ↦ ground arith
  | inr ((h, after), f) ↦ body_length limit stream h after payload rest f e
]

message-cases :
    (r : Received)
    → ((payload rest : List ℕ) × (r ≡ message payload rest))
      ⊎ (r ≡ ended)
      ⊎ ((k : ℕ) × (r ≡ frame_too_large k))
message-cases (message p r) = inl (p, r, refl)
message-cases ended = inr (inl refl)
message-cases (frame_too_large k) = inr (inr (k, refl))

-- On any bytes, with more fuel than the stream is long, the reader's loop comes to the end of the
-- connection or to a frame that it refuses, and every message that it gives is within the limit.
pub read_all-ends :
    (limit n : ℕ) (stream : List ℕ)
    → length stream < n
    → ((read_all n limit stream).1 ≢ out_of_fuel)
      × All (λ m. length m ≤ limit) (read_all n limit stream).0
unfolding read_all
read_all-ends limit zero stream l = absurd (omega (arith, l))
read_all-ends limit (suc n) stream l = elim (message-cases (read_message limit stream)) [
  | inl (p, r, e) ↦
      let (a, b) = read_message-length limit stream p r e in
      let (c, d) = read_all-ends limit n r (omega (arith, b, l)) in rw (read_all, e) (c, (a, d))
  | inr (inl e) ↦ rw (read_all, e) ((λ k. cc), tt)
  | inr (inr (k, e)) ↦ rw (read_all, e) ((λ k. cc), tt)
]
