-- ===== src/Tests/Copies.antt =====
-- The theorems on the loops that move bytes, each at calls that move one byte at a time.
use truenas_jsonrpc.Base.{
  ℕ, zero, suc, ◌<◌, ◌≤◌, ◌≡◌, ◌⊎◌, refl, sym, none, some, [], ◌∷◌, ◌++◌, length, take, drop, arith,
}
use mathlib.Core.List.{append-nil}
use truenas_jsonrpc.Streams.{Bytes, Write, SendFile, Read, write_all, sendfile, receive_loop}
use truenas_jsonrpc.Streams.Sends.{IsWrite, IsSend, write_all-writes, sendfile-sends, HasEnded}
use truenas_jsonrpc.Streams.Receives.{IsRead, Received, write_all-IsStore, receive_loop-Received}

-- What the peer still sends, and what has been written.
abbrev Pipe : Type 0
Pipe = Bytes × Bytes

abbrev source : Pipe → Bytes
source s = s.0

abbrev sink : Pipe → Bytes
sink s = s.1

abbrev write_one : Write Pipe
write_one s [] = (s, 0)
write_one s (x ∷ b) = ((s.0, s.1 ++ (x ∷ [])), 1)

abbrev one : ℕ → Bytes → ℕ
one zero b = 0
one (suc n) [] = 0
one (suc n) (x ∷ b) = 1

abbrev image : Bytes
image = 10 ∷ 20 ∷ 30 ∷ 40 ∷ []

abbrev send_one : SendFile Pipe
send_one s offset count = (
  (s.0, s.1 ++ take (one count (drop offset image)) (drop offset image)),
  one count (drop offset image),
)

abbrev read_one : Read Pipe
read_one ([], out) n = (([], out), [])
read_one (x ∷ b, out) zero = ((x ∷ b, out), [])
read_one (x ∷ b, out) (suc n) = ((b, out), x ∷ [])

write_one-IsWrite : IsWrite sink write_one
write_one-IsWrite = record { writes = writes; at_most = at_most; progress = progress }
  where
    writes : (s : Pipe) (b : Bytes) → sink (write_one s b).0 ≡ sink s ++ take (write_one s b).1 b
    writes s [] = sym (append-nil s.1)
    writes s (x ∷ b) = refl

    at_most : (s : Pipe) (b : Bytes) → (write_one s b).1 ≤ length b
    at_most s [] = omega arith
    at_most s (x ∷ b) = omega arith

    progress : (s : Pipe) (b : Bytes) → 0 < length b → 0 < (write_one s b).1
    progress s [] h = h
    progress s (x ∷ b) h = omega arith

one_at_most : (n : ℕ) (b : Bytes) → (one n b ≤ n) × (one n b ≤ length b)
one_at_most zero b = (omega arith, omega arith)
one_at_most (suc n) [] = (omega arith, omega arith)
one_at_most (suc n) (x ∷ b) = (omega arith, omega arith)

send_one-IsSend : IsSend image sink send_one
send_one-IsSend = record {
  sends = λ s o c. refl;
  at_most = λ s o c. (one_at_most c (drop o image)).0;
  of_file = λ s o c. (one_at_most c (drop o image)).1;
}

read_one-IsRead : IsRead source sink read_one
read_one-IsRead = record { reads = reads; at_most = at_most; keeps = keeps }
  where
    reads : (s : Pipe) (n : ℕ) → source s ≡ (read_one s n).1 ++ source (read_one s n).0
    reads ([], out) n = refl
    reads (x ∷ b, out) zero = refl
    reads (x ∷ b, out) (suc n) = refl

    at_most : (s : Pipe) (n : ℕ) → length (read_one s n).1 ≤ n
    at_most ([], out) n = omega arith
    at_most (x ∷ b, out) zero = omega arith
    at_most (x ∷ b, out) (suc n) = omega arith

    keeps : (s : Pipe) (n : ℕ) → sink (read_one s n).0 ≡ sink s
    keeps ([], out) n = refl
    keeps (x ∷ b, out) zero = refl
    keeps (x ∷ b, out) (suc n) = refl

write_one-source : (s : Pipe) (b : Bytes) → source (write_one s b).0 ≡ source s
write_one-source s [] = refl
write_one-source s (x ∷ b) = refl

write_all-writes_example :
    (t : Pipe) × (write_all write_one 5 image ([], 1 ∷ []) ≡ some t) × (sink t ≡ (1 ∷ []) ++ image)
write_all-writes_example =
    write_all-writes sink write_one 5 image ([], 1 ∷ []) write_one-IsWrite (omega arith)

sendfile-sends_example :
    (total : ℕ) × (t : Pipe) × (sendfile send_one 9 none 4 1 ([], []) ≡ some (total, t))
    × (total ≤ 3)
    × (total ≤ 3)
    × (sink t ≡ [] ++ take total (20 ∷ 30 ∷ 40 ∷ []))
    × ((total ≡ 3) ⊎ HasEnded sink send_one 1 3 total t)
sendfile-sends_example =
    sendfile-sends sink image send_one 9 none 1 ([], []) send_one-IsSend (omega arith)

receive_loop-Received_example :
    (total : ℕ) × (t : Pipe) × (receive_loop read_one
        (write_all write_one 1048577)
        9
        3
        0
        (image, [])
      ≡ some (total, t))
    × Received source sink read_one 3 total (image, []) t
receive_loop-Received_example =
    receive_loop-Received source sink read_one (write_all write_one 1048577) read_one-IsRead
      (write_all-IsStore source sink write_one 1048577 write_one-IsWrite write_one-source
        (omega arith))
      3 (image, []) 9 (omega arith)
