-- ===== src/Streams.antt =====
-- truenas_pyjsonrpc/transfer.py: the loops that move the bytes of a transfer, `_write_all`,
-- `FileTransfer.sendfile` and the buffered copy of `recvfile`; its zero-copy path by `splice` is left
-- out. The system calls are parameters: a state, and what a call does to it and returns. Each loop is
-- on fuel.
pub mod Sends
pub mod Receives
use truenas_jsonrpc.Base.{
  ℕ, zero, suc, ◌+◌, ◌-◌, ◌<◌, Bool, true, false, Option, none, some, List, [], ◌∷◌, length, drop,
  ltb, nat_eq, if◌then◌else◌,
}
use Prim.Native.Nat.{min}

abbrev pub Bytes : Type 0
Bytes = List ℕ

-- `os.write(fd, data)`, `os.sendfile(out, in, offset, count)` and `os.read(fd, n)`, with the
-- descriptors given.
abbrev pub Write : Type 0 → Type 0
Write S = S → Bytes → S × ℕ

abbrev pub SendFile : Type 0 → Type 0
SendFile S = S → ℕ → ℕ → S × ℕ

abbrev pub Read : Type 0 → Type 0
Read S = S → ℕ → S × Bytes

-- A `count` of None is the rest of the file of this size.
abbrev pub count_or_rest : Option ℕ → ℕ → ℕ → ℕ
count_or_rest (some count) size offset = count
count_or_rest none size offset = size - offset

module _ {S : Type 0} where
  -- `_write_all`
  unfoldable pub write_all : Write S → ℕ → Bytes → S → Option S
  write_all write zero b s = none
  write_all write (suc n) [] s = some s
  write_all write (suc n) (x ∷ b) s =
      let r = write s (x ∷ b) in write_all write n (drop r.1 (x ∷ b)) r.0

  -- The loop of `sendfile`: what was sent, and the state.
  unfoldable pub send_loop : SendFile S → ℕ → (offset count sent : ℕ) → S → Option (ℕ × S)
  send_loop send zero offset count sent s = none
  send_loop send (suc n) offset count sent s =
      let r = send s (offset + sent) (count - sent) in
      let rest = send_loop send n offset count (sent + r.1) r.0 in
      if ltb sent count then (if nat_eq r.1 0 then some (sent, r.0) else rest) else some (sent, s)

  -- `sendfile`
  unfoldable pub sendfile : SendFile S → ℕ → Option ℕ → ℕ → ℕ → S → Option (ℕ × S)
  unfolding send_loop
  sendfile send fuel count size offset s =
      send_loop send fuel offset (count_or_rest count size offset) 0 s

  -- The buffered loop of `recvfile`; `store` is `file.write`, or `_write_all` for a descriptor.
  unfoldable pub receive_loop :
      Read S → (Bytes → S → Option S) → ℕ → (count got : ℕ) → S → Option (ℕ × S)
  receive_loop read store zero count got s = none
  receive_loop read store (suc n) count got s =
      let r = read s (min (count - got) 1048576) in
      let rest : Option (ℕ × S) = elim (store r.1 r.0) [
        | none ↦ none
        | some t ↦ receive_loop read store n count (got + length r.1) t
      ] in
      if ltb got count
      then (if nat_eq (length r.1) 0 then some (got, r.0) else rest)
      else some (got, s)
