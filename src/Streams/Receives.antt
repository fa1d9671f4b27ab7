-- ===== src/Streams/Receives.antt =====
-- truenas_pyjsonrpc/transfer.py: the buffered copy of `recvfile`, and the bytes that it moves.
use truenas_jsonrpc.Base.{
  ℕ, zero, suc, ◌+◌, ◌-◌, ◌<◌, ◌≤◌, ◌≡◌, ◌⊎◌, inl, inr, refl, sym, ap, ◌∙◌, Bool-cases, Option,
  some, [], ◌∷◌, ◌++◌, length, length-append, ltb, nat_eq, arith,
}
use Prim.Native.Nat.{min}
use mathlib.Core.List.{append_assoc, append-nil}
use truenas_jsonrpc.Streams.{Bytes, Write, Read, write_all, receive_loop}
use truenas_jsonrpc.Streams.Sends.{IsWrite, write_all-writes, write_all-keeps}

-- `os.read` on a blocking socket: it takes bytes from the start of what the peer sends, no more than
-- asked for, and writes nothing.
pub record IsRead {S : Type 0} (source sink : S → Bytes) (read : Read S) : Type 0 where
  pub reads : (s : S) (n : ℕ) → source s ≡ (read s n).1 ++ source (read s n).0
  pub at_most : (s : S) (n : ℕ) → length (read s n).1 ≤ n
  pub keeps : (s : S) (n : ℕ) → sink (read s n).0 ≡ sink s

-- A store that takes every chunk that the loop may read.
pub record IsStore {S : Type 0} (source sink : S → Bytes) (store : Bytes → S → Option S)
    : Type 0 where
  pub stored :
      (b : Bytes) (s : S)
      → length b ≤ 1048576
      → (t : S) × (store b s ≡ some t) × (sink t ≡ sink s ++ b) × (source t ≡ source s)

-- `_write_all` to a descriptor is such a store.
pub write_all-IsStore :
    {S : Type 0} (source sink : S → Bytes) (write : Write S) (fuel : ℕ)
    → IsWrite sink write
    → ((s : S) (b : Bytes) → source (write s b).0 ≡ source s)
    → 1048576 < fuel
    → IsStore source sink (write_all write fuel)
write_all-IsStore source sink write fuel w k l = record {
  stored = λ b s h.
      let (t, e, x) = write_all-writes sink write fuel b s w (omega (arith, h, l)) in
      (t, e, x, write_all-keeps source write fuel b s t k e);
}

-- What the loop has moved, and why it ended.
pub record Received {S : Type 0} (source sink : S → Bytes) (read : Read S) (count total : ℕ)
    (s t : S) : Type 0 where
  pub moved : Bytes
  pub from : source s ≡ moved ++ source t
  pub to : sink t ≡ sink s ++ moved
  pub as_many : length moved ≡ total
  pub bounded : total ≤ count
  pub reason :
      (total ≡ count)
      ⊎ ((total < count) × (r : S) × (read r (min (count - total) 1048576) ≡ (t, [])))

empty_of_length : (b : Bytes) → length b ≡ 0 → b ≡ []
empty_of_length [] e = refl
empty_of_length (x ∷ b) e = absurd (omega (arith, e))

module _ {S : Type 0} (source sink : S → Bytes) (read : Read S) (store : Bytes → S → Option S)
    (rd : IsRead source sink read) (st : IsStore source sink store) (count : ℕ) (start : S) where
  -- What is moved when the loop stands at `got`.
  record Moved (got : ℕ) (s : S) : Type 0 where
    moved : Bytes
    from : source start ≡ moved ++ source s
    to : sink s ≡ sink start ++ moved
    as_many : length moved ≡ got

  chunk-Moved :
      (got : ℕ) (s t : S) (n : ℕ)
      → Moved got s
      → sink t ≡ sink (read s n).0 ++ (read s n).1
      → source t ≡ source (read s n).0
      → Moved (got + length (read s n).1) t
  chunk-Moved got s t n h k e = record {
    moved = h.moved ++ (read s n).1;
    from =
        h.from
        ∙ ap (λ (l : Bytes). h.moved ++ l)
            (rd.reads s n ∙ ap (λ (l : Bytes). (read s n).1 ++ l) (sym e))
        ∙ sym (append_assoc h.moved (read s n).1 (source t));
    to =
        k
        ∙ ap (λ (l : Bytes). l ++ (read s n).1) (rd.keeps s n ∙ h.to)
        ∙ append_assoc (sink start) h.moved (read s n).1;
    as_many = omega (arith, h.as_many, length-append h.moved (read s n).1);
  }

  done :
      (got : ℕ) (s : S)
      → Moved got s
      → got ≤ count
      → ((got ≡ count) ⊎ ((got < count) × (r : S) × (read r (min (count - got) 1048576) ≡ (s, []))))
      → Received source sink read count got start s
  done got s h b x = record {
    moved = h.moved;
    from = h.from;
    to = h.to;
    as_many = h.as_many;
    bounded = b;
    reason = x;
  }

  nothing-Moved :
      (got : ℕ) (s : S) (n : ℕ) → Moved got s → (read s n).1 ≡ [] → Moved got (read s n).0
  nothing-Moved got s n h e = record {
    moved = h.moved;
    from =
        h.from
        ∙ ap (λ (l : Bytes). h.moved ++ l)
            (rd.reads s n ∙ ap (λ (l : Bytes). l ++ source (read s n).0) e);
    to = rd.keeps s n ∙ h.to;
    as_many = h.as_many;
  }

  receive_loop-moves :
      (n got : ℕ) (s : S)
      → Moved got s
      → got ≤ count
      → count - got < n
      → (total : ℕ) × (t : S) × (receive_loop read store n count got s ≡ some (total, t))
        × Received source sink read count total start t
  unfolding receive_loop
  receive_loop-moves zero got s h m l = absurd (omega (arith, l))
  receive_loop-moves (suc n) got s h m l = elim (Bool-cases (ltb got count)) [
    | inr no_more ↦ (got, s, rw no_more refl, done got s h m (inl (ground (arith, no_more, m))))
    | inl more ↦
        let asked = min (count - got) 1048576 in
        let r = read s asked in
        let bound = rd.at_most s asked in
        elim (Bool-cases (nat_eq (length r.1) 0)) [
          | inl nothing ↦
              let e = empty_of_length r.1 (ground (arith, nothing)) in
              (
                got,
                r.0,
                rw (more, nothing) refl,
                done got r.0 (nothing-Moved got s asked h e) m
                    (inr (ground (arith, more), s, ap (λ (b : Bytes). (r.0, b)) e)),
              )
          | inr some_read ↦
              let lt : got < count = ground (arith, more) in
              let pos : 0 < length r.1 = ground (arith, some_read) in
              let (t, e, k, o) = st.stored r.1 r.0 (omega (arith, bound)) in
              let (total, u, e', x) =
                receive_loop-moves n (got + length r.1) t (chunk-Moved got s t asked h k o)
                  (omega (arith, bound, lt)) (omega (arith, l, pos, bound, lt)) in
              (total, u, rw (more, some_read, e) e', x)
        ]
  ]

  -- The buffered copy of `recvfile` ends and loses nothing: the bytes that it took from the peer are
  -- the bytes that it stored, in order, as many as it returns, no more than the count, and as many as
  -- the count unless a read gave nothing that asked for the bytes still missing, at least one and at
  -- most a mebibyte. Fuel for one round a byte and one more is enough.
  pub receive_loop-Received :
      (fuel : ℕ)
      → count < fuel
      → (total : ℕ) × (t : S) × (receive_loop read store fuel count 0 start ≡ some (total, t))
        × Received source sink read count total start t
  receive_loop-Received fuel l =
      receive_loop-moves fuel 0 start
        (record { moved = []; from = refl; to = sym (append-nil (sink start)); as_many = refl })
        (omega arith) (omega (arith, l))
