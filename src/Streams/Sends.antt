-- ===== src/Streams/Sends.antt =====
-- truenas_pyjsonrpc/transfer.py: `_write_all` and `sendfile`, and the bytes that they move.
use truenas_jsonrpc.Base.{
  ℕ, zero, suc, ◌+◌, ◌-◌, ◌<◌, ◌≤◌, ◌≡◌, ◌⊎◌, inl, inr, refl, sym, ap, ◌∙◌, Bool-cases, Option,
  some, [], ◌∷◌, ◌++◌, length, take, drop, ltb, nat_eq, arith,
}
use mathlib.Core.Option.{some-injective, none-ne-some}
use mathlib.Core.List.{append_assoc, append-nil}
use truenas_jsonrpc.Streams.{Bytes, Write, SendFile, write_all, send_loop, sendfile, count_or_rest}

take-nil : (n : ℕ) → take {A = ℕ} n [] ≡ []
take-nil zero = refl
take-nil (suc n) = refl

drop-nil : (n : ℕ) → drop {A = ℕ} n [] ≡ []
drop-nil zero = refl
drop-nil (suc n) = refl

pub take-drop : (n : ℕ) (b : Bytes) → take n b ++ drop n b ≡ b
take-drop zero b = refl
take-drop (suc n) [] = refl
take-drop (suc n) (x ∷ b) = ap (λ (l : Bytes). x ∷ l) (take-drop n b)

pub length-drop : (n : ℕ) (b : Bytes) → length (drop n b) ≡ length b - n
length-drop zero b = omega arith
length-drop (suc n) [] = omega arith
length-drop (suc n) (x ∷ b) = omega (arith, length-drop n b)

pub take-add : (m n : ℕ) (b : Bytes) → take (m + n) b ≡ take m b ++ take n (drop m b)
take-add zero n b = let e : 0 + n ≡ n = omega arith in rw e refl
take-add (suc m) n [] = take-nil (suc m + n) ∙ sym (take-nil n)
take-add (suc m) n (x ∷ b) =
    let e : suc m + n ≡ suc (m + n) = omega arith in
    rw e (ap (λ (l : Bytes). x ∷ l) (take-add m n b))

pub drop-add : (m n : ℕ) (b : Bytes) → drop n (drop m b) ≡ drop (m + n) b
drop-add zero n b = let e : 0 + n ≡ n = omega arith in rw e refl
drop-add (suc m) n [] = drop-nil n ∙ sym (drop-nil (suc m + n))
drop-add (suc m) n (x ∷ b) = let e : suc m + n ≡ suc (m + n) = omega arith in rw e (drop-add m n b)

-- `os.write` on a blocking descriptor: it takes a part of the data from its start, some at least, and
-- says how much.
pub record IsWrite {S : Type 0} (sink : S → Bytes) (write : Write S) : Type 0 where
  pub writes : (s : S) (b : Bytes) → sink (write s b).0 ≡ sink s ++ take (write s b).1 b
  pub at_most : (s : S) (b : Bytes) → (write s b).1 ≤ length b
  pub progress : (s : S) (b : Bytes) → 0 < length b → 0 < (write s b).1

-- `os.sendfile` from a file with these bytes.
pub record IsSend {S : Type 0} (file : Bytes) (sink : S → Bytes) (send : SendFile S) : Type 0 where
  pub sends :
      (s : S) (offset count : ℕ)
      → sink (send s offset count).0 ≡ sink s ++ take (send s offset count).1 (drop offset file)
  pub at_most : (s : S) (offset count : ℕ) → (send s offset count).1 ≤ count
  pub of_file : (s : S) (offset count : ℕ) → (send s offset count).1 ≤ length (drop offset file)

module _ {S : Type 0} (sink : S → Bytes) where
  -- `_write_all` ends, and the whole buffer has been written, whatever parts `os.write` takes, as long
  -- as each call takes something: fuel for one round a byte and one more is enough.
  pub write_all-writes :
      (write : Write S) (n : ℕ) (b : Bytes) (s : S)
      → IsWrite sink write
      → length b < n
      → (t : S) × (write_all write n b s ≡ some t) × (sink t ≡ sink s ++ b)
  unfolding write_all
  write_all-writes write zero b s w l = absurd (omega (arith, l))
  write_all-writes write (suc n) [] s w l = (s, refl, sym (append-nil (sink s)))
  write_all-writes write (suc n) (x ∷ b) s w l =
      let r = write s (x ∷ b) in
      let less : length (drop r.1 (x ∷ b)) < n = omega (
        arith,
        l,
        length-drop r.1 (x ∷ b),
        w.progress s (x ∷ b) (omega arith),
        w.at_most s (x ∷ b),
      ) in
      let (t, e, h) = write_all-writes write n (drop r.1 (x ∷ b)) r.0 w less in
      (
        t,
        e,
        h
            ∙ ap (λ (l : Bytes). l ++ drop r.1 (x ∷ b)) (w.writes s (x ∷ b))
            ∙ append_assoc (sink s) (take r.1 (x ∷ b)) (drop r.1 (x ∷ b))
            ∙ ap (λ (l : Bytes). sink s ++ l) (take-drop r.1 (x ∷ b)),
      )

  -- The peer took nothing more: what `sendfile` stops at before its count.
  abbrev pub HasEnded : SendFile S → (offset count total : ℕ) → S → Type 0
  HasEnded send offset count total t = (s : S) × (send s (offset + total) (count - total) ≡ (t, 0))

  module _ (file : Bytes) (send : SendFile S) (w : IsSend file sink send) (offset count : ℕ) where
    next-sink :
        (base : Bytes) (sent : ℕ) (s : S)
        → sink s ≡ base ++ take sent (drop offset file)
        → let r = send s (offset + sent) (count - sent) in
          sink r.0 ≡ base ++ take (sent + r.1) (drop offset file)
    next-sink base sent s h =
        let r = send s (offset + sent) (count - sent) in
        w.sends s (offset + sent) (count - sent)
        ∙ ap (λ (l : Bytes). l ++ take r.1 (drop (offset + sent) file)) h
        ∙ append_assoc base (take sent (drop offset file)) (take r.1 (drop (offset + sent) file))
        ∙ ap (λ (l : Bytes). base ++ (take sent (drop offset file) ++ take r.1 l))
            (sym (drop-add offset sent file))
        ∙ ap (λ (l : Bytes). base ++ l) (sym (take-add sent r.1 (drop offset file)))

    send_loop-sends :
        (base : Bytes) (n sent : ℕ) (s : S)
        → sink s ≡ base ++ take sent (drop offset file)
        → sent ≤ count
        → sent ≤ length (drop offset file)
        → count - sent < n
        → (total : ℕ) × (t : S) × (send_loop send n offset count sent s ≡ some (total, t))
          × (total ≤ count)
          × (total ≤ length (drop offset file))
          × (sink t ≡ base ++ take total (drop offset file))
          × ((total ≡ count) ⊎ HasEnded send offset count total t)
    unfolding send_loop
    send_loop-sends base zero sent s h m f l = absurd (omega (arith, l))
    send_loop-sends base (suc n) sent s h m f l = elim (Bool-cases (ltb sent count)) [
      | inr no_more ↦ (sent, s, rw no_more refl, m, f, h, inl (ground (arith, no_more, m)))
      | inl more ↦
          let r = send s (offset + sent) (count - sent) in
          let bound = w.at_most s (offset + sent) (count - sent) in
          let sunk = next-sink base sent s h in
          elim (Bool-cases (nat_eq r.1 0)) [
            | inl nothing ↦
                let z : r.1 ≡ 0 = ground (arith, nothing) in
                (
                  sent,
                  r.0,
                  rw (more, nothing) refl,
                  m,
                  f,
                  sunk ∙ ap (λ (j : ℕ). base ++ take j (drop offset file)) (omega (arith, z)),
                  inr (s, ap (λ (j : ℕ). (r.0, j)) z),
                )
            | inr some_sent ↦
                let lt : sent < count = ground (arith, more) in
                let pos : 0 < r.1 = ground (arith, some_sent) in
                let more_file : sent + r.1 ≤ length (drop offset file) = omega (
                  arith,
                  f,
                  w.of_file s (offset + sent) (count - sent),
                  length-drop sent (drop offset file),
                  ap length (drop-add offset sent file),
                ) in
                let (total, t, e, b, g, k, x) =
                  send_loop-sends base n (sent + r.1) r.0 sunk (omega (arith, bound, lt)) more_file
                    (omega (arith, l, pos, bound, lt)) in
                (total, t, rw (more, some_sent) e, b, g, k, x)
          ]
    ]

  -- `sendfile` ends and tells the truth: what it returns is how many bytes of the file, from the
  -- offset on, were sent, in order, no more than the count (or the rest of the file), and all of them
  -- unless a call sent nothing. Fuel for one round a byte and one more is enough.
  pub sendfile-sends :
      (file : Bytes) (send : SendFile S) (fuel : ℕ) (o : Option ℕ) (offset : ℕ) (s : S)
      → IsSend file sink send
      → count_or_rest o (length file) offset < fuel
      → let count = count_or_rest o (length file) offset in
        (total : ℕ) × (t : S) × (sendfile send fuel o (length file) offset s ≡ some (total, t))
        × (total ≤ count)
        × (total ≤ length (drop offset file))
        × (sink t ≡ sink s ++ take total (drop offset file))
        × ((total ≡ count) ⊎ HasEnded send offset count total t)
  unfolding sendfile
  sendfile-sends file send fuel o offset s w l =
      send_loop-sends file send w offset (count_or_rest o (length file) offset) (sink s) fuel 0 s
        (sym (append-nil (sink s))) (omega arith) (omega arith) (omega (arith, l))

-- What `os.write` leaves alone, `_write_all` does.
pub write_all-keeps :
    {S : Type 0} (source : S → Bytes) (write : Write S) (n : ℕ) (b : Bytes) (s t : S)
    → ((s : S) (b : Bytes) → source (write s b).0 ≡ source s)
    → write_all write n b s ≡ some t
    → source t ≡ source s
unfolding write_all
write_all-keeps source write zero b s t k e = absurd (none-ne-some t e)
write_all-keeps source write (suc n) [] s t k e = ap source (sym (some-injective s t e))
write_all-keeps source write (suc n) (x ∷ b) s t k e =
    write_all-keeps source write n (drop (write s (x ∷ b)).1 (x ∷ b)) (write s (x ∷ b)).0 t k e
    ∙ k s (x ∷ b)
