-- ===== src/Tests/Frames.antt =====
-- The theorems on framing, each at a concrete input.
use truenas_jsonrpc.Base.{
  ℕ, List, [], ◌∷◌, ◌++◌, take, some, ◌≡◌, ◌≢◌, refl, ◌≤◌, All, length, arith,
}
use truenas_jsonrpc.Framing.{frame, read_message, ended, read_all, at_end, out_of_fuel}
use truenas_jsonrpc.Framing.Laws.{read_message-take, frame_all, read_all-frame_all, read_all-ends}

abbrev hello : List ℕ
hello = 123 ∷ 125 ∷ []

abbrev hello_frame : List ℕ
hello_frame = 0 ∷ 0 ∷ 0 ∷ 2 ∷ 123 ∷ 125 ∷ []

hello_framed : frame hello ≡ some hello_frame
unfolding frame
hello_framed = refl

read_message-take_example : read_message 16 (take 5 hello_frame) ≡ ended
read_message-take_example =
    read_message-take 16 5 hello hello_frame hello_framed (omega arith) (omega arith)

two_framed : frame_all (hello ∷ hello ∷ []) ≡ some (hello_frame ++ hello_frame)
unfolding frame_all
two_framed = refl

read_all-frame_all_example :
    read_all 3 16 (hello_frame ++ hello_frame) ≡ (hello ∷ hello ∷ [], at_end)
read_all-frame_all_example =
    read_all-frame_all 16 3 (hello ∷ hello ∷ []) (hello_frame ++ hello_frame) two_framed
      (omega arith, (omega arith, tt)) (omega arith)

read_all-ends_example :
    ((read_all 9 1 hello_frame).1 ≢ out_of_fuel)
    × All (λ m. length m ≤ 1) (read_all 9 1 hello_frame).0
read_all-ends_example = read_all-ends 1 9 hello_frame (omega arith)
