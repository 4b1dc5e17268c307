-- ===== src/Wire/Examples.antt =====
-- The theorems about frames at concrete buffers.

use learn_git.Wire.Reading.{write_frames, read_frames-write_frames}
use learn_git.Wire.Pieces.{join_frames, read_frames-append}
use learn_git.Wire.Frames.{waits, next_frame, read_length, read_frames}
use learn_git.Base.{ℕ, List, [], ◌∷◌, ◌++◌, Bytes, some, arith, refl, ◌≡◌}

abbrev two_frames : List (ℕ × Bytes)
two_frames = (0, 7 ∷ 8 ∷ []) ∷ (1, []) ∷ []

read_frames-write_frames_example :
    read_frames (write_frames two_frames ++ 0 ∷ 0 ∷ []) ≡ some (two_frames, 0 ∷ 0 ∷ [])
unfolding next_frame
read_frames-write_frames_example =
    read_frames-write_frames two_frames (0 ∷ 0 ∷ []) (omega arith, (omega arith, tt)) refl

-- A frame with one byte and the beginning of a next one, which the second piece completes.
abbrev first_piece : Bytes
first_piece = 0 ∷ 0 ∷ 0 ∷ 1 ∷ 0 ∷ 7 ∷ 0 ∷ 0 ∷ []

read_frames-append_example :
    (next_frame (0 ∷ 0 ∷ []) ≡ waits)
    × (read_frames (first_piece ++ 0 ∷ 0 ∷ 1 ∷ [])
        ≡ join_frames ((0, 7 ∷ []) ∷ []) (read_frames ((0 ∷ 0 ∷ []) ++ 0 ∷ 0 ∷ 1 ∷ [])))
unfolding read_frames next_frame read_length
read_frames-append_example =
    read_frames-append first_piece (0 ∷ 0 ∷ 1 ∷ []) (0 ∷ 0 ∷ []) ((0, 7 ∷ []) ∷ []) refl
