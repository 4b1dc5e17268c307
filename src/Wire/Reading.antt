-- ===== src/Wire/Reading.antt =====
-- What the reading loop finds in what was written.
use mathlib.Core.List.{append_assoc, append-nil}
use learn_git.Base.{
  ℕ, zero, suc, List, [], ◌∷◌, ◌++◌, false, Bytes, some, arith, refl, ◌≡◌, ◌<◌, length, take, drop,
  length-append, ◌^◌, ◌+◌, ◌%◌, ltb, ◌≤◌, none, true, subst,
}
use learn_git.RaftService.Keys.{be_bytes}
use learn_git.Wire.Frames.{
  frame_bytes, read_length, waits, frame, next_frame, read_loop, read_frames, overruns,
}

pub read_length-be_bytes :
    (n : ℕ) (rest : Bytes) → n < 2 ^ 32 → read_length (be_bytes 4 n ++ rest) ≡ n
unfolding read_length be_bytes
read_length-be_bytes n rest h = omega arith

take_own : (xs ys : Bytes) → take (length xs) (xs ++ ys) ≡ xs
take_own [] ys = refl
take_own (x ∷ xs) ys = rw (take_own xs ys)

drop_own : (xs ys : Bytes) → drop (length xs) (xs ++ ys) ≡ ys
drop_own [] ys = refl
drop_own (x ∷ xs) ys = drop_own xs ys

next-frame_bytes :
    (type : ℕ) (payload rest : Bytes)
    → length payload + 5 < 2 ^ 32
    → next_frame (frame_bytes type payload ++ rest) ≡ frame type payload rest
unfolding next_frame frame_bytes be_bytes
next-frame_bytes type payload rest h =
    let len = read_length-be_bytes (length payload) (type ∷ payload ++ rest) (omega arith) in
    let total = length-append payload rest in
    let whole : (5 + length payload) % 2 ^ 32 ≡ 5 + length payload = omega arith in
    let size : length (frame_bytes type payload ++ rest) ≡ 5 + length payload + length rest =
      omega (arith, total) in
    let long : ltb (length (frame_bytes type payload ++ rest)) 5 ≡ false = ground arith in
    let fits : ltb (length (frame_bytes type payload ++ rest)) (5 + length payload) ≡ false =
      ground arith in
    rw (len, whole, long, fits) (rw (take_own payload rest, drop_own payload rest))

-- The frames one after another.
unfoldable pub write_frames : List (ℕ × Bytes) → Bytes
write_frames [] = []
write_frames ((type, payload) ∷ fs) = frame_bytes type payload ++ write_frames fs

-- Every payload fits a frame.
abbrev pub AllFit : List (ℕ × Bytes) → Type 0
AllFit [] = Unit {0}
AllFit ((type, payload) ∷ fs) = (length payload + 5 < 2 ^ 32) × AllFit fs

read-write_frames :
    (rounds : ℕ) (fs : List (ℕ × Bytes)) (tail : Bytes)
    → length fs ≤ rounds
    → AllFit fs
    → next_frame tail ≡ waits
    → read_loop rounds (write_frames fs ++ tail) ≡ some (fs, tail)
unfolding read_loop write_frames
read-write_frames zero [] tail h fit e = refl
read-write_frames zero (f ∷ fs) tail h fit e = absurd (omega arith)
read-write_frames (suc rounds) [] tail h fit e = rw (e, read_loop)
read-write_frames (suc rounds) ((type, payload) ∷ fs) tail h fit e = rw (
  append_assoc (frame_bytes type payload) (write_frames fs) tail,
  next-frame_bytes type payload (write_frames fs ++ tail) fit.0,
  read_loop,
  read-write_frames rounds fs tail (omega arith) fit.1 e,
)

write_frames_long : (fs : List (ℕ × Bytes)) → length fs ≤ length (write_frames fs)
unfolding write_frames frame_bytes be_bytes
write_frames_long [] = omega arith
write_frames_long ((type, payload) ∷ fs) =
    omega (arith, length-append payload (write_frames fs), write_frames_long fs)

-- The frames that were written one after another are read back in order, each with its type and
-- payload, and the beginning of a further frame stays in the buffer, if every payload is shorter
-- than 2^32 - 5 bytes.
pub read_frames-write_frames :
    (fs : List (ℕ × Bytes)) (tail : Bytes)
    → AllFit fs
    → next_frame tail ≡ waits
    → read_frames (write_frames fs ++ tail) ≡ some (fs, tail)
unfolding read_frames
read_frames-write_frames fs tail fit e =
    read-write_frames _ fs tail
      (omega (arith, write_frames_long fs, length-append (write_frames fs) tail)) fit e

pub read_one_frame :
    (type : ℕ) (payload tail : Bytes)
    → length payload + 5 < 2 ^ 32
    → next_frame tail ≡ waits
    → read_frames (frame_bytes type payload ++ tail) ≡ some ((type, payload) ∷ [], tail)
unfolding write_frames
read_one_frame type payload tail fit e =
    subst (λ b. read_frames (b ++ tail) ≡ some ((type, payload) ∷ [], tail))
      (append-nil (frame_bytes type payload))
      (read_frames-write_frames ((type, payload) ∷ []) tail (fit, tt) e)

next_frame_overruns :
    (buf : Bytes)
    → 5 ≤ length buf
    → 2 ^ 32 ≤ 5 + read_length buf
    → read_length buf < 2 ^ 32
    → length buf < 5 + read_length buf
    → next_frame buf ≡ overruns
unfolding next_frame
next_frame_overruns buf a b c d =
    let small : (5 + read_length buf) % 2 ^ 32 < 5 = omega arith in
    let long : ltb (length buf) 5 ≡ false = ground arith in
    let passes : ltb (length buf) ((5 + read_length buf) % 2 ^ 32) ≡ false = ground arith in
    let short : ltb (length buf) (5 + read_length buf) ≡ true = ground arith in
    rw (long, passes, short)

-- A length of 2^32 - 5 or more makes the sum with the header's size wrap around, so that the frame
-- is taken though its bytes are not there.
pub huge_length_overruns :
    (buf : Bytes)
    → 5 ≤ length buf
    → 2 ^ 32 ≤ 5 + read_length buf
    → read_length buf < 2 ^ 32
    → length buf < 5 + read_length buf
    → read_frames buf ≡ none
unfolding read_frames
huge_length_overruns [] a b c d = absurd (omega arith)
huge_length_overruns (x ∷ xs) a b c d = rw (next_frame_overruns (x ∷ xs) a b c d, read_loop)
