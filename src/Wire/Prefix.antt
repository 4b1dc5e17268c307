-- ===== src/Wire/Prefix.antt =====
-- A whole frame at the front of a buffer, which stays one when more bytes arrive.

use learn_git.Wire.Frames.{read_length, frame, next_frame}
use learn_git.Base.{
  ℕ, zero, suc, [], ◌∷◌, ◌++◌, Bytes, ◌≡◌, ◌≤◌, ◌<◌, ◌+◌, length, take, drop, get_or, ltb, arith,
  refl, length-append, false, ◌%◌, length-drop, ◌∙◌, ◌^◌, sym, get_or-append_left, ap,
  take-append_left,
}

-- Everything that a frame says of the buffer that it was found in.
pub record IsFrame (buf : Bytes) (type : ℕ) (payload rest : Bytes) : Type 0 where
  pub header : 5 ≤ length buf
  pub fits : 5 + read_length buf ≤ length buf
  pub typed : type ≡ get_or buf 4 0
  pub taken : payload ≡ take (read_length buf) (drop 5 buf)
  pub left : rest ≡ drop (read_length buf) (drop 5 buf)

pub next_frame-IsFrame :
    (buf : Bytes) (type : ℕ) (payload rest : Bytes)
    → next_frame buf ≡ frame type payload rest
    → IsFrame buf type payload rest
unfolding next_frame
next_frame-IsFrame buf type payload rest e = record {
  header = ground arith;
  fits = ground arith;
  typed = ground arith;
  taken = ground arith;
  left = ground arith;
}

pub IsFrame-next_frame :
    (buf : Bytes) (type : ℕ) (payload rest : Bytes)
    → IsFrame buf type payload rest
    → next_frame buf ≡ frame type payload rest
unfolding next_frame
IsFrame-next_frame buf type payload rest f =
    let long : ltb (length buf) 5 ≡ false = ground (arith, f.header) in
    let passes : ltb (length buf) ((5 + read_length buf) % 2 ^ 32) ≡ false =
      ground (arith, f.fits) in
    let whole : ltb (length buf) (5 + read_length buf) ≡ false = ground (arith, f.fits) in
    rw (long, passes, whole, f.typed, f.taken, f.left) refl

read_length-append :
    (buf more : Bytes) → 5 ≤ length buf → read_length (buf ++ more) ≡ read_length buf
unfolding read_length
read_length-append (a ∷ b ∷ c ∷ d ∷ buf) more h = refl
read_length-append (a ∷ b ∷ c ∷ []) more h = absurd (omega arith)
read_length-append (a ∷ b ∷ []) more h = absurd (omega arith)
read_length-append (a ∷ []) more h = absurd (omega arith)
read_length-append [] more h = absurd (omega arith)

drop-append_left : (n : ℕ) (xs ys : Bytes) → n ≤ length xs → drop n (xs ++ ys) ≡ drop n xs ++ ys
drop-append_left zero xs ys h = refl
drop-append_left (suc n) [] ys h = absurd (omega arith)
drop-append_left (suc n) (x ∷ xs) ys h = drop-append_left n xs ys (omega arith)

-- A frame is found in a longer buffer too, with the further bytes after it.
pub IsFrame-append :
    (buf more : Bytes) (type : ℕ) (payload rest : Bytes)
    → IsFrame buf type payload rest
    → IsFrame (buf ++ more) type payload (rest ++ more)
IsFrame-append buf more type payload rest f =
    let size = length-append buf more in
    let len = read_length-append buf more f.header in
    let body = drop-append_left 5 buf more f.header in
    let enough : read_length buf ≤ length (drop 5 buf) =
      omega (arith, length-drop 5 buf, f.fits, f.header) in
    let moved = λ (cut : ℕ → Bytes → Bytes).
      ap (λ n. cut n (drop 5 (buf ++ more))) len ∙ ap (cut (read_length buf)) body in
    record {
      header = omega (arith, size, f.header);
      fits = omega (arith, size, len, f.fits);
      typed = f.typed ∙ sym (get_or-append_left buf more 4 0 (omega (arith, f.header)));
      taken =
          f.taken
          ∙ sym (take-append_left (read_length buf) (drop 5 buf) more enough)
          ∙ sym (moved (λ n xs. take n xs));
      left =
          ap (λ r. r ++ more) f.left
          ∙ sym (drop-append_left (read_length buf) (drop 5 buf) more enough)
          ∙ sym (moved (λ n xs. drop n xs));
    }

pub frame-length :
    (buf : Bytes) (type : ℕ) (payload rest : Bytes)
    → IsFrame buf type payload rest
    → length rest < length buf
frame-length buf type payload rest f = omega (
  arith,
  ap length f.left,
  length-drop (read_length buf) (drop 5 buf),
  length-drop 5 buf,
  f.header,
)
