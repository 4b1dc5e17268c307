-- ===== src/Wire/Pieces.antt =====
-- What the reading loop finds does not depend on the pieces in which the bytes arrive.
use mathlib.Core.Option.{some-injective}
use learn_git.Wire.Frames.{Next, waits, frame, overruns, next_frame, read_loop, read_frames}
use learn_git.Base.{
  ℕ, zero, suc, List, [], ◌∷◌, ◌++◌, Bytes, Option, none, some, ◌>>=◌, ◌≡◌, ◌≤◌, ◌<◌, length, arith,
  refl, ◌∙◌, sym, ap,
}
use learn_git.Wire.Prefix.{next_frame-IsFrame, IsFrame-next_frame, IsFrame-append, frame-length}

-- The frames of a first piece, and then those of the bytes that it leaves with the next piece.
abbrev pub join_frames :
    List (ℕ × Bytes) → Option (List (ℕ × Bytes) × Bytes) → Option (List (ℕ × Bytes) × Bytes)
join_frames fs none = none
join_frames fs (some (later, left)) = some (fs ++ later, left)

join_nil : (x : Option (List (ℕ × Bytes) × Bytes)) → join_frames [] x ≡ x
join_nil none = refl
join_nil (some (fs, left)) = refl

join-join :
    (f : ℕ × Bytes) (fs : List (ℕ × Bytes)) (x : Option (List (ℕ × Bytes) × Bytes))
    → join_frames (f ∷ []) (join_frames fs x) ≡ join_frames (f ∷ fs) x
join-join f fs none = refl
join-join f fs (some (later, left)) = refl

read_loop-waits : (n : ℕ) (buf : Bytes) → next_frame buf ≡ waits → read_loop n buf ≡ some ([], buf)
unfolding read_loop
read_loop-waits zero buf e = refl
read_loop-waits (suc n) buf e = rw (read_loop, e) refl

read_loop-overruns :
    (n : ℕ) (buf : Bytes) → next_frame buf ≡ overruns → read_loop (suc n) buf ≡ none
unfolding read_loop
read_loop-overruns n buf e = rw (read_loop, e) refl

joined :
    (type : ℕ) (payload : Bytes) (x : Option (List (ℕ × Bytes) × Bytes))
    → (x >>= λ later. some ((type, payload) ∷ later.0, later.1))
      ≡ join_frames ((type, payload) ∷ []) x
joined type payload none = refl
joined type payload (some (fs, left)) = refl

read_loop-frame :
    (n type : ℕ) (buf payload rest : Bytes)
    → next_frame buf ≡ frame type payload rest
    → read_loop (suc n) buf ≡ join_frames ((type, payload) ∷ []) (read_loop n rest)
unfolding read_loop
read_loop-frame n type buf payload rest e =
    rw (read_loop, e) (joined type payload (read_loop n rest))

-- More rounds than bytes change nothing.
enough_rounds :
    (n m : ℕ) (buf : Bytes) → length buf ≤ n → length buf ≤ m → read_loop n buf ≡ read_loop m buf
unfolding read_loop
enough_rounds zero m [] a b = sym (read_loop-waits m [] (unfold next_frame in refl))
enough_rounds zero m (x ∷ xs) a b = absurd (omega arith)
enough_rounds (suc n) zero [] a b = read_loop-waits (suc n) [] (unfold next_frame in refl)
enough_rounds (suc n) zero (x ∷ xs) a b = absurd (omega arith)
enough_rounds (suc n) (suc m) buf a b =
    go (λ rest less. enough_rounds n m rest (omega arith) (omega arith)) (next_frame buf) refl
  where
    go :
        ((rest : Bytes) → length rest < length buf → read_loop n rest ≡ read_loop m rest)
        → (x : Next) → next_frame buf ≡ x
        → read_loop (suc n) buf ≡ read_loop (suc m) buf
    go again waits e = read_loop-waits (suc n) buf e ∙ sym (read_loop-waits (suc m) buf e)
    go again overruns e = read_loop-overruns n buf e ∙ sym (read_loop-overruns m buf e)
    go again (frame type payload rest) e =
        let f = next_frame-IsFrame buf type payload rest e in
        read_loop-frame n type buf payload rest e
        ∙ ap (join_frames ((type, payload) ∷ []))
            (again rest (frame-length buf type payload rest f))
        ∙ sym (read_loop-frame m type buf payload rest e)

-- A frame at the front of a longer buffer is read first.
read_frames-frame :
    (type : ℕ) (buf payload rest : Bytes)
    → next_frame buf ≡ frame type payload rest
    → read_frames buf ≡ join_frames ((type, payload) ∷ []) (read_frames rest)
unfolding read_frames
read_frames-frame type buf payload rest e =
    let f = next_frame-IsFrame buf type payload rest e in
    let less = frame-length buf type payload rest f in
    enough_rounds (length buf) (suc (length buf)) buf (omega arith) (omega arith)
    ∙ read_loop-frame (length buf) type buf payload rest e
    ∙ ap (join_frames ((type, payload) ∷ []))
        (enough_rounds (length buf) (length rest) rest (omega arith) (omega arith))

-- The frames of a longer buffer, once those of the first piece are known.
abbrev Continues : Bytes → Bytes → List (ℕ × Bytes) → Bytes → Type 0
Continues buf more fs left = read_frames (buf ++ more) ≡ join_frames fs (read_frames (left ++ more))

same_result :
    (more : Bytes) (fs fs' : List (ℕ × Bytes)) (left left' : Bytes)
    → ◌≡◌ {A = Option (List (ℕ × Bytes) × Bytes)} (some (fs, left)) (some (fs', left'))
    → join_frames fs (read_frames (left ++ more)) ≡ join_frames fs' (read_frames (left' ++ more))
same_result more fs fs' left left' e =
    ap (λ (x : List (ℕ × Bytes) × Bytes). join_frames x.0 (read_frames (x.1 ++ more)))
      (some-injective (fs, left) (fs', left') e)

frame-Continues :
    (type : ℕ) (buf payload rest more : Bytes) (fs : List (ℕ × Bytes)) (left : Bytes)
    (y : Option (List (ℕ × Bytes) × Bytes))
    → next_frame buf ≡ frame type payload rest
    → ((fs' : List (ℕ × Bytes)) (left' : Bytes)
        → y ≡ some (fs', left')
        → Continues rest more fs' left')
    → join_frames ((type, payload) ∷ []) y ≡ some (fs, left)
    → Continues buf more fs left
frame-Continues type buf payload rest more fs left none q again e = ground arith
frame-Continues type buf payload rest more fs left (some (fs', left')) q again e =
    let f =
      IsFrame-append buf more type payload rest (next_frame-IsFrame buf type payload rest q) in
    let longer = IsFrame-next_frame (buf ++ more) type payload (rest ++ more) f in
    read_frames-frame type (buf ++ more) payload (rest ++ more) longer
    ∙ ap (join_frames ((type, payload) ∷ [])) (again fs' left' refl)
    ∙ join-join (type, payload) fs' (read_frames (left' ++ more))
    ∙ same_result more ((type, payload) ∷ fs') fs left' left e

pieces_loop :
    (n : ℕ) (buf more : Bytes) (fs : List (ℕ × Bytes)) (left : Bytes)
    → length buf ≤ n
    → read_loop n buf ≡ some (fs, left)
    → Continues buf more fs left
unfolding read_loop
pieces_loop zero buf more fs left a e =
    sym (join_nil (read_frames (buf ++ more))) ∙ same_result more [] fs buf left e
pieces_loop (suc n) buf more fs left a e =
    go (λ rest fs' left' less q. pieces_loop n rest more fs' left' (omega arith) q) (next_frame buf)
      refl
  where
    go :
        ((rest : Bytes) (fs' : List (ℕ × Bytes)) (left' : Bytes)
          → length rest < length buf
          → read_loop n rest ≡ some (fs', left')
          → Continues rest more fs' left')
        → (x : Next) → next_frame buf ≡ x
        → Continues buf more fs left
    go again waits q =
        sym (join_nil (read_frames (buf ++ more)))
        ∙ same_result more [] fs buf left (sym (read_loop-waits (suc n) buf q) ∙ e)
    go again overruns q =
        let no_end : ◌≡◌ {A = Option (List (ℕ × Bytes) × Bytes)} none (some (fs, left)) =
          sym (read_loop-overruns n buf q) ∙ e in
        ground arith
    go again (frame type payload rest) q =
        let less =
          frame-length buf type payload rest (next_frame-IsFrame buf type payload rest q) in
        frame-Continues type buf payload rest more fs left (read_loop n rest) q
          (λ fs' left' r. again rest fs' left' less r)
          (sym (read_loop-frame n type buf payload rest q) ∙ e)

left_of : Option (List (ℕ × Bytes) × Bytes) → Bytes
left_of none = []
left_of (some (fs, left)) = left

left-join_frames :
    (f : ℕ × Bytes) (y : Option (List (ℕ × Bytes) × Bytes))
    → left_of (join_frames (f ∷ []) y) ≡ left_of y
unfolding left_of
left-join_frames f none = refl
left-join_frames f (some (fs, left)) = refl

left_waits : (n : ℕ) (buf : Bytes) → length buf ≤ n → next_frame (left_of (read_loop n buf)) ≡ waits
unfolding read_loop left_of
left_waits zero [] a = unfold next_frame in refl
left_waits zero (x ∷ xs) a = absurd (omega arith)
left_waits (suc n) buf a = go (λ rest less. left_waits n rest (omega arith)) (next_frame buf) refl
  where
    go :
        ((rest : Bytes)
          → length rest < length buf
          → next_frame (left_of (read_loop n rest)) ≡ waits)
        → (x : Next) → next_frame buf ≡ x
        → next_frame (left_of (read_loop (suc n) buf)) ≡ waits
    go again waits q = ap (λ y. next_frame (left_of y)) (read_loop-waits (suc n) buf q) ∙ q
    go again overruns q =
        ap (λ y. next_frame (left_of y)) (read_loop-overruns n buf q) ∙ unfold next_frame in refl
    go again (frame type payload rest) q =
        let less =
          frame-length buf type payload rest (next_frame-IsFrame buf type payload rest q) in
        ap (λ y. next_frame (left_of y)) (read_loop-frame n type buf payload rest q)
        ∙ ap next_frame (left-join_frames (type, payload) (read_loop n rest))
        ∙ again rest less

-- The bytes of a connection may arrive in pieces. If the first piece is read without the failed
-- assertion, no whole frame is left in the buffer, and reading what is left together with the next
-- piece yields the frames, the bytes left and the failure that reading both pieces at once yields.
pub read_frames-append :
    (buf more left : Bytes) (fs : List (ℕ × Bytes))
    → read_frames buf ≡ some (fs, left)
    → (next_frame left ≡ waits)
      × (read_frames (buf ++ more) ≡ join_frames fs (read_frames (left ++ more)))
unfolding read_frames left_of
read_frames-append buf more left fs e = (
  sym (ap (λ y. next_frame (left_of y)) e) ∙ left_waits (length buf) buf (omega arith),
  pieces_loop (length buf) buf more fs left (omega arith) e,
)
