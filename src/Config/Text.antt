-- ===== src/Config/Text.antt =====
-- The calls of the standard library on texts that the readers make: std::getline, find, substr,
-- std::stoi, and a cast to uint16_t.
use learn_git.Base.{
  ℕ, zero, suc, ◌-◌, ◌%◌, ◌^◌, List, [], ◌∷◌, Bool, ◌&&◌, ◌||◌, leb, ◌==◌, if◌then◌else◌, Bytes,
  Option, none, some, ◌>>=◌,
}
use learn_git.RaftService.Keys.{is_digit, read_digits}

-- An int: a number, or minus its successor.
pub data ℤ : Type 0 where
  pos : ℕ → ℤ
  negsuc : ℕ → ℤ

-- A byte in front of the lines that follow it.
abbrev pub onto_first : ℕ → List Bytes → List Bytes
onto_first c [] = (c ∷ []) ∷ []
onto_first c (l ∷ ls) = (c ∷ l) ∷ ls

-- What std::getline yields until the end of the file.
unfoldable pub lines : Bytes → List Bytes
lines [] = []
lines (c ∷ cs) = let rest = lines cs in if c == 10 then [] ∷ rest else onto_first c rest

-- The texts before and after the first occurrence of a byte.
unfoldable pub split_at : ℕ → Bytes → Option (Bytes × Bytes)
split_at b [] = none
split_at b (c ∷ cs) =
    let rest = split_at b cs in
    if c == b then some ([], cs) else elim rest [ none ↦ none | some (l, r) ↦ some (c ∷ l, r) ]

abbrev pub is_space : ℕ → Bool
is_space c = (c == 32) || (leb 9 c && leb c 13)

unfoldable pub skip_spaces : Bytes → Bytes
skip_spaces [] = []
skip_spaces (c ∷ cs) = let rest = skip_spaces cs in if is_space c then rest else c ∷ cs

-- A magnitude, which has a digit at least and fits an int with its sign.
abbrev pub magnitude : ℕ → Bytes → Option ℕ
magnitude limit [] = none
magnitude limit (c ∷ cs) =
    if is_digit c && leb (read_digits 0 (c ∷ cs)) limit then some (read_digits 0 (c ∷ cs)) else none

abbrev pub negate : ℕ → ℤ
negate zero = pos 0
negate (suc n) = negsuc n

abbrev pub signed_int : Bytes → Option ℤ
signed_int [] = none
signed_int (c ∷ cs) =
    if c == b'-'
    then (do n ← magnitude (2 ^ 31) cs; some (negate n))
    else (do n ← magnitude (2 ^ 31 - 1) (if c == b'+' then cs else c ∷ cs); some (pos n))

-- std::stoi; an exception is `none`.
unfoldable pub stoi : Bytes → Option ℤ
unfolding skip_spaces
stoi text = signed_int (skip_spaces text)

-- static_cast<uint16_t>.
abbrev pub to_u16 : ℤ → ℕ
to_u16 (pos n) = n % 2 ^ 16
to_u16 (negsuc n) = (2 ^ 16 - suc n % 2 ^ 16) % 2 ^ 16
