-- ===== src/RaftService/Numbers.antt =====
-- std::to_string and std::stoull, by which raft_service.cpp stores the term and the vote.
use learn_git.Base.{
  ℕ, zero, suc, [], ◌∷◌, true, Bytes, some, ◌≤◌, ◌<◌, ◌≡◌, arith, ◌%◌, ◌+◌, u64, ◌/◌, Bool-cases,
  ◌*◌, ◌∙◌, ◌-◌, ltb, refl, ap, inl, inr, ltb→lt,
}
use learn_git.RaftService.Keys.{digits_before, to_string, read_digits, stoull, is_digit}

read_one :
    (acc d : ℕ) (ds : Bytes)
    → d < 10
    → read_digits acc ((48 + d) ∷ ds) ≡ read_digits (acc * 10 + d) ds
unfolding read_digits
read_one acc d ds h =
    let value : acc * 10 + (48 + d - 48) ≡ acc * 10 + d = omega arith in rw value (ground arith)

-- Reading the digits written in front of others gives the number, and goes on with those.
read_digits-digits_before :
    (rounds n : ℕ) (ds : Bytes)
    → n ≤ rounds
    → read_digits 0 (digits_before rounds n ds) ≡ read_digits n ds
unfolding digits_before
read_digits-digits_before zero n ds h =
    read_one 0 (n % 10) ds (omega arith) ∙ ap (λ m. read_digits m ds) (omega arith)
read_digits-digits_before (suc rounds) n ds h =
    let rest = read_digits-digits_before rounds (n / 10) ((48 + n % 10) ∷ ds) (omega arith) in
    let value : n / 10 * 10 + n % 10 ≡ n = omega arith in
    elim (Bool-cases (ltb n 10)) [
      | inl small ↦
          let one : 0 * 10 + n % 10 ≡ n = omega (arith, ltb→lt n 10 small) in
          rw small (read_one 0 (n % 10) ds (omega arith) ∙ ap (λ m. read_digits m ds) one)
      | inr large ↦
          rw large
            (rest ∙ read_one (n / 10) (n % 10) ds (omega arith) ∙ ap (λ m. read_digits m ds) value)
    ]

abbrev pub StartsWithDigit : Bytes → Type 0
StartsWithDigit [] = ⊥
StartsWithDigit (c ∷ cs) = is_digit c ≡ true

digits_before-StartsWithDigit :
    (rounds n : ℕ) (ds : Bytes) → StartsWithDigit (digits_before rounds n ds)
unfolding digits_before
digits_before-StartsWithDigit zero n ds = ground arith
digits_before-StartsWithDigit (suc rounds) n ds =
    let rest = digits_before-StartsWithDigit rounds (n / 10) ((48 + n % 10) ∷ ds) in
    elim (Bool-cases (ltb n 10)) [ inl small ↦ rw small (ground arith) | inr large ↦ rw large rest ]

stoull-read_digits :
    (text : Bytes) (n : ℕ)
    → StartsWithDigit text
    → read_digits 0 text ≡ n
    → n < u64
    → stoull text ≡ some n
unfolding stoull
stoull-read_digits [] n h e fit = absurd h
stoull-read_digits (c ∷ cs) n h e fit = ground arith

pub to_string-StartsWithDigit : (n : ℕ) → StartsWithDigit (to_string n)
unfolding to_string
to_string-StartsWithDigit n = digits_before-StartsWithDigit n n []

pub read_digits-to_string : (n : ℕ) → read_digits 0 (to_string n) ≡ n
unfolding to_string
read_digits-to_string n =
    read_digits-digits_before n n [] (omega arith) ∙ unfold read_digits in refl

-- What std::to_string writes of a number below 2^64 std::stoull reads back.
pub stoull-to_string : (n : ℕ) → n < u64 → stoull (to_string n) ≡ some n
stoull-to_string n fit =
    stoull-read_digits (to_string n) n (to_string-StartsWithDigit n) (read_digits-to_string n) fit
