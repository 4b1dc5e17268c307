-- ===== src/Client/Addresses.antt =====
-- The address that connect writes, "ip:port", is the one that sendToAddr reads.
use learn_git.RaftService.Keys.{read_digits, to_string}
use learn_git.RaftService.Numbers.{
  StartsWithDigit, to_string-StartsWithDigit, read_digits-to_string,
}
use learn_git.Base.{ℕ, ◌<◌, Bytes, ◌++◌, ◌^◌, ◌∷◌, ◌==◌, ◌≡◌, some, false, arith, []}
use learn_git.Config.Text.{split_at, stoi, skip_spaces, pos}

-- The byte does not occur in the text.
abbrev pub Lacks : ℕ → Bytes → Type 0
Lacks b [] = Unit {0}
Lacks b (c ∷ cs) = ((c == b) ≡ false) × Lacks b cs

pub split_at-append :
    (b : ℕ) (left right : Bytes)
    → Lacks b left
    → split_at b (left ++ b ∷ right) ≡ some (left, right)
unfolding split_at
split_at-append b [] right h = ground arith
split_at-append b (c ∷ left) right h = rw (h.0, split_at-append b left right h.1)

stoi-StartsWithDigit :
    (text : Bytes) (n : ℕ)
    → StartsWithDigit text
    → read_digits 0 text ≡ n
    → n < 2 ^ 31
    → stoi text ≡ some (pos n)
unfolding stoi skip_spaces
stoi-StartsWithDigit [] n h e fit = absurd h
stoi-StartsWithDigit (c ∷ cs) n h e fit = ground arith

pub stoi-to_string : (n : ℕ) → n < 2 ^ 31 → stoi (to_string n) ≡ some (pos n)
stoi-to_string n fit =
    stoi-StartsWithDigit (to_string n) n (to_string-StartsWithDigit n) (read_digits-to_string n) fit
