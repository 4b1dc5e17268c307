-- ===== src/Pd/Coverage.antt =====
-- Which shard a key belongs to, after initShards.
use native.Mathlib.Decide.{ℕ_discrete, dec_le}
use learn_git.Base.{
  ℕ, zero, suc, [], ◌∷◌, true, false, Bytes, none, some, arith, refl, ◌≡◌, ◌<◌, ◌≤◌, ◌+◌, bytes_lt,
  ◌*◌, leb, ◌/◌, if◌then◌else◌, ◌%◌, ltb, Bool-cases, ap, inl, inr, min, subst, ◌-◌, sym, ◌∙◌,
}
use learn_git.Pd.Manager.{Manager, border, new_shard, shards_from, init_shards}
use learn_git.Pd.Router.{find_shard, get_shard_id, after_start, before_end_key, id_of}
use native.Mathlib.Nat.{
  mul_comm, le-div_iff_mul-le, div-mul-le_self, lt-mul-div-succ, mul-le-mul_right, mul-div-le,
}

-- Every border lies at or below the letter past z, so that it is not reduced.
border-byte : (n i : ℕ) → i ≤ n → (97 + i * (26 / n)) % 256 ≡ 97 + i * (26 / n)
border-byte n i h =
    let a : i * (26 / n) ≤ n * (26 / n) = mul-le-mul_right (26 / n) h in
    let b : n * (26 / n) ≤ 26 = mul-div-le 26 n in omega arith

one_byte : (c b : ℕ) (cs : Bytes) → bytes_lt (c ∷ cs) (b ∷ []) ≡ ltb c b
unfolding bytes_lt
one_byte c b [] = ground arith
one_byte c b (d ∷ cs) = ground arith

shard-holds :
    (n i c : ℕ) (cs : Bytes)
    → i < n
    → after_start (c ∷ cs) (new_shard n i) ≡ leb (97 + i * (26 / n)) c
unfolding new_shard border
shard-holds n i c cs h =
    rw (border-byte n i (omega arith), one_byte c (97 + i * (26 / n)) cs) (ground arith)

shard-ends :
    (n i c : ℕ) (cs : Bytes)
    → i < n
    → before_end_key (c ∷ cs) (new_shard n i)
      ≡ (if ltb (i + 1) n then ltb c (97 + (i + 1) * (26 / n)) else true)
unfolding new_shard border
shard-ends n i c cs h = elim (Bool-cases (ltb (i + 1) n)) [
  | inl t ↦ rw (t, border-byte n (i + 1) (ground arith), one_byte c (97 + (i + 1) * (26 / n)) cs)
  | inr f ↦ rw f
]

-- The byte lies in the range of the shard at position k.
abbrev pub IsInRange : ℕ → ℕ → ℕ → Type 0
IsInRange n k c = (97 + k * (26 / n) ≤ c) × (k + 1 < n → c < 97 + (k + 1) * (26 / n))

find-later :
    (n rounds i k c : ℕ) (cs : Bytes)
    → i + rounds ≡ n
    → i ≤ k
    → k < n
    → IsInRange n k c
    → find_shard (c ∷ cs) (shards_from n rounds i) ≡ some (new_shard n k)
unfolding find_shard shards_from
find-later n zero i k c cs e lo hi r = ground arith
find-later n (suc rounds) i k c cs e lo hi r =
    let below : i * (26 / n) ≤ k * (26 / n) = mul-le-mul_right (26 / n) lo in
    let start : leb (97 + i * (26 / n)) c ≡ true = ground arith in
    elim (ℕ_discrete i k) [
      | yes q ↦
          let end : (if ltb (i + 1) n then ltb c (97 + (i + 1) * (26 / n)) else true) ≡ true =
            let upper : i + 1 < n → c < 97 + (i + 1) * (26 / n) =
              subst (λ j. j + 1 < n → c < 97 + (j + 1) * (26 / n)) (sym q) r.1 in
            ground arith in
          rw (shard-holds n i c cs (omega arith), shard-ends n i c cs (omega arith), start, end)
            (ap (λ j. some (new_shard n j)) q)
      | no d ↦
          let above : (i + 1) * (26 / n) ≤ k * (26 / n) = mul-le-mul_right (26 / n) (omega arith) in
          let end : (if ltb (i + 1) n then ltb c (97 + (i + 1) * (26 / n)) else true) ≡ false =
            ground arith in
          rw (shard-holds n i c cs (omega arith), shard-ends n i c cs (omega arith), start, end)
            (find-later n rounds (i + 1) k c cs (omega arith) (omega arith) hi r)
    ]

-- The position that a byte from 'a' on belongs to.
abbrev pub shard_of : ℕ → ℕ → ℕ
shard_of n c = min ((c - 97) / (26 / n)) (n - 1)

shard_of-IsInRange :
    (n c : ℕ) → 0 < n → n ≤ 26 → 97 ≤ c → (shard_of n c < n) × IsInRange n (shard_of n c) c
shard_of-IsInRange n c pos small a =
    let w : 0 < 26 / n = (le-div_iff_mul-le pos).1 (omega arith) in
    let low : (c - 97) / (26 / n) * (26 / n) ≤ c - 97 = div-mul-le_self (c - 97) (26 / n) in
    let high : c - 97 < 26 / n * ((c - 97) / (26 / n) + 1) = lt-mul-div-succ (c - 97) w in
    let comm : 26 / n * ((c - 97) / (26 / n) + 1) ≡ ((c - 97) / (26 / n) + 1) * (26 / n) =
      mul_comm (26 / n) ((c - 97) / (26 / n) + 1) in
    elim (dec_le ((c - 97) / (26 / n)) (n - 1)) [
      | yes l ↦
          let m : shard_of n c ≡ (c - 97) / (26 / n) = omega arith in
          rw m (omega arith, (omega arith, λ h. omega arith))
      | no g ↦
          let m : shard_of n c ≡ n - 1 = omega arith in
          let le : (n - 1) * (26 / n) ≤ (c - 97) / (26 / n) * (26 / n) =
            mul-le-mul_right (26 / n) (omega arith) in
          rw m (omega arith, (omega arith, λ h. omega arith))
    ]

no_shard :
    (n rounds i c : ℕ) (cs : Bytes)
    → i + rounds ≡ n
    → c < 97
    → find_shard (c ∷ cs) (shards_from n rounds i) ≡ none
unfolding find_shard shards_from
no_shard n zero i c cs e h = refl
no_shard n (suc rounds) i c cs e h =
    let start : leb (97 + i * (26 / n)) c ≡ false = ground arith in
    rw (shard-holds n i c cs (omega arith), start) (no_shard n rounds (i + 1) c cs (omega arith) h)

-- With 1 to 26 shards, initShards gives a key whose first byte is 'a' or above to the shard that the
-- byte's distance from 'a' selects, the last shard taking the rest; a key whose first byte is below
-- 'a' is in no shard.
pub init_shards-get_shard_id :
    (n c : ℕ) (cs : Bytes) (m : Manager)
    → 0 < n
    → n ≤ 26
    → get_shard_id (c ∷ cs) (init_shards n m).shards ≡ (if ltb c 97 then 0 else shard_of n c + 1)
unfolding get_shard_id init_shards
init_shards-get_shard_id n c cs m pos small = elim (Bool-cases (ltb c 97)) [
  | inl t ↦ rw t (ap id_of (no_shard n n 0 c cs (omega arith) (ground arith)))
  | inr f ↦
      let r = shard_of-IsInRange n c pos small (ground arith) in
      rw f (
        ap id_of (find-later n n 0 (shard_of n c) c cs (omega arith) (omega arith) r.0 r.1)
        ∙ unfold new_shard in refl)
]
