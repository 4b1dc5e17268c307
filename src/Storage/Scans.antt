-- ===== src/Storage/Scans.antt =====
-- What a range scan returns (RocksEngine::scan).
use learn_git.Base.{
  ℕ, zero, suc, List, [], ◌∷◌, Bool, true, false, Bytes, bytes_lt, bytes_lt_trans, ◌≡◌, is_empty,
  ◌↔◌, if◌then◌else◌, Bool-cases, inl, ◌||◌, take, some, arith, ltb, ◌∙◌, inr, length, take_all,
  subst, ◌-◌, refl,
}
use learn_git.Storage.Rocks.{RocksDb, IsAscending, AllAbove, Holds}
use learn_git.Storage.Engine.{scan_loop, engine_scan}

-- The key is below the end of the range; the empty end key stands for no end.
abbrev pub before_end : Bytes → Bytes → Bool
before_end end_key k = is_empty end_key || bytes_lt k end_key

-- The entries before the first key that reaches the end.
unfoldable pub in_range : Bytes → List (Bytes × Bytes) → List (Bytes × Bytes)
in_range end_key [] = []
in_range end_key ((k, v) ∷ es) =
    let rest = in_range end_key es in if before_end end_key k then (k, v) ∷ rest else []

-- The loop returns the first entries of the range, as many as the limit allows, and says that
-- there are more exactly when it left some out.
pub scan_loop-in_range :
    (end_key : Bytes) (room : ℕ) (es : List (Bytes × Bytes))
    → ((scan_loop end_key room es).kvs ≡ take room (in_range end_key es))
      × ((scan_loop end_key room es).has_more ≡ ltb room (length (in_range end_key es)))
unfolding scan_loop in_range
scan_loop-in_range end_key zero [] = (refl, ground arith)
scan_loop-in_range end_key (suc room) [] = (refl, ground arith)
scan_loop-in_range end_key zero ((k, v) ∷ es) = ground arith
scan_loop-in_range end_key (suc room) ((k, v) ∷ es) =
    let one : suc room - 1 ≡ room = omega arith in
    rw one (ground (arith, scan_loop-in_range end_key room es))

above-before_end :
    (end_key k j w : Bytes) (es : List (Bytes × Bytes))
    → AllAbove k es
    → Holds j w es
    → before_end end_key j ≡ true
    → before_end end_key k ≡ true
above-before_end end_key k j w [] a h b = absurd h
above-before_end end_key k j w ((i, v) ∷ es) a (inl e) b =
    let below : bytes_lt k j ≡ true = rw e.0 a.0 in ground (arith, bytes_lt_trans k j end_key)
above-before_end end_key k j w ((i, v) ∷ es) a (inr h) b = above-before_end end_key k j w es a.1 h b

-- Among rising keys the range holds exactly the entries before the end.
pub in_range-Holds :
    (end_key j w : Bytes) (es : List (Bytes × Bytes))
    → IsAscending es
    → Holds j w (in_range end_key es) ↔ (Holds j w es × (before_end end_key j ≡ true))
unfolding in_range
in_range-Holds end_key j w [] a = (λ h. absurd h, λ h. absurd h.0)
in_range-Holds end_key j w ((k, v) ∷ es) a =
    let rest = in_range-Holds end_key j w es a.1 in
    elim (Bool-cases (before_end end_key k)) [
      | inl t ↦ rw t (
        λ h. elim h [ inl e ↦ (inl e, rw e.0 t) | inr h' ↦ (inr (rest.0 h').0, (rest.0 h').1) ],
        λ h. elim h.0 [ inl e ↦ inl e | inr h' ↦ inr (rest.1 (h', h.1)) ],
      )
      | inr f ↦ rw f (
        λ h. absurd h,
        λ h. elim h.0 [
          | inl e ↦ absurd (cc (subst (λ i. before_end end_key i ≡ true) e.0 h.1))
          | inr h' ↦ absurd (cc (above-before_end end_key k j w es a.0 h' h.1))
        ],
      )
    ]

module _ (r : RocksDb) where
  open r use {Db, contents, seek, seek_holds, seek_all, seek_ascends}

  -- A scan that stops before its limit, with an iterator that would come to the end of the keys without
  -- an error, returns exactly the pairs of the database whose key lies in the half-open range.
  pub engine_scan-Holds :
      (db : Db) (start_key end_key : Bytes) (limit : ℕ) (k v : Bytes)
      → r.seek_ok db start_key ≡ true
      → (engine_scan r db start_key end_key limit).has_more ≡ false
      → Holds k v (engine_scan r db start_key end_key limit).kvs ↔ (
          (contents db k ≡ some v) × (bytes_lt k start_key ≡ false) × (before_end end_key k ≡ true))
  unfolding engine_scan
  engine_scan-Holds db start_key end_key limit k v sound done =
      let spec = scan_loop-in_range end_key limit (seek db start_key) in
      let all = in_range-Holds end_key k v (seek db start_key) (seek_ascends db start_key) in
      let whole : (scan_loop end_key limit (seek db start_key)).kvs
          ≡ in_range end_key (seek db start_key) =
        spec.0 ∙ take_all limit (in_range end_key (seek db start_key)) (ground arith) in
      rw whole (
        λ h. let m = all.0 h in let c = seek_holds db start_key k v m.0 in (c.0, c.1, m.1),
        λ h. all.1 (seek_all db start_key k v sound h.0 h.1, h.2),
      )
