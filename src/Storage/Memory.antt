-- ===== src/Storage/Memory.antt =====
-- A database kept as the list of its operations, newest first: it shows that RocksDB's documented
-- laws can be met, and the examples run on it.
use learn_git.Base.{
  List, [], ◌∷◌, Bool, true, Bytes, inl, if◌then◌else◌, arith, bytes_lt, ◌≡◌, Bool-cases, ◌↔◌, not,
  Option, bytes_eq, some, none, inr, bytes_lt_irrefl, bytes_lt_trans, subst, bytes_eq_iff, ap, sym,
  refl, ◌∙◌, bytes_lt_total, false, ◌≢◌,
}
use learn_git.Storage.Rocks.{
  Op, put, delete, AllAbove, IsAscending, Holds, GetStatus, apply_op, RocksDb, apply_ops,
}

unfoldable pub insert : Bytes → Bytes → List (Bytes × Bytes) → List (Bytes × Bytes)
insert k v [] = (k, v) ∷ []
insert k v ((j, w) ∷ es) =
    let rest = insert k v es in
    if bytes_lt k j
    then (k, v) ∷ (j, w) ∷ es
    else if bytes_eq k j
    then (k, v) ∷ es
    else (j, w) ∷ rest

-- Keeps the entries whose key passes the test.
unfoldable pub keep : (Bytes → Bool) → List (Bytes × Bytes) → List (Bytes × Bytes)
keep p [] = []
keep p ((j, w) ∷ es) = let rest = keep p es in if p j then (j, w) ∷ rest else rest

unfoldable pub lookup : Bytes → List (Bytes × Bytes) → Option Bytes
lookup j [] = none
lookup j ((k, v) ∷ es) = let rest = lookup j es in if bytes_eq k j then some v else rest

unfoldable pub table : List Op → List (Bytes × Bytes)
unfolding insert keep
table [] = []
table (put k v ∷ os) = insert k v (table os)
table (delete k ∷ os) = keep (λ j. not (bytes_eq k j)) (table os)

lookup-insert :
    (k v j : Bytes) (es : List (Bytes × Bytes))
    → lookup j (insert k v es) ≡ (if bytes_eq k j then some v else lookup j es)
unfolding lookup insert
lookup-insert k v j [] = refl
lookup-insert k v j ((i, w) ∷ es) =
    ground (arith, bytes_eq_iff k j, bytes_eq_iff k i, bytes_eq_iff i j, lookup-insert k v j es)

lookup-keep :
    (p : Bytes → Bool) (j : Bytes) (es : List (Bytes × Bytes))
    → lookup j (keep p es) ≡ (if p j then lookup j es else none)
unfolding lookup keep
lookup-keep p j [] = ground arith
lookup-keep p j ((i, w) ∷ es) = elim (Bool-cases (bytes_eq i j)) [
  | inl e ↦
      let same : i ≡ j = (bytes_eq_iff i j).0 e in
      elim (Bool-cases (p j)) [
        | inl t ↦ rw (ap p same ∙ t, e, t)
        | inr f ↦ rw (ap p same ∙ f, f) (lookup-keep p j es ∙ rw f)
      ]
  | inr ne ↦ ground (arith, lookup-keep p j es)
]

AllAbove-insert :
    (a k v : Bytes) (es : List (Bytes × Bytes))
    → AllAbove a es
    → bytes_lt a k ≡ true
    → AllAbove a (insert k v es)
unfolding insert
AllAbove-insert a k v [] h l = (l, tt)
AllAbove-insert a k v ((j, w) ∷ es) h l = ground (arith, AllAbove-insert a k v es h.1 l)

AllAbove-trans :
    (a k : Bytes) (es : List (Bytes × Bytes)) → bytes_lt a k ≡ true → AllAbove k es → AllAbove a es
AllAbove-trans a k [] l h = tt
AllAbove-trans a k ((j, w) ∷ es) l h = (bytes_lt_trans a k j l h.0, AllAbove-trans a k es l h.1)

insert-IsAscending :
    (k v : Bytes) (es : List (Bytes × Bytes)) → IsAscending es → IsAscending (insert k v es)
unfolding insert
insert-IsAscending k v [] h = (tt, tt)
insert-IsAscending k v ((j, w) ∷ es) h = elim (Bool-cases (bytes_lt k j)) [
  | inl l ↦ rw l ((l, AllAbove-trans k j es l h.0), h)
  | inr g ↦ elim (Bool-cases (bytes_eq k j)) [
    | inl e ↦ rw (g, e) (subst (λ i. AllAbove i es) (sym ((bytes_eq_iff k j).0 e)) h.0, h.1)
    | inr ne ↦
        rw (g, ne)
          (AllAbove-insert j k v es h.0 (bytes_lt_total k j g ne), insert-IsAscending k v es h.1)
  ]
]

AllAbove-keep :
    (p : Bytes → Bool) (a : Bytes) (es : List (Bytes × Bytes))
    → AllAbove a es
    → AllAbove a (keep p es)
unfolding keep
AllAbove-keep p a [] h = tt
AllAbove-keep p a ((j, w) ∷ es) h = ground (arith, AllAbove-keep p a es h.1)

pub keep-IsAscending :
    (p : Bytes → Bool) (es : List (Bytes × Bytes)) → IsAscending es → IsAscending (keep p es)
unfolding keep
keep-IsAscending p [] h = tt
keep-IsAscending p ((j, w) ∷ es) h =
    ground (arith, keep-IsAscending p es h.1, AllAbove-keep p j es h.0)

pub table-IsAscending : (os : List Op) → IsAscending (table os)
unfolding table
table-IsAscending [] = tt
table-IsAscending (put k v ∷ os) = insert-IsAscending k v (table os) (table-IsAscending os)
table-IsAscending (delete k ∷ os) = keep-IsAscending _ (table os) (table-IsAscending os)

not-above : (k w : Bytes) (es : List (Bytes × Bytes)) → AllAbove k es → ¬ Holds k w es
not-above k w [] a h = h
not-above k w ((j, v) ∷ es) a (inl e) =
    cc (bytes_lt_irrefl k, subst (λ i. bytes_lt k i ≡ true) (sym e.0) a.0)
not-above k w ((j, v) ∷ es) a (inr h) = not-above k w es a.1 h

lookup-Holds :
    (k v : Bytes) (es : List (Bytes × Bytes))
    → IsAscending es
    → Holds k v es ↔ (lookup k es ≡ some v)
unfolding lookup
lookup-Holds k v [] a = (λ h. absurd h, λ h. cc)
lookup-Holds k v ((j, w) ∷ es) a =
    let rest = lookup-Holds k v es a.1 in
    elim (Bool-cases (bytes_eq j k)) [
      | inl e ↦
          let same : j ≡ k = (bytes_eq_iff j k).0 e in
          rw e (
            λ h. elim h [
              | inl q ↦ ap some (sym q.1)
              | inr h' ↦ absurd (not-above j v es a.0 (subst (λ i. Holds i v es) (sym same) h'))
            ],
            λ h. inl (sym same, ground arith),
          )
      | inr ne ↦ rw ne (
        λ h. elim h [ inl q ↦ absurd (cc ((bytes_eq_iff j k).1 (sym q.0))) | inr h' ↦ rest.0 h' ],
        λ h. inr (rest.1 h),
      )
    ]

-- WriteBatch: the operations go onto the list in their order.
unfoldable pub write_all : List Op → List Op → List Op
write_all d [] = d
write_all d (o ∷ os) = write_all (o ∷ d) os

pub table-op :
    (o : Op) (d : List Op) (j : Bytes)
    → lookup j (table (o ∷ d)) ≡ apply_op o (λ i. lookup i (table d)) j
unfolding table
table-op (put k v) d j = lookup-insert k v j (table d)
table-op (delete k) d j = lookup-keep _ j (table d) ∙ ground arith

apply_ops-ext :
    (os : List Op) (f g : Bytes → Option Bytes)
    → ((j : Bytes) → f j ≡ g j)
    → (j : Bytes) → apply_ops os f j ≡ apply_ops os g j
apply_ops-ext [] f g h j = h j
apply_ops-ext (put k v ∷ os) f g h j = apply_ops-ext os _ _ (λ i. ground (arith, h i)) j
apply_ops-ext (delete k ∷ os) f g h j = apply_ops-ext os _ _ (λ i. ground (arith, h i)) j

pub table-write_all :
    (d os : List Op) (j : Bytes)
    → lookup j (table (write_all d os)) ≡ apply_ops os (λ i. lookup i (table d)) j
unfolding write_all
table-write_all d [] j = refl
table-write_all d (o ∷ os) j = table-write_all (o ∷ d) os j ∙ apply_ops-ext os _ _ (table-op o d) j

unfoldable pub status : Option Bytes → GetStatus
status none = GetStatus.not_found
status (some v) = GetStatus.found v

pub status-ne-failed : (o : Option Bytes) → status o ≢ GetStatus.failed
unfolding status
status-ne-failed none h = cc
status-ne-failed (some v) h = cc

pub status-found : (o : Option Bytes) (v : Bytes) → status o ≡ GetStatus.found v → o ≡ some v
unfolding status
status-found none v h = cc
status-found (some w) v h = ground arith

pub status-not_found : (o : Option Bytes) → status o ≡ GetStatus.not_found → o ≡ none
unfolding status
status-not_found none h = refl
status-not_found (some w) h = cc

unfoldable pub from : Bytes → List (Bytes × Bytes) → List (Bytes × Bytes)
unfolding keep
from s es = keep (λ j. not (bytes_lt j s)) es

pub from-Holds :
    (s k v : Bytes) (d : List Op)
    → Holds k v (from s (table d)) ↔ ((lookup k (table d) ≡ some v) × (bytes_lt k s ≡ false))
unfolding from
from-Holds s k v d =
    let sorted = keep-IsAscending (λ j. not (bytes_lt j s)) (table d) (table-IsAscending d) in
    let kept = lookup-keep (λ j. not (bytes_lt j s)) k (table d) in
    let here = lookup-Holds k v _ sorted in
    (λ h. let e = here.0 h in ground arith, λ h. here.1 (kept ∙ ground arith))

pub from-IsAscending : (s : Bytes) (d : List Op) → IsAscending (from s (table d))
unfolding from
from-IsAscending s d = keep-IsAscending _ (table d) (table-IsAscending d)

abbrev pub memory_db : RocksDb
memory_db = record {
  Db = List Op;
  contents = λ d k. lookup k (table d);
  get = λ d k. status (lookup k (table d));
  put_status = λ d k v. (put k v ∷ d, true);
  delete_status = λ d k. (delete k ∷ d, true);
  write = λ d os. (write_all d os, true);
  seek = λ d s. from s (table d);
  seek_ok = λ d s. true;
  get_found = λ d k v h. status-found (lookup k (table d)) v h;
  get_not_found = λ d k h. status-not_found (lookup k (table d)) h;
  put_ok = λ d k v j h. table-op (put k v) d j;
  delete_ok = λ d k j h. table-op (delete k) d j;
  write_ok = λ d os j h. table-write_all d os j;
  seek_holds = λ d s k v. (from-Holds s k v d).0;
  seek_all = λ d s k v o h h'. (from-Holds s k v d).1 (h, h');
  seek_ascends = λ d s. from-IsAscending s d;
}
