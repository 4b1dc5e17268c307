-- ===== src/Raft/Append.antt =====
-- The loop of handleAppendEntries over the entries received (raft_node.cpp): what it keeps, what
-- it writes, and that it makes the follower's log a copy of the leader's.
use learn_git.Base.{
  ℕ, zero, suc, ◌≤◌, ◌<◌, ◌≡◌, refl, ◌⊎◌, inl, inr, List, [], ◌∷◌, ◌++◌, arith, length, get_or,
  take, drop, length-take, length-append, take-take, take_all, take-suc, take-append_left, ◌∙◌, ap,
  length-drop, ◌≢◌, sym, subst, get_or-take, get_or-append_last,
}
use learn_git.Raft.Types.{LogEntry, empty_entry}
use learn_git.Raft.Log.{
  get_log_entry, last_log_index, truncate_conflict, append_missing, merge_entries,
}

abbrev pub term_at : List LogEntry → ℕ → ℕ
term_at log i = (get_log_entry log i).term

-- Wherever both logs have an entry of one term at one position, they agree up to there.
abbrev pub Matching : List LogEntry → List LogEntry → Type 0
Matching F L =
    (i : ℕ)
    → i < length F
    → i < length L
    → term_at F i ≡ term_at L i
    → take (suc i) F ≡ take (suc i) L

pub last-length : (log : List LogEntry) → 0 < length log → suc (last_log_index log) ≡ length log
last-length [] h = absurd (omega arith)
last-length (e ∷ es) h = refl

-- One round of the loop, at a position k that is in the log or just past its end.
round : ℕ → LogEntry → List LogEntry → List LogEntry
round k e log = append_missing k e (truncate_conflict k e log)

-- The round leaves a log that has the entry's term at k already, or else cuts the log at k and
-- puts the entry there.
round-cases :
    (k : ℕ) (e : LogEntry) (log : List LogEntry)
    → 0 < k
    → k ≤ length log
    → ((k < length log) × (term_at log k ≡ e.term) × (round k e log ≡ log))
      ⊎ (((k ≡ length log) ⊎ (term_at log k ≢ e.term)) × (round k e log ≡ take k log ++ e ∷ []))
unfolding round append_missing truncate_conflict
round-cases k e log h h' =
    ground (arith, last-length log, last-length (take k log), length-take k log, take_all k log)

-- The same round, seen against the log L that the entry comes from.
round-Matching :
    (k : ℕ) (F L : List LogEntry)
    → 0 < k
    → k ≤ length F
    → k < length L
    → take k F ≡ take k L
    → Matching F L
    → (k < length (round k (get_log_entry L k) F))
      × (take (suc k) (round k (get_log_entry L k) F) ≡ take (suc k) L)
      × Matching (round k (get_log_entry L k) F) L
round-Matching k F L h hF hL e m = elim (round-cases k (get_log_entry L k) F h hF) [
  | inl (a, t, r) ↦ rw r (a, m k a hL t, m)
  | inr (_, r) ↦
      let copied : take k F ++ get_log_entry L k ∷ [] ≡ take (suc k) L =
        ap (λ xs. xs ++ get_log_entry L k ∷ []) e ∙ sym (take-suc k L empty_entry hL) in
      rw (r ∙ copied) (
        omega (arith, length-take (suc k) L),
        take_all (suc k) (take (suc k) L) (omega (arith, length-take (suc k) L)),
        λ i a b t. take-take (suc i) (suc k) L (omega (arith, length-take (suc k) L, a)),
      )
]

drop-suc :
    (n : ℕ) (L : List LogEntry) (e : LogEntry) (es : List LogEntry)
    → drop n L ≡ e ∷ es
    → (get_log_entry L n ≡ e) × (drop (suc n) L ≡ es) × (n < length L)
drop-suc zero [] e es h = cc
drop-suc zero (x ∷ L) e es h = ground arith
drop-suc (suc n) [] e es h = cc
drop-suc (suc n) (x ∷ L) e es h =
    let rest = drop-suc n L e es h in (rest.0, rest.1, omega (arith, rest.2))

drop-nil : (n : ℕ) (L : List LogEntry) → drop n L ≡ [] → length L ≤ n
drop-nil n L h = omega (arith, length-drop n L, ap length h)

-- If both logs agree up to `prev`, and their entries of one term at one position agree with all
-- before them, then the loop over all entries after `prev` makes the other log a prefix.
pub merge_entries-copies :
    (prev : ℕ) (es F L : List LogEntry)
    → prev < length F
    → prev < length L
    → drop (suc prev) L ≡ es
    → take (suc prev) F ≡ take (suc prev) L
    → Matching F L
    → (take (length L) (merge_entries prev es F) ≡ L) × Matching (merge_entries prev es F) L
unfolding merge_entries round
merge_entries-copies prev [] F L hF hL d e m =
    let end : length L ≡ suc prev = omega (arith, drop-nil (suc prev) L d) in
    (rw end (e ∙ take_all (suc prev) L (omega arith)), m)
merge_entries-copies prev (x ∷ es) F L hF hL d e m =
    let at = drop-suc (suc prev) L x es d in
    let next = round-Matching (suc prev) F L (omega arith) (omega arith) at.2 e m in
    let next' : Good x = subst Good at.0 next in
    merge_entries-copies (suc prev) es (round (suc prev) x F) L next'.0 at.2 at.1 next'.1 next'.2
  where
    Good : LogEntry → Type 0
    Good y =
        (suc prev < length (round (suc prev) y F))
        × (take (suc (suc prev)) (round (suc prev) y F) ≡ take (suc (suc prev)) L)
        × Matching (round (suc prev) y F) L

-- A round keeps what stands before its position, and afterwards its entry's term stands there.
round-keeps :
    (k : ℕ) (e : LogEntry) (F : List LogEntry)
    → 0 < k
    → k ≤ length F
    → (k < length (round k e F))
      × (take k (round k e F) ≡ take k F)
      × (term_at (round k e F) k ≡ e.term)
round-keeps k e F h hF = elim (round-cases k e F h hF) [
  | inl (a, t, r) ↦ rw r (a, refl, t)
  | inr (_, r) ↦
      let size : length (take k F) ≡ k = omega (arith, length-take k F) in
      rw r (
        omega (arith, length-append (take k F) (e ∷ []), size),
        take-append_left k (take k F) (e ∷ []) (omega arith) ∙ take-take k k F (omega arith),
        ap (λ (x : LogEntry). x.term)
            (ap (λ j. get_or (take k F ++ e ∷ []) j empty_entry) (sym size)
              ∙ get_or-append_last (take k F) e empty_entry),
      )
]

-- The entries up to `prev` stay as they are.
pub merge_entries-keeps :
    (prev : ℕ) (es F : List LogEntry)
    → prev < length F
    → (take (suc prev) (merge_entries prev es F) ≡ take (suc prev) F)
      × (prev < length (merge_entries prev es F))
unfolding merge_entries round
merge_entries-keeps prev [] F h = (refl, h)
merge_entries-keeps prev (e ∷ es) F h =
    let here = round-keeps (suc prev) e F (omega arith) h in
    let rest = merge_entries-keeps (suc prev) es (round (suc prev) e F) here.0 in
    (
      sym (take-take (suc prev) (suc (suc prev)) _ (omega arith))
          ∙ ap (take (suc prev)) rest.0
          ∙ take-take (suc prev) (suc (suc prev)) _ (omega arith)
          ∙ here.1,
      omega (arith, rest.1),
    )

-- Each entry's term stands at its position after `prev`.
abbrev pub HasTerms : ℕ → List LogEntry → List LogEntry → Type 0
HasTerms prev [] log = Unit {0}
HasTerms prev (e ∷ es) log =
    (suc prev < length log) × (term_at log (suc prev) ≡ e.term) × HasTerms (suc prev) es log

pub term_at-take :
    (i n : ℕ) (F G : List LogEntry) → i < n → take n F ≡ take n G → term_at F i ≡ term_at G i
term_at-take i n F G h e =
    ap (λ (x : LogEntry). x.term)
      (sym (get_or-take n F i empty_entry h)
        ∙ ap (λ xs. get_or xs i empty_entry) e
        ∙ get_or-take n G i empty_entry h)

pub merge_entries-HasTerms :
    (prev : ℕ) (es F : List LogEntry) → prev < length F → HasTerms prev es (merge_entries prev es F)
unfolding merge_entries round
merge_entries-HasTerms prev [] F h = tt
merge_entries-HasTerms prev (e ∷ es) F h =
    let here = round-keeps (suc prev) e F (omega arith) h in
    let kept = merge_entries-keeps (suc prev) es (round (suc prev) e F) here.0 in
    let rest = merge_entries-HasTerms (suc prev) es (round (suc prev) e F) here.0 in
    (kept.1, term_at-take (suc prev) (suc (suc prev)) _ _ (omega arith) kept.0 ∙ here.2, rest)

-- Entries that the log has already leave it alone.
pub merge_entries-known :
    (prev : ℕ) (es log : List LogEntry) → HasTerms prev es log → merge_entries prev es log ≡ log
unfolding merge_entries round
merge_entries-known prev [] log h = refl
merge_entries-known prev (e ∷ es) log h =
    let rest = merge_entries-known (suc prev) es log h.2 in
    elim (round-cases (suc prev) e log (omega arith) (omega (arith, h.0))) [
      | inl (_, _, r) ↦ ap (merge_entries (suc prev) es) r ∙ rest
      | inr (inl e', _) ↦ absurd (omega (arith, h.0))
      | inr (inr t, _) ↦ absurd (t h.1)
    ]

-- A request that arrives twice changes the log once: it keeps the entries up to `prev`, puts its
-- own terms after them, and finds nothing to do the second time.
pub merge_entries_twice :
    (prev : ℕ) (es F : List LogEntry)
    → prev < length F
    → (take (suc prev) (merge_entries prev es F) ≡ take (suc prev) F)
      × HasTerms prev es (merge_entries prev es F)
      × (merge_entries prev es (merge_entries prev es F) ≡ merge_entries prev es F)
merge_entries_twice prev es F h =
    let terms = merge_entries-HasTerms prev es F h in
    ((merge_entries-keeps prev es F h).0, terms, merge_entries-known prev es _ terms)
