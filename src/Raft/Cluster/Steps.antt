-- ===== src/Raft/Cluster/Steps.antt =====
-- The steps of a cluster keep the invariant.
use learn_git.Raft.Cluster.Following.{handle_append_entries-Quiet}
use learn_git.Raft.Cluster.Counting.{counts-Inv}
use learn_git.Raft.Cluster.Granting.{grants-Inv}
use learn_git.Raft.Cluster.Electing.{Elects-Inv}
use learn_git.Raft.Replica.{tick, handle_append_entries}
use learn_git.Raft.Cluster.Ballots.{handle_request_vote_lem, tick_lem, answers_vote_lem}
use learn_git.Raft.Cluster.Effects.{
  propose-Quiet, reset_election_timer-Quiet, Quiet-refl, restarted-Quiet, answers_append-Quiet,
}
use learn_git.Raft.Cluster.Quietly.{act-Inv, none-Silent, Silent, NetLe-refl, NetLe-removed}
use learn_git.Raft.Cluster.Requests.{Distinct}
use learn_git.Raft.Cluster.Counts.{is_request, Vote, is_grant, is_foreign, count, for_candidate}
use learn_git.Raft.Node.{init, handle_request_vote, process_request_vote_response}
use learn_git.Base.{
  List, ℕ, [], ◌≡◌, arith, ◌++◌, true, false, ◌<◌, ◌∷◌, refl, subst, inl, inr, ◌≤◌,
}
use native.Mathlib.Decide.{dec_le}
use learn_git.Raft.Cluster.Invariant.{Inv, quietly}
use learn_git.Raft.Types.{
  RaftMessage, request_vote, request_vote_resp, append_entries, append_entries_resp, other, Env,
}
use learn_git.Raft.Cluster.System.{
  Packet, Cluster, receive, Step, proposes, ticks, reconnects, delivers, loses, restarts, Reach,
  starts, later, Run, stays, goes, fresh, member, answer_to,
}

answer-Silent :
    (p : Packet) (msg : RaftMessage)
    → ((t : ℕ) → is_request t msg ≡ false)
    → ((t : ℕ) → is_grant t msg ≡ false)
    → ((c : ℕ) → is_foreign c msg ≡ false)
    → Silent (answer_to p msg)
answer-Silent p msg r g f = record {
  no_asks = λ q d u. ground (arith, r u);
  no_grants = λ d u. ground (arith, g u);
  no_foreign = ground (arith, f p.to);
}

-- The state's invariant holds, and the votes cast before are kept.
pub record Grown (ids : List ℕ) (cast : List Vote) (s : Cluster) : Type 0 where
  pub votes : List Vote
  pub kept : (c t : ℕ) → count (for_candidate c t) cast ≤ count (for_candidate c t) votes
  pub holds : Inv ids s votes

same : {ids : List ℕ} → {s : Cluster} → (cast : List Vote) → Inv ids s cast → Grown ids cast s
same cast v = record { votes = cast; kept = λ c t. omega arith; holds = v }

one_more :
    {ids : List ℕ}
    → {s : Cluster} → {b : Vote} → (cast : List Vote) → Inv ids s (b ∷ cast)
    → Grown ids cast s
one_more {b = b} cast v = record { votes = b ∷ cast; kept = λ c t. omega arith; holds = v }

receive-Inv :
    (ids : List ℕ) (s : Cluster) (cast : List Vote) (env : Env) (from to : ℕ) (msg : RaftMessage)
    (before after : List Packet)
    → let p : Packet = record { from = from; to = to; message = msg } in
      s.net ≡ before ++ p ∷ after
      → Inv ids s cast
      → Grown ids cast (receive env p msg (record s { net = before ++ after }))
unfolding receive
receive-Inv ids s cast env from to (request_vote req) before after e v =
    let p : Packet = record { from = from; to = to; message = request_vote req } in
    let done = handle_request_vote env req (s.nodes to) in
    elim (handle_request_vote_lem env req (s.nodes to)) [
      | inl quiet ↦ same cast (
          act-Inv ids s cast to done.0 (answer_to p (request_vote_resp done.1)) (before ++ after)
            quiet.0
            (answer-Silent p (request_vote_resp done.1) (λ _. refl) (λ t. ground (arith, quiet.1))
              (λ _. refl))
            (NetLe-removed before after p e) v)
      | inr k ↦ one_more cast (grants-Inv ids s cast from to req done.1 done.0 before after e k v)
    ]
receive-Inv ids s cast env from to (request_vote_resp resp) before after e v =
    let p : Packet = record { from = from; to = to; message = request_vote_resp resp } in
    let m = process_request_vote_response env from resp.term resp.vote_granted (s.nodes to) in
    elim (answers_vote_lem env from resp.term resp.vote_granted (s.nodes to)) [
      | inl quiet ↦ same cast (
          act-Inv ids s cast to m [] (before ++ after) quiet none-Silent
            (NetLe-removed before after p e) v)
      | inr k ↦ same cast (counts-Inv ids s cast from to resp m before after e k v)
    ]
receive-Inv ids s cast env from to (append_entries req) before after e v =
    let p : Packet = record { from = from; to = to; message = append_entries req } in
    let done = handle_append_entries env req (s.nodes to) in
    same cast (
      act-Inv ids s cast to done.0 (answer_to p (append_entries_resp done.1)) (before ++ after)
        (handle_append_entries-Quiet env req (s.nodes to))
        (answer-Silent p (append_entries_resp done.1) (λ _. refl) (λ _. refl) (λ _. refl))
        (NetLe-removed before after p e) v)
receive-Inv ids s cast env from to (append_entries_resp resp) before after e v =
    let p : Packet = record { from = from; to = to; message = append_entries_resp resp } in
    same cast (
      act-Inv ids s cast to _ [] (before ++ after)
        (answers_append-Quiet from resp.term resp.success resp.match_index (s.nodes to)) none-Silent
        (NetLe-removed before after p e) v)
receive-Inv ids s cast env from to other before after e v =
    let p : Packet = record { from = from; to = to; message = other } in
    same cast (
      quietly ids s (record s { net = before ++ after }) cast (λ j. Quiet-refl (s.nodes j))
        (NetLe-removed before after p e) v)

member_pos : (i : ℕ) (ids : List ℕ) → member i ids ≡ true → member 0 ids ≡ false → 0 < i
member_pos i ids h z = elim (dec_le 1 i) [
  | yes p ↦ p
  | no n ↦
      let e : i ≡ 0 = omega arith in absurd (ground (arith, subst (λ k. member k ids ≡ true) e h))
]

Step-Inv :
    (ids : List ℕ) (s t : Cluster) (cast : List Vote)
    → Distinct ids
    → member 0 ids ≡ false
    → Step ids s t
    → Inv ids s cast
    → Grown ids cast t
Step-Inv ids s t cast d z (proposes i command mem) v = same cast (
    act-Inv ids s cast i _ [] s.net (propose-Quiet command (s.nodes i)) none-Silent
      (NetLe-refl s.net) v)
Step-Inv ids s t cast d z (ticks i env mem fit) v = elim (tick_lem env (s.nodes i) fit) [
  | inl quiet ↦
      same cast (
        act-Inv ids s cast i (tick env (s.nodes i)) [] s.net quiet none-Silent (NetLe-refl s.net) v)
  | inr k ↦
      one_more cast
        (Elects-Inv ids s cast i (tick env (s.nodes i)) d mem (member_pos i ids mem z) k v)
]
Step-Inv ids s t cast d z (reconnects i env mem) v = same cast (
    act-Inv ids s cast i _ [] s.net (reset_election_timer-Quiet env (s.nodes i)) none-Silent
      (NetLe-refl s.net) v)
Step-Inv ids s t cast d z (delivers env before after p e) v =
    receive-Inv ids s cast env p.from p.to p.message before after e v
Step-Inv ids s t cast d z (loses before after p e) v = same cast (
    quietly ids s (record s { net = before ++ after }) cast (λ j. Quiet-refl (s.nodes j))
      (NetLe-removed before after p e) v)
Step-Inv ids s t cast d z (restarts i env log mem) v = same cast (
    act-Inv ids s cast i _ [] s.net (restarted-Quiet env log (s.nodes i) (v.silent i)) none-Silent
      (NetLe-refl s.net) v)

fresh-Inv : (ids : List ℕ) (envs : ℕ → Env) → Inv ids (fresh ids envs) []
unfolding init
fresh-Inv ids envs = record {
  same_id = λ i. refl;
  same_peers = λ i. refl;
  silent = λ i. refl;
  voted = λ p c t h. absurd (omega arith);
  once = λ p t. omega arith;
  own = refl;
  asked = λ p c t h. absurd (omega arith);
  asked_once = λ p c t. omega arith;
  granted = λ c t. omega arith;
  tallied = λ c t h. cc;
  elected = λ c t h. cc;
}

-- In each state that a cluster reaches, the invariant holds for the votes that have been cast.
pub Reach-Inv :
    (ids : List ℕ) (s : Cluster)
    → Distinct ids
    → member 0 ids ≡ false
    → Reach ids s
    → (cast : List Vote) × Inv ids s cast
Reach-Inv ids s d z (starts envs) = ([], fresh-Inv ids envs)
Reach-Inv ids s d z (later {s = r} before step) =
    let known = Reach-Inv ids r d z before in
    let next = Step-Inv ids r s known.0 d z step known.1 in (next.votes, next.holds)

pub Run-Inv :
    (ids : List ℕ) (s t : Cluster) (cast : List Vote)
    → Distinct ids
    → member 0 ids ≡ false
    → Run ids s t
    → Inv ids s cast
    → Grown ids cast t
Run-Inv ids s t cast d z stays v = same cast v
Run-Inv ids s t cast d z (goes {r = r} run step) v =
    let known = Run-Inv ids s r cast d z run v in
    let next = Step-Inv ids r t known.votes d z step known.holds in
    record {
      votes = next.votes;
      kept = λ c u. omega (arith, known.kept c u, next.kept c u);
      holds = next.holds;
    }
