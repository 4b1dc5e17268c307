-- ===== src/Raft/Cluster/Examples.antt =====
-- The theorems about a cluster at one of three nodes.
use learn_git.Raft.Cluster.Requests.{Distinct}
use learn_git.Raft.Replica.{tick}
use learn_git.Base.{ℕ, ◌≡◌, true, arith, List, ◌∷◌, [], refl}
use learn_git.Raft.Cluster.System.{
  Cluster, Packet, act, receive, fresh, Reach, Run, starts, later, stays, goes, ticks, delivers,
  restarts, restarted, packets, peers_of,
}
use learn_git.Raft.Types.{RequestVoteRequest, request_vote, request_vote_resp, Env, empty_entry}
use learn_git.Raft.Node.{
  init, become_candidate, send_each, vote_request, handle_request_vote, decide_vote, may_grant,
  observe_term, become_follower, up_to_date, process_request_vote_response, count_vote,
  become_leader, send_append_entries,
}
use learn_git.Raft.Cluster.Election.{one_leader_per_term}

abbrev at_time : ℕ → Env
at_time t = record { now = t; timeout = 150 }

abbrev three : List ℕ
three = 1 ∷ 2 ∷ 3 ∷ []

abbrev constructed : Cluster
constructed = fresh three (λ _. at_time 0)

-- Node 1 asks for votes.
abbrev asking : Cluster
asking = act 1 (tick (at_time 150) (constructed.nodes 1)) [] constructed

abbrev question : RequestVoteRequest
question = record { term = 1; candidate_id = 1; last_log_index = 0; last_log_term = 0 }

abbrev asked : ℕ → Packet
asked i = record { from = 1; to = i; message = request_vote question }

-- Node 3 grants its vote.
abbrev answering : Cluster
answering =
    receive (at_time 151) (asked 3) (request_vote question) (record asking { net = asked 2 ∷ [] })

abbrev answer : Packet
answer = record {
  from = 3;
  to = 1;
  message = request_vote_resp (record { term = 1; vote_granted = true });
}

-- Node 1 counts it, and leads.
abbrev elected : Cluster
elected = receive (at_time 152) answer answer.message (record answering { net = asked 2 ∷ [] })

-- Node 3 crashes and starts again.
abbrev recovered : Cluster
recovered = act 3 (restarted (at_time 153) (empty_entry ∷ []) (elected.nodes 3)) [] elected

three-Distinct : Distinct three
three-Distinct p = ground arith

elected-Reach : Reach three elected
unfolding init packets tick become_candidate send_each peers_of vote_request receive
    handle_request_vote decide_vote may_grant observe_term become_follower up_to_date
elected-Reach =
    later
      (later (later (starts (λ _. at_time 0)) (ticks 1 (at_time 150) refl (omega arith)))
        (delivers (at_time 151) [] (asked 2 ∷ []) (asked 3) refl))
      (delivers (at_time 152) [] (asked 2 ∷ []) answer refl)

recovered-Run : Run three elected recovered
recovered-Run = goes stays (restarts 3 (at_time 153) (empty_entry ∷ []) refl)

one_leader_per_term_example : question.candidate_id ≡ answer.to
unfolding init packets tick become_candidate send_each peers_of vote_request receive
    handle_request_vote decide_vote may_grant observe_term become_follower up_to_date
    process_request_vote_response count_vote become_leader send_append_entries
one_leader_per_term_example =
    one_leader_per_term three elected recovered question.candidate_id answer.to three-Distinct refl
      elected-Reach recovered-Run refl refl refl
