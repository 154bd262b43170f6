-- ===== src/Tests/Election.antt =====
-- Elections among three replicas.
use ece.Prelude.{
  ◌&&◌, ◌||◌, not, ◌==◌, ℕ, ◌<◌, ◌≤◌, refl, ◌≡◌, true, false, some, [], ◌∷◌, arith, ok,
}
use ece.Int32.{sle, slt}
use ece.Map.{lookup}
use ece.Replica.{
  minus_one, Replica, Cluster, prepare, accept, alter, count_promise, ask, promise_loop, ask_accept,
  accept_loop, campaign, ballot, running, to_int16, start_leader_election, get_leader,
}
use ece.Replica.Acceptor.{prepares, accepts, informs, serve, accept-serve}
use ece.Replica.Agreement.{campaign-agrees}
use ece.Replica.Ballot.{leader_of, ballot_minority}
use ece.Replica.Election.{start_leader_election-returns}
use ece.Replica.Leader.{get_leader-returns}
use ece.Replica.Quiet.{runs, ready_of}
use ece.Tests.{or_else}

abbrev replica : ℕ → Replica
replica id = record {
  id = id;
  leader = minus_one;
  proposal_number = id;
  highest_proposal_number = 0;
  accepted_proposal_number = minus_one;
  accepted_proposal_value = minus_one;
  election_in_progress = false;
}

abbrev three : Cluster
three = (0, replica 0) ∷ (1, replica 1) ∷ (2, replica 2) ∷ []

accept-serve_example :
    (accept 5 1 (serve (accepts 9 2 ∷ informs 2 ∷ prepares 3 ∷ []) (prepare 7 (replica 1)).0)).1
    ≡ false
unfolding sle
accept-serve_example =
    accept-serve 7 5 1 (accepts 9 2 ∷ informs 2 ∷ prepares 3 ∷ []) (replica 1) refl

abbrev minority : Cluster × ℕ
minority = or_else (three, 0) (ballot 3 1 three)

ballot_minority_example : leader_of 2 minority.0 ≡ some minus_one
unfolding lookup ballot running promise_loop ask prepare count_promise slt alter to_int16
ballot_minority_example = ballot_minority 3 1 2 three minority.0 minority.1 (omega arith) refl

start_leader_election-returns_example :
    (d : Cluster) × (leader : ℕ) × (start_leader_election 4 3 2 three ≡ ok (d, leader))
    × ((k : ℕ) → runs k d ≡ runs k three)
    × ((k : ℕ) → (ready_of k d && not (2 == k || ready_of k three)) ≡ false)
unfolding lookup
start_leader_election-returns_example =
    start_leader_election-returns 3 2 three (omega arith) (omega arith) refl

below_three : (k : ℕ) → runs k three ≡ true → k < 3
unfolding lookup
below_three k h = ground arith

get_leader-returns_example :
    (d : Cluster) × (leader : ℕ) × (get_leader (start_leader_election 4 3) 0 three ≡ ok (d, leader))
unfolding lookup
get_leader-returns_example = get_leader-returns 3 0 three (omega arith) below_three refl

campaign-agrees_example :
    (leader_of 2 (campaign 3 2 5 2 three) ≡ some 2)
    × (leader_of 0 (campaign 3 2 5 2 three) ≡ some 2)
    × ((j : ℕ) → 3 ≤ j → (2 == j) ≡ false → lookup j (campaign 3 2 5 2 three) ≡ lookup j three)
unfolding lookup accept_loop ask_accept accept slt alter
campaign-agrees_example =
    campaign-agrees 3 2 5 2 0 three refl refl (omega arith) (omega arith) (omega arith)
