-- ===== src/Replica.antt =====
-- MP2/src/replica/replica_handler.cpp: the election of the leader among the replicas. A replica that
-- runs is an entry of the cluster, and a call of a replica that does not run throws. Calls are
-- synchronous, the one-way call of `inform` among them, and a replica answers calls while it waits for
-- its own, as the thread pool lets it.
pub mod Acceptor
pub mod Agreement
pub mod Ballot
pub mod Calm
pub mod Election
pub mod Leader
pub mod Loads
pub mod Quiet
use ece.Prelude.{
  ℕ, zero, suc, ◌+◌, ◌/◌, ◌%◌, Bool, true, false, ◌&&◌, not, Option, none, some, [], ◌∷◌, ltb, ◌==◌,
  if◌then◌else◌, Result, ok, fault, ◌>>=◌, not_running, out_of_fuel,
}
use ece.Int32.{word, slt}
use ece.Map.{Map, lookup}

-- The pattern of -1.
abbrev pub minus_one : ℕ
minus_one = 4294967295

-- The part of `Replica` that elections use.
pub record Replica : Type 0 where
  pub id : ℕ
  pub leader : ℕ
  pub proposal_number : ℕ
  pub highest_proposal_number : ℕ
  pub accepted_proposal_number : ℕ
  pub accepted_proposal_value : ℕ
  pub election_in_progress : Bool

-- The constructor leaves `highestProposalNumber` as the memory has it.
unfoldable pub make_replica : ℕ → ℕ → Replica
make_replica id garbage = record {
  id = id;
  leader = minus_one;
  proposal_number = id;
  highest_proposal_number = garbage;
  accepted_proposal_number = minus_one;
  accepted_proposal_value = minus_one;
  election_in_progress = false;
}

pub record Promise : Type 0 where
  pub success : Bool
  pub accepted_proposal_number : ℕ
  pub accepted_proposal_value : ℕ

unfoldable pub prepare : ℕ → Replica → Replica × Promise
prepare n r =
    if slt r.highest_proposal_number n
    then (
      record r { election_in_progress = true; highest_proposal_number = n },
      record {
        success = true;
        accepted_proposal_number = r.accepted_proposal_number;
        accepted_proposal_value = r.accepted_proposal_value;
      },
    )
    else (
      record r { election_in_progress = true },
      record {
        success = false;
        accepted_proposal_number = minus_one;
        accepted_proposal_value = minus_one;
      },
    )

unfoldable pub accept : ℕ → ℕ → Replica → Replica × Bool
accept n value r =
    if slt r.highest_proposal_number n
    then (
      record r {
        election_in_progress = true;
        accepted_proposal_number = n;
        accepted_proposal_value = value;
      },
      true,
    )
    else (record r { election_in_progress = true }, false)

unfoldable pub inform : ℕ → Replica → Replica
inform value r = record r { leader = value; election_in_progress = false }

abbrev pub Cluster : Type 0
Cluster = Map Replica

-- A change of one replica.
unfoldable pub alter : ℕ → (Replica → Replica) → Cluster → Cluster
alter id f [] = []
alter id f ((k, r) ∷ c) = if k == id then (k, f r) ∷ c else (k, r) ∷ alter id f c

-- `int16_t`: the low 16 bits with their sign.
unfoldable pub to_int16 : ℕ → ℕ
to_int16 a = let n = a % 65536 in if ltb n 32768 then n else n + 4294901760

-- What the loop of a proposer keeps.
pub record Tally : Type 0 where
  pub promised_count : ℕ
  pub highest_accepted_value : ℕ

unfoldable pub count_promise : Promise → Tally → Tally
count_promise p t =
    if p.success
    then record {
      promised_count = t.promised_count + 1;
      highest_accepted_value =
          if slt t.highest_accepted_value p.accepted_proposal_value
          then p.accepted_proposal_value
          else t.highest_accepted_value;
    }
    else t

-- The call of `prepare` on replica i; one that does not run throws.
unfoldable pub ask : Option Replica → ℕ → ℕ → Cluster → Tally → Cluster × Tally
ask none i n c count = (c, count)
ask (some r) i n c count = (alter i (λ r. (prepare n r).0) c, count_promise (prepare n r).1 count)

-- The loop that stops at the own id.
unfoldable pub promise_loop : ℕ → ℕ → ℕ → ℕ → Cluster → Tally → Cluster × Tally
promise_loop zero i id n c count = (c, count)
promise_loop (suc rounds) i id n c count =
    let (c', count') = ask (lookup i c) i n c count in
    let rest = promise_loop rounds (i + 1) id n c' count' in if i == id then (c, count) else rest

unfoldable pub ask_accept : Option Replica → ℕ → ℕ → ℕ → Cluster → ℕ → Cluster × ℕ
ask_accept none i n value c accepted = (c, accepted)
ask_accept (some r) i n value c accepted =
    (alter i (λ r. (accept n value r).0) c, if (accept n value r).1 then accepted + 1 else accepted)

unfoldable pub accept_loop : ℕ → ℕ → ℕ → ℕ → ℕ → Cluster → ℕ → Cluster × ℕ
accept_loop zero i id n value c accepted = (c, accepted)
accept_loop (suc rounds) i id n value c accepted =
    let (c', accepted') = ask_accept (lookup i c) i n value c accepted in
    let rest = accept_loop rounds (i + 1) id n value c' accepted' in
    if i == id then (c, accepted) else rest

unfoldable pub inform_loop : ℕ → ℕ → ℕ → ℕ → Cluster → Cluster
inform_loop zero i id value c = c
inform_loop (suc rounds) i id value c =
    let rest = inform_loop rounds (i + 1) id value (alter i (inform value) c) in
    if i == id then c else rest

abbrev pub set_proposal_number : ℕ → Replica → Replica
set_proposal_number n r = record r { proposal_number = n }

abbrev pub set_leader : ℕ → Replica → Replica
set_leader l r = record r { leader = l }

abbrev pub set_election : Bool → Replica → Replica
set_election b r = record r { election_in_progress = b }

-- What follows a majority of promises.
unfoldable pub campaign : ℕ → ℕ → ℕ → ℕ → Cluster → Cluster
campaign living id number value c =
    let n = (number + living) % word in
    let (c', accepted) = accept_loop living 0 id n value (alter id (set_proposal_number n) c) 0 in
    if ltb (living / 2) accepted
    then inform_loop living 0 id value (alter id (set_leader value) c')
    else c'

unfoldable pub running : Option Replica → Result Replica
running none = fault not_running
running (some r) = ok r

-- `startLeaderElection` behind its first loop, which counted the living replicas.
unfoldable pub ballot : ℕ → ℕ → Cluster → Result (Cluster × ℕ)
ballot living id c = do
  r ← running (lookup id c)
  let n = (r.proposal_number + living) % word
  let start : Tally = record { promised_count = 0; highest_accepted_value = id }
  let (c, t) = promise_loop living 0 id n (alter id (set_proposal_number n) c) start
  let c =
      if ltb (living / 2) t.promised_count
      then campaign living id n t.highest_accepted_value c
      else c
  let c = alter id (set_election false) c
  r ← running (lookup id c)
  ok (c, to_int16 r.leader)

-- The first lines of the getters and of the other calls: a replica that knows no leader and takes
-- part in no election starts one.
unfoldable pub ensure_leader :
    (ℕ → Cluster → Result (Cluster × ℕ)) → ℕ → Replica → Cluster → Result Cluster
ensure_leader elect i r c =
    if r.leader == minus_one && not r.election_in_progress
    then (do (c, leader) ← elect i c; ok (alter i (set_leader leader) c))
    else ok c

-- `getBwUtilization` on replica i, as a sign of life: does it answer?
unfoldable pub contact :
    (ℕ → Cluster → Result (Cluster × ℕ)) → ℕ → Option Replica → Cluster → Result (Cluster × ℕ)
contact elect i none c = ok (c, 0)
contact elect i (some r) c = do c ← ensure_leader elect i r c; ok (c, 1)

unfoldable pub contact_loop :
    (ℕ → Cluster → Result (Cluster × ℕ)) → ℕ → ℕ → Cluster → Result (Cluster × ℕ)
contact_loop elect zero i c = ok (c, 0)
contact_loop elect (suc rounds) i c = do
  (c, one) ← contact elect i (lookup i c) c
  (c, more) ← contact_loop elect rounds (i + 1) c
  ok (c, one + more)

-- `startLeaderElection` of replica `id` among n replicas. The calls of the first loop can start
-- elections of other replicas in their turn, which the fuel bounds.
unfoldable pub start_leader_election : ℕ → ℕ → ℕ → Cluster → Result (Cluster × ℕ)
start_leader_election zero n id c = fault out_of_fuel
start_leader_election (suc fuel) n id c = do
  (c, living) ← contact_loop (start_leader_election fuel n) n 0 (alter id (set_election true) c)
  ballot living id c

-- Is the leader that a replica knows alive? One that does not answer is replaced.
unfoldable pub replace_dead :
    (ℕ → Cluster → Result (Cluster × ℕ)) → ℕ → ℕ → Cluster → Result Cluster
replace_dead elect i answers c =
    if answers == 0 then (do (c, leader) ← elect i c; ok (alter i (set_leader leader) c)) else ok c

unfoldable pub check_leader :
    (ℕ → Cluster → Result (Cluster × ℕ)) → ℕ → Replica → Cluster → Result Cluster
check_leader elect i r c =
    if r.leader == minus_one
    then ensure_leader elect i r c
    else if r.leader == r.id
    then ok c
    else do
      (c, answers) ← contact elect r.leader (lookup r.leader c) c
      replace_dead elect i answers c

-- `getLeader` of replica i.
unfoldable pub get_leader :
    (ℕ → Cluster → Result (Cluster × ℕ)) → ℕ → Cluster → Result (Cluster × ℕ)
get_leader elect i c = do
  r ← running (lookup i c)
  c ← check_leader elect i r c
  r ← running (lookup i c)
  ok (c, to_int16 r.leader)
