-- ===== src/FrontEnd.antt =====
-- MP2/src/client/frontend.cpp: FrontEnd, which finds the leader of the replicas for a client, and the
-- calls that it and its StateMachineStub make of that leader. One client makes its calls one after
-- the other.
pub mod Search
pub mod Calls
pub mod Lifetime
pub mod Refinement
pub mod Removed
pub mod Without
use ece.Prelude.{
  ℕ, zero, suc, ◌+◌, Bool, true, false, ◌&&◌, not, Option, none, some, ◌==◌, if◌then◌else◌, Result,
  ok, fault, ◌>>=◌, not_running, blocked, out_of_fuel, undeclared_error,
}
use ece.Map.{lookup}
use ece.Machines.{Text, Machine, Store, ErrorType, Reply, remove, done, throws}
use ece.Replica.{minus_one, Replica, Cluster, to_int16, start_leader_election, get_leader}
use ece.Placement.{Stores, create_copies, place, place_at}
use ece.Reading.{remove_all}
use ece.Writing.{apply_at}
use ece.Copying.{prepare_at, get_state_at}

pub record FrontEnd : Type 0 where
  pub id : ℕ
  pub leader : ℕ
  pub finding_leader : Bool

unfoldable pub make_front_end : ℕ → FrontEnd
make_front_end i = record { id = i; leader = minus_one; finding_leader = false }

-- What a call of `getLeader` comes to: an answer, a ReplicaError, or another exception.
pub data Outcome : Type 0 where
  answers : ℕ → Outcome
  problem dead : Outcome

-- Is the known leader alive?
unfoldable pub after_known : Outcome → FrontEnd → FrontEnd × Bool
after_known (answers l) f = (record f { leader = l }, false)
after_known problem f = (f, false)
after_known dead f = (f, true)

-- `ask` is the call of `getLeader` on a replica, and `sleep` what happens in two seconds.
module _ {World : Type 0} (ask : ℕ → World → World × Outcome) (sleep : World → World) where
  unfoldable pub check_known : World → FrontEnd → World × (FrontEnd × Bool)
  check_known w f =
      if f.leader == minus_one
      then (w, (f, true))
      else ((ask f.leader w).0, after_known (ask f.leader w).1 f)

  -- The answer of the replica that was named as the leader.
  unfoldable pub confirmed : World × Outcome → World × Option ℕ
  confirmed (w, answers l) = (w, some l)
  confirmed (w, problem) = (w, none)
  confirmed (w, dead) = (w, none)

  unfoldable pub named : World × Outcome → World × Option ℕ
  named (w, answers k) = confirmed (ask k w)
  named (w, problem) = (w, none)
  named (w, dead) = (w, none)

  unfoldable pub or_next : (World → World × Option ℕ) → World × Option ℕ → World × Option ℕ
  or_next rest (w, some l) = (w, some l)
  or_next rest (w, none) = rest w

  -- The loop over the replicas, from replica i on.
  unfoldable pub search_loop : ℕ → ℕ → World → World × Option ℕ
  search_loop zero i w = (w, none)
  search_loop (suc rounds) i w = or_next (search_loop rounds (i + 1)) (named (ask i w))

  unfoldable pub or_again : (World → Result (World × ℕ)) → World × Option ℕ → Result (World × ℕ)
  or_again again (w, some l) = ok (w, l)
  or_again again (w, none) = again (sleep w)

  -- The loop until a leader is found. The fuel bounds its rounds.
  unfoldable pub search : ℕ → ℕ → World → Result (World × ℕ)
  search zero n w = fault out_of_fuel
  search (suc fuel) n w = or_again (search fuel n) (search_loop n 0 w)

  -- `findLeader` behind the check; another thread that searches would have to end its search.
  unfoldable pub replace_leader : ℕ → ℕ → World × (FrontEnd × Bool) → Result (World × FrontEnd)
  replace_leader fuel n (w, (f, false)) = ok (w, f)
  replace_leader fuel n (w, (f, true)) =
      if f.finding_leader
      then fault blocked
      else (search fuel n w >>= λ r. ok (r.0, record f { leader = r.1; finding_leader = false }))

  -- `findLeader` among n replicas.
  unfoldable pub find_leader : ℕ → ℕ → World → FrontEnd → Result (World × FrontEnd)
  find_leader fuel n w f = replace_leader fuel n (check_known w f)

-- `getLeader` on replica i of n: a replica that does not run throws.
abbrev pub outcome_of : Cluster → Result (Cluster × ℕ) → Cluster × Outcome
outcome_of c (fault why) = (c, dead)
outcome_of c (ok (d, l)) = (d, answers l)

unfoldable pub ask_replica : ℕ → ℕ → Cluster → Cluster × Outcome
ask_replica n i c = outcome_of c (get_leader (start_leader_election (n + 1) n) i c)

module _ (machine : Machine) where
  -- The replicas, with their part in elections and with their machines.
  pub record System : Type 0 where
    pub cluster : Cluster
    pub stores : Stores machine

  abbrev pub in_cluster : System → Cluster × Outcome → System × Outcome
  in_cluster w (c, o) = (record w { cluster = c }, o)

  unfoldable pub ask_system : ℕ → ℕ → System → System × Outcome
  ask_system n i w = in_cluster w (ask_replica n i w.cluster)

  -- Whom a replica knows as the leader.
  abbrev pub known_in : Option Replica → ℕ
  known_in none = minus_one
  known_in (some r) = r.leader

  abbrev pub known_by : ℕ → System → ℕ
  known_by i w = known_in (lookup i w.cluster)

  abbrev pub with_stores {ℓ} :
      {A : Type ℓ} → System → FrontEnd → Stores machine × A → System × FrontEnd × A
  with_stores w f (c, a) = (record w { stores = c }, f, a)

  module _ (n : ℕ) (name : Text) where
    -- `prepareGetState` declares no errors, so that a ReplicaError thrown in it ends as a
    -- TApplicationException at its caller.
    unfoldable pub declared : Stores machine × Reply ℕ → Result (Stores machine × ℕ)
    declared (c, throws e) = fault undeclared_error
    declared (c, done where_to) = ok (c, where_to)

    -- The call of `getState` on the replica that `prepareGetState` returns.
    unfoldable pub read_from : ℕ → ℕ → Stores machine × ℕ → Result (Stores machine × Reply Text)
    read_from id client (c, where_to) =
        get_state_at machine n id name where_to client c (lookup where_to c)

    -- `create` of replica `id`, which knows a leader.
    unfoldable pub create_at :
        ℕ
        → ℕ
        → Text
        → Stores machine
        → Option (Store machine)
        → Result (Stores machine × Option ErrorType)
    create_at id leader initial_state c none = fault not_running
    create_at id leader initial_state c (some s) =
        if leader == id
        then create_copies machine n id name initial_state c
        else place machine false id name initial_state (some s) c

    unfoldable pub removed :
        Stores machine → Reply (Stores machine) → Stores machine × Option ErrorType
    removed c (done d) = (d, none)
    removed c (throws e) = (c, some e)

    -- `remove` of replica `id`, which knows a leader.
    unfoldable pub remove_from :
        ℕ → ℕ → Stores machine → Option (Store machine) → Result (Stores machine × Option ErrorType)
    remove_from id leader c none = fault not_running
    remove_from id leader c (some s) =
        if leader == id
        then ok (removed c (remove_all machine name n id s c))
        else ok (place_at machine id c (remove machine name s))

  module _ (sleep : System → System) (fuel n : ℕ) (name : Text) where
    abbrev pub locate : System → FrontEnd → Result (System × FrontEnd)
    locate = find_leader (ask_system n) sleep fuel n

    -- `StateMachineStub::apply`
    unfoldable pub stub_apply : Text → System → FrontEnd → Result (System × FrontEnd × Reply Text)
    stub_apply operation w f = do
      (w, f) ← locate w f
      r ←
          apply_at machine name operation n f.leader (known_by f.leader w) w.stores
            (lookup f.leader w.stores)
      ok (with_stores w f r)

    -- `StateMachineStub::getState`
    unfoldable pub stub_get_state : ℕ → System → FrontEnd → Result (System × FrontEnd × Reply Text)
    stub_get_state garbage w f = do
      (w, f) ← locate w f
      r ←
          prepare_at machine n f.leader name (known_by f.leader w) garbage (to_int16 f.id) w.stores
            (lookup f.leader w.stores)
      r ← declared n name r
      s ← read_from n name f.leader (to_int16 f.id) r
      ok (with_stores w f s)

    -- `create`, up to the stub that it returns.
    unfoldable pub create_machine :
        Text → System → FrontEnd → Result (System × FrontEnd × Option ErrorType)
    create_machine initial_state w f = do
      (w, f) ← locate w f
      r ←
          create_at n name f.leader (known_by f.leader w) initial_state w.stores
            (lookup f.leader w.stores)
      ok (with_stores w f r)

    -- `remove`
    unfoldable pub remove_machine :
        System → FrontEnd → Result (System × FrontEnd × Option ErrorType)
    remove_machine w f = do
      (w, f) ← locate w f
      r ← remove_from n name f.leader (known_by f.leader w) w.stores (lookup f.leader w.stores)
      ok (with_stores w f r)
