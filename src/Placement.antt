-- ===== src/Placement.antt =====
-- MP2/src/replica/replica_handler.cpp: how the leader creates a machine on three replicas. A replica
-- that runs is an entry of the map, and the others know that they are not the leader.
pub mod Least
pub mod Copies
pub mod Create
pub mod Fresh
use ece.Prelude.{
  ℕ, zero, suc, ◌+◌, Bool, true, false, not, Option, none, some, List, [], ◌∷◌, ltb, ◌==◌,
  if◌then◌else◌, Result, ok, fault, ◌>>=◌, not_running,
}
use ece.Int32.{inc, slt}
use ece.Map.{Map, lookup, insert}
use ece.Machines.{
  Text, Machine, Store, ErrorType, already_exists, Reply, done, throws, put, state_exists, create,
  dec,
}
use ece.Replica.{minus_one, to_int16}

-- `MIN_REPLICAS` and `INT_MAX`
abbrev pub min_replicas : ℕ
min_replicas = 3

abbrev pub int_max : ℕ
int_max = 2147483647

-- `count`, `mmi` and `mm`
pub record Survey : Type 0 where
  pub count : ℕ
  pub least_index : ℕ
  pub least : ℕ

-- `mmi` is -1 at first.
abbrev pub no_survey : Survey
no_survey = record { count = 0; least_index = minus_one; least = int_max }

module _ (machine : Machine) where
  abbrev pub Stores : Type 0
  Stores = Map (Store machine)

  -- The round of the inner loop for replica i. `getMemUtilization` returns an `int16_t`.
  unfoldable pub look : Text → ℕ → Option (Store machine) → Survey → Survey
  look name i none v = v
  look name i (some s) v =
      if state_exists machine name s
      then record v { count = v.count + 1 }
      else if slt (to_int16 s.mem_utilization) v.least
      then record v { least_index = i; least = to_int16 s.mem_utilization }
      else v

  unfoldable pub survey_loop : ℕ → ℕ → Text → Stores → Survey → Survey
  survey_loop zero i name c v = v
  survey_loop (suc rounds) i name c v =
      survey_loop rounds (i + 1) name c (look name i (lookup i c) v)

  -- The copy of the leader itself: `insert` leaves a machine of that name as it is.
  unfoldable pub place_own : Text → Text → Store machine → Store machine
  place_own name initial_state s = record s {
    machines =
        if state_exists machine name s
        then s.machines
        else put name (machine.make initial_state) s.machines;
    queue_len = dec machine (inc s.queue_len);
    mem_utilization = inc s.mem_utilization;
  }

  -- A call with its effect on the stores and the error it throws.
  unfoldable pub place_at : ℕ → Stores → Reply (Store machine) → Stores × Option ErrorType
  place_at i c (done s) = (insert i s c, none)
  place_at i c (throws e) = (c, some e)

  -- The copy on replica i. There is no replica -1.
  unfoldable pub place :
      Bool → ℕ → Text → Text → Option (Store machine) → Stores → Result (Stores × Option ErrorType)
  place own i name initial_state none c = fault not_running
  place own i name initial_state (some s) c = ok (
      place_at i c (
        if own then done (place_own name initial_state s) else create machine name initial_state s))

  -- The rounds of the outer loop. Besides the stores, it tells whether `preexisting` stayed true,
  -- or the error that ended it.
  unfoldable pub after_place :
      (Stores → Result (Stores × Bool × Option ErrorType))
      → Bool
      → Stores × Option ErrorType
      → Result (Stores × Bool × Option ErrorType)
  after_place rest preexisting (c, none) = rest c
  after_place rest preexisting (c, some e) = ok (c, preexisting, some e)

  unfoldable pub create_loop :
      ℕ → ℕ → ℕ → Text → Text → Bool → Stores → Result (Stores × Bool × Option ErrorType)
  create_loop zero n id name initial_state preexisting c = ok (c, preexisting, none)
  create_loop (suc rounds) n id name initial_state preexisting c =
      let v = survey_loop n 0 name c no_survey in
      let still = if v.count == 0 then false else preexisting in
      if ltb v.count min_replicas
      then place (v.least_index == id) v.least_index name initial_state (lookup v.least_index c) c
        >>= after_place (create_loop rounds n id name initial_state still) still
      else ok (c, still, none)

  unfoldable pub verdict_of : Stores × Bool × Option ErrorType → Stores × Option ErrorType
  verdict_of (c, preexisting, some e) = (c, some e)
  verdict_of (c, preexisting, none) = (c, if preexisting then some already_exists else none)

  -- `create` on the leader.
  unfoldable pub create_copies : ℕ → ℕ → Text → Text → Stores → Result (Stores × Option ErrorType)
  create_copies n id name initial_state c =
      create_loop min_replicas n id name initial_state true c >>= λ r. ok (verdict_of r)
