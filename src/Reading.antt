-- ===== src/Reading.antt =====
-- MP2/src/replica/replica_handler.cpp: how the leader chooses the replica that a client reads from,
-- and how it removes a machine everywhere. A replica that runs is an entry of the map, and the
-- others know that they are not the leader.
pub mod Balance
pub mod Removal
use ece.Prelude.{
  ℕ, zero, suc, ◌+◌, Bool, true, false, Option, none, some, List, [], ◌∷◌, ◌++◌, ◌==◌,
  if◌then◌else◌,
}
use ece.Int32.{slt}
use ece.Map.{lookup, insert}
use ece.Machines.{Text, Machine, Store, not_found, Reply, done, throws, state_exists, remove}
use ece.Replica.{to_int16}
use ece.Placement.{int_max, Stores}

-- `bmi`, `bm`, `count` and `copyOver`. `bmi` is not initialised.
pub record Choice : Type 0 where
  pub least_index : ℕ
  pub least : ℕ
  pub count : ℕ
  pub copy_over : List ℕ

abbrev pub no_choice : ℕ → Choice
no_choice garbage = record { least_index = garbage; least = int_max; count = 0; copy_over = [] }

module _ (machine : Machine) (name : Text) where
  -- The round of the loop for replica i. `getBwUtilization` returns an `int16_t`.
  unfoldable pub consider : ℕ → Option (Store machine) → Choice → Choice
  consider i none v = v
  consider i (some s) v =
      if state_exists machine name s
      then if slt (to_int16 s.bw_utilization) v.least
        then record v { count = v.count + 1; least_index = i; least = to_int16 s.bw_utilization }
        else record v { count = v.count + 1 }
      else record v { copy_over = v.copy_over ++ i ∷ [] }

  unfoldable pub consider_loop : ℕ → ℕ → Stores machine → Choice → Choice
  consider_loop zero i c v = v
  consider_loop (suc rounds) i c v = consider_loop rounds (i + 1) c (consider i (lookup i c) v)

  -- The choice of `prepareGetState`, up to the copies, or the error thrown in it.
  unfoldable pub choose_reader : ℕ → ℕ → Stores machine → Reply Choice
  choose_reader garbage n c =
      let v = consider_loop n 0 c (no_choice garbage) in
      if v.count == 0 then throws not_found else done v

  -- The call of `remove` on replica i, whose errors are dropped.
  unfoldable pub remove_reply : ℕ → Stores machine → Reply (Store machine) → Stores machine
  remove_reply i c (done t) = insert i t c
  remove_reply i c (throws e) = c

  unfoldable pub remove_at : ℕ → Stores machine → Option (Store machine) → Stores machine
  remove_at i c none = c
  remove_at i c (some s) = remove_reply i c (remove machine name s)

  unfoldable pub remove_loop : ℕ → ℕ → ℕ → Stores machine → Stores machine
  remove_loop zero i id c = c
  remove_loop (suc rounds) i id c =
      remove_loop rounds (i + 1) id (if i == id then c else remove_at i c (lookup i c))

  -- The leader's own store comes first: an error there ends the call.
  unfoldable pub after_own : ℕ → ℕ → Stores machine → Reply (Store machine) → Reply (Stores machine)
  after_own n id c (done t) = done (remove_loop n 0 id (insert id t c))
  after_own n id c (throws e) = throws e

  -- `remove` on the leader, whose own store is `s`.
  unfoldable pub remove_all : ℕ → ℕ → Store machine → Stores machine → Reply (Stores machine)
  remove_all n id s c = after_own n id c (remove machine name s)
