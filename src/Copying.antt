-- ===== src/Copying.antt =====
-- MP2/src/replica/replica_handler.cpp: a read of a machine. The leader chooses the replica to read
-- from and has the machine copied to replicas without it, and that replica answers the client and
-- tells the leader. Calls come one after the other, so that a wait for a write of the queue has no
-- end. A replica that runs is an entry of the map, and they agree on the leader.
pub mod Agreement
pub mod Choosing
pub mod Missing
pub mod Recovery
pub mod Refill
pub mod Touched
use ece.Prelude.{
  length, ℕ, zero, suc, ◌+◌, ◌-◌, Bool, true, false, ◌||◌, Option, none, some, List, [], ◌∷◌, ◌==◌,
  if◌then◌else◌, Result, ok, fault, ◌>>=◌, not_running, null_dereference, over_read, blocked,
}
use ece.Int32.{slt}
use ece.Map.{lookup, insert}
use ece.Machines.{
  not_leader, Text, find, Machine, Store, Request, ErrorType, Reply, done, throws, queue_of,
  set_queue, enqueue_read, notify_finished_reading, get_state,
}
use ece.Placement.{min_replicas, int_max, Stores, place, create_copies}
use ece.Reading.{Choice, choose_reader}
use ece.Replica.{to_int16}

abbrev pub has_write : List Request → Bool
has_write [] = false
has_write (r ∷ q) = r.is_write || has_write q

-- `copyOver[i]`: an index that is not set, or past the end, reads outside of the vector.
unfoldable pub nth : List ℕ → Option ℕ → Result ℕ
nth l none = fault over_read
nth [] (some i) = fault over_read
nth (x ∷ l) (some zero) = ok x
nth (x ∷ l) (some (suc i)) = nth l (some i)

-- `mmi`, which is not set at first, and `mm`.
pub record Target : Type 0 where
  pub index : Option ℕ
  pub least : ℕ

module _ (machine : Machine) where
  -- A round of the loop over j, which asks replica i each time.
  unfoldable pub weigh : ℕ → Option (Store machine) → Target → Target
  weigh i none t = t
  weigh i (some s) t =
      if slt (to_int16 s.mem_utilization) t.least
      then record { index = some i; least = to_int16 s.mem_utilization }
      else t

  unfoldable pub weigh_loop : ℕ → ℕ → Option (Store machine) → Target → Target
  weigh_loop zero i o t = t
  weigh_loop (suc rounds) i o t = weigh_loop rounds i o (weigh i o t)

  module _ (n id : ℕ) (name : Text) where
    -- The `create` that `makeCopy` calls, on the leader or another replica.
    unfoldable pub copy_to : ℕ → Text → Stores machine → Result (Stores machine × Option ErrorType)
    copy_to destination state c =
        if destination == id
        then create_copies machine n id name state c
        else place machine false destination name state (lookup destination c) c

    -- `makeCopy`: `machines[name]` is a null pointer where there is no such machine.
    unfoldable pub copy_from :
        ℕ → Option machine.State → Stores machine → Result (Stores machine × Option ErrorType)
    copy_from destination none c = fault null_dereference
    copy_from destination (some m) c = copy_to destination (machine.get_state m) c

    unfoldable pub make_copy :
        ℕ → Option (Store machine) → Stores machine → Result (Stores machine × Option ErrorType)
    make_copy destination none c = fault not_running
    make_copy destination (some s) c = copy_from destination (find name s.machines) c

    unfoldable pub after_copy :
        (Stores machine → Result (Stores machine × Option ErrorType))
        → Stores machine × Option ErrorType
        → Result (Stores machine × Option ErrorType)
    after_copy rest (c, none) = rest c
    after_copy rest (c, some e) = ok (c, some e)

    -- The rounds over i, from replica i on.
    unfoldable pub copy_loop :
        ℕ → ℕ → Choice → Stores machine → Result (Stores machine × Option ErrorType)
    copy_loop zero i v c = ok (c, none)
    copy_loop (suc rounds) i v c =
        let t =
          weigh_loop (min_replicas - v.count) i (lookup i c)
            (record { index = none; least = int_max }) in
        nth v.copy_over t.index
        >>= (λ destination. make_copy destination (lookup v.least_index c) c)
        >>= after_copy (copy_loop rounds (i + 1) v)

    -- The end of `prepareGetState`: the read is queued, and the chosen replica returned.
    unfoldable pub queue_read :
        ℕ → ℕ → Stores machine → Option (Store machine) → Result (Stores machine × Reply ℕ)
    queue_read where_to client c none = fault not_running
    queue_read where_to client c (some s) =
        ok (insert id (enqueue_read machine where_to client name s) c, done (to_int16 where_to))

    unfoldable pub copied :
        ℕ → ℕ → Stores machine × Option ErrorType → Result (Stores machine × Reply ℕ)
    copied where_to client (c, some e) = ok (c, throws e)
    copied where_to client (c, none) = queue_read where_to client c (lookup id c)

    unfoldable pub chosen : ℕ → Stores machine → Reply Choice → Result (Stores machine × Reply ℕ)
    chosen client c (throws e) = ok (c, throws e)
    chosen client c (done v) = copy_loop (length v.copy_over) 0 v c >>= copied v.least_index client

    -- `prepareGetState` of the leader. `bmi` is not initialised.
    unfoldable pub prepare_get_state :
        ℕ → ℕ → Stores machine → Option (Store machine) → Result (Stores machine × Reply ℕ)
    prepare_get_state garbage client c none = fault not_running
    prepare_get_state garbage client c (some s) =
        let touched = insert id (set_queue machine name (queue_of machine name s) s) c in
        if has_write (queue_of machine name s)
        then fault blocked
        else chosen client touched (choose_reader machine name garbage n touched)

    -- `prepareGetState` of replica `id`, which knows a leader, up to the error thrown in it, which
    -- the interface does not declare: `FrontEnd.declared` has what the caller gets.
    unfoldable pub prepare_at :
        ℕ → ℕ → ℕ → Stores machine → Option (Store machine) → Result (Stores machine × Reply ℕ)
    prepare_at leader garbage client c none = fault not_running
    prepare_at leader garbage client c (some s) =
        if id == leader
        then prepare_get_state garbage client c (some s)
        else ok (c, throws not_leader)

    -- The call of `notifyFinishedReading` at the end of `getState`.
    unfoldable pub notified :
        ℕ
        → ℕ
        → Text
        → Stores machine
        → Option (Store machine)
        → Result (Stores machine × Reply Text)
    notified rmid client result c none = fault not_running
    notified rmid client result c (some s) =
        ok (insert id (notify_finished_reading machine rmid client name s) c, done result)

    unfoldable pub got :
        ℕ → ℕ → Stores machine → Reply (Store machine × Text) → Result (Stores machine × Reply Text)
    got rmid client c (throws e) = ok (c, throws e)
    got rmid client c (done (s, result)) =
        let c' = insert rmid s c in notified rmid client result c' (lookup id c')

    -- `getState` of replica `rmid`, with its call of the leader.
    unfoldable pub get_state_at :
        ℕ → ℕ → Stores machine → Option (Store machine) → Result (Stores machine × Reply Text)
    get_state_at rmid client c none = fault not_running
    get_state_at rmid client c (some s) = got rmid client c (get_state machine name s)
