-- ===== src/Machines/Turns.antt =====
-- MP2/src/replica/replica_handler.cpp: the calls at the queue of one machine, on a replica that is not
-- the leader. The calls of `apply` interleave at their waits: each is queued, passes the wait when
-- its write is at the head, has it performed, and takes the head from the queue.
use ece.Prelude.{
  ℕ, zero, suc, ◌+◌, Bool, false, ◌&&◌, ◌||◌, Option, none, some, List, [], ◌∷◌, ◌++◌,
  if◌then◌else◌, Result, ok, fault, ◌>>=◌, null_dereference,
}
use ece.Machines.{
  Text, same_text, find, Machine, Reply, done, throws, Store, queue_of, enqueue_write, is_next,
  perform_write, dequeue, enqueue_read, notify_finished_reading,
}

-- What happens at the queue of one machine: a call of `apply` begins, passes its wait, ends; a read
-- is queued by `prepareGetState`, and is finished.
pub data Event : Type 0 where
  begins passes : Text → Event
  ends : Event
  reads finishes : ℕ → ℕ → Event

unfoldable pub waits : Text → List Text → Bool
waits operation [] = false
waits operation (t ∷ l) = same_text t operation || waits operation l

-- One of the calls with that operation waits no longer.
unfoldable pub take_one : Text → List Text → List Text
take_one operation [] = []
take_one operation (t ∷ l) = if same_text t operation then l else t ∷ take_one operation l

module _ (machine : Machine) where
  -- A store with the calls of `apply` that wait, and the number of those that have performed their
  -- operation and not yet taken the head from the queue.
  pub record Service : Type 0 where
    pub store : Store machine
    pub waiting : List Text
    pub ending : ℕ

  module _ (name : Text) where
    unfoldable pub begun : Text → Service → Reply (Store machine) → Service
    begun operation c (done s) = record c { store = s; waiting = c.waiting ++ operation ∷ [] }
    begun operation c (throws e) = c

    -- `result = machines[name]->apply(operation)`
    unfoldable pub passed : Text → Service → Option machine.State → Result Service
    passed operation c none = fault null_dereference
    passed operation c (some m) = ok (record {
      store = perform_write machine operation m name c.store;
      waiting = take_one operation c.waiting;
      ending = c.ending + 1;
    })

    unfoldable pub end_one : ℕ → Service → Result Service
    end_one zero c = ok c
    end_one (suc k) c =
        dequeue machine name c.store >>= λ s. ok (record c { store = s; ending = k })

    -- A call that has to wait still waits.
    unfoldable pub on_event : Event → Service → Result Service
    on_event (begins operation) c =
        ok (begun operation c (enqueue_write machine name operation c.store))
    on_event (passes operation) c =
        if waits operation c.waiting && is_next operation (queue_of machine name c.store)
        then passed operation c (find name c.store.machines)
        else ok c
    on_event ends c = end_one c.ending c
    on_event (reads where_to client) c =
        ok (record c { store = enqueue_read machine where_to client name c.store })
    on_event (finishes rmid client) c =
        ok (record c { store = notify_finished_reading machine rmid client name c.store })

    unfoldable pub run_events : List Event → Service → Result Service
    run_events [] c = ok c
    run_events (e ∷ es) c = on_event e c >>= run_events es
